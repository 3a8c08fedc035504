-- ===== src/Ca/Session/Runs.antt =====
-- Any calls, in any order, on a session layer that `new` made.
use libdvb.Prelude.{ℕ, Bool, List, [], ◌∷◌}
use libdvb.Ca.Transport.{CiTransport}
use libdvb.Ca.Session.{Resources, CiSession}
use libdvb.Ca.Session.Dispatch.{new, recv_filtered, drop_slot, next_event}
use libdvb.Ca.Session.Dispatch.Keeps.{
  recv_filtered-Keeps, drop_slot-Keeps, new-Pool, next_event-Pool,
}
use libdvb.Ca.Session.Table.Pool.{Pool}

-- The calls that change the table or the events, and `others`, which stands for what the transport and
-- the resources do in the remaining methods.
pub data Call (R : Type 0) : Type 0 where
  receives : (accept_spdu : ℕ → Bool) → Call R
  drops : (slot_id : ℕ) → Call R
  takes_event : Call R
  others : (transport : CiTransport) (registry : R) → Call R

module _ {R E : Type 0} (calls : Resources R E) where
  -- A call's result plays no part: the caller may go on after an error.
  pub step : CiSession R E → Call R → CiSession R E
  step s (receives accept_spdu) = (recv_filtered calls accept_spdu s).0
  step s (drops slot_id) = (drop_slot calls slot_id s).0
  step s takes_event = (next_event s).0
  step s (others transport registry) = record s { transport = transport; resources = registry }

  pub run : CiSession R E → List (Call R) → CiSession R E
  run s [] = s
  run s (c ∷ cs) = run (step s c) cs

  step-Pool : (s : CiSession R E) (c : Call R) → Pool s.sessions → Pool (step s c).sessions
  unfolding step
  step-Pool s (receives accept_spdu) v = recv_filtered-Keeps calls accept_spdu s v
  step-Pool s (drops slot_id) v = drop_slot-Keeps calls slot_id s v
  step-Pool s takes_event v = next_event-Pool s v
  step-Pool s (others transport registry) v = v

  run_from-Pool :
      (s : CiSession R E) (cs : List (Call R)) → Pool s.sessions → Pool (run s cs).sessions
  unfolding run
  run_from-Pool s [] v = v
  run_from-Pool s (c ∷ cs) v = run_from-Pool (step s c) cs (step-Pool s c v)

  -- After any frames, dropped slots and other calls, with any resources: no slot holds more than
  -- `MAX_SLOT_SESSIONS` sessions.
  pub run-Pool :
      (transport : CiTransport) (registry : R) (cs : List (Call R))
      → Pool (run (new transport registry) cs).sessions
  run-Pool transport registry cs =
      run_from-Pool (new transport registry) cs (new-Pool E transport registry)
