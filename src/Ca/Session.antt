-- ===== src/Ca/Session.antt =====
-- src/ca/session.rs: the session layer.
mod State
pub mod Table
pub mod Dispatch
pub mod Invariant
pub mod Runs
mod Tests
use libdvb.Prelude.{
  ℕ, zero, suc, ◌+◌, ◌-◌, Bool, true, false, not, ◌&&◌, ◌||◌, List, [], ◌∷◌, ◌++◌, Option, none,
  some, ltb, leb, ◌==◌, if◌then◌else◌, length, get_elem?, set, Result, ok, err, panic, invalid_data,
  u16,
}
use libdvb.Ca.ResourceId.{ResourceId, version}
use libdvb.Ca.Spdu.{
  Spdu, session_number, open_session_request, create_session_response, close_session_request,
  close_session_response, ss_ok, ss_not_allocated, ss_lower_version, ss_busy,
  build_open_session_response, build_close_session_request, build_close_session_response,
}
use libdvb.Ca.Spdu
use libdvb.Ca.Apdu
use libdvb.Ca.Apdu.{Apdu}
use libdvb.Ca.Transport.{CiTransport, send_spdu}
pub use State.{
  SessionState, active, closing, Session, CaEvent, transport_ready, malformed_data, session_opened,
  session_refused, session_closed, reported, Called, Resources, CiSession, S, proceed, ◌>>=◌, ◌>>◌,
  done, put_transport, on_transport, push,
}
pub use Table.{
  max_slot_sessions, host_profile, lookup, session_at, is_of, in_use, position, alloc_session,
  is_active, serves, require_session, find_session,
}

-- A callback's events, in their place among the others.
abbrev pub report : {E : Type 0} → List E → List (CaEvent E)
report [] = []
report (event ∷ rest) = reported event ∷ report rest

abbrev active_of : ℕ → Option Session → Bool
active_of slot_id none = false
active_of slot_id (some session) = session.slot_id == slot_id && is_active session.state

abbrev closing_of : ℕ → Option Session → Bool
closing_of slot_id none = false
closing_of slot_id (some session) = session.slot_id == slot_id && not (is_active session.state)

module _ {R E : Type 0} (calls : Resources R E) where
  closed_resources : Option ResourceId → Session → ℕ → R → R
  closed_resources none session session_id registry = registry
  closed_resources (some r) session session_id registry =
      calls.on_close r session.slot_id session_id registry

  -- What follows `Option::take` in `free_session`.
  freed : ℕ → Option Session → S R E (Unit {0})
  unfolding closed_resources
  freed index none s = (s, ok tt)
  freed index (some session) s =
      push (session_closed session.slot_id (suc index) session.resource_id) (record s {
        sessions = set s.sessions index none;
        resources = closed_resources (lookup session.resource_id) session (suc index) s.resources;
      })

  pub free_session : ℕ → S R E (Unit {0})
  unfolding freed
  free_session zero s = (s, ok tt)
  free_session (suc index) s = freed index (session_at s.sessions (suc index)) s

  resource_result : ℕ → Result (Unit {0}) → S R E (Unit {0})
  resource_result slot_id (err invalid_data) = push (malformed_data slot_id)
  resource_result slot_id r = done r

  -- The registry, the transport and the events after a callback, and `resource_result`.
  pub after_call : ℕ → Called R E → S R E (Unit {0})
  unfolding resource_result
  after_call slot_id c s = resource_result slot_id c.result (record s {
    resources = c.registry;
    transport = c.transport;
    events = s.events ++ report c.events;
  })

  -- A session was allocated.
  opened : ℕ → ℕ → ResourceId → S R E (Unit {0})
  unfolding after_call
  opened slot_id session_id resource_id = do
    on_transport (send_spdu slot_id (build_open_session_response ss_ok resource_id session_id))
    push (session_opened slot_id session_id resource_id)
    λ s. after_call slot_id (calls.on_open resource_id slot_id session_id s.resources s.transport) s

  -- No session was allocated.
  refused : ℕ → ResourceId → ResourceId → ℕ → S R E (Unit {0})
  refused slot_id resource_id response_resource_id code = do
    on_transport (send_spdu slot_id (build_open_session_response code response_resource_id 0))
    push (session_refused slot_id resource_id code)

  -- The `match` on what `alloc_session` returned.
  allocated : ℕ → ResourceId → ResourceId → List (Option Session) × Option ℕ → S R E (Unit {0})
  unfolding opened refused
  allocated slot_id resource_id available (sessions, none) s =
      refused slot_id resource_id available ss_busy (record s { sessions = sessions })
  allocated slot_id resource_id available (sessions, some session_id) s =
      opened slot_id session_id available (record s { sessions = sessions })

  -- The `match` on the resource that was found.
  open_available : ℕ → ResourceId → Option ResourceId → S R E (Unit {0})
  unfolding allocated
  open_available slot_id resource_id none s =
      refused slot_id resource_id resource_id ss_not_allocated s
  open_available slot_id resource_id (some available) s =
      if ltb (version available) (version resource_id)
      then refused slot_id resource_id available ss_lower_version s
      else allocated slot_id resource_id available (alloc_session slot_id available s.sessions) s

  pub open_session : ℕ → ResourceId → S R E (Unit {0})
  unfolding open_available
  open_session slot_id resource_id = open_available slot_id resource_id (lookup resource_id)

  set_state : ℕ → SessionState → Option Session → S R E (Unit {0})
  set_state index state none s = (s, ok tt)
  set_state index state (some session) s = (
    record s { sessions = set s.sessions index (some (record session { state = state })) },
    ok tt,
  )

  pub request_close : ℕ → ℕ → S R E (Unit {0})
  unfolding set_state
  request_close slot_id zero s = (s, ok tt)
  request_close slot_id (suc index) s =
      let o = session_at s.sessions (suc index) in
      if active_of slot_id o
      then (do
        set_state index closing o
        on_transport (send_spdu slot_id (build_close_session_request (suc index))))
          s
      else (s, ok tt)

  -- Handles close_session_request from the module.
  pub close_session : ℕ → ℕ → S R E (Unit {0})
  unfolding free_session
  close_session slot_id session_id s =
      if is_of slot_id (session_at s.sessions session_id)
      then (do
        on_transport (send_spdu slot_id (build_close_session_response ss_ok session_id))
        free_session session_id)
          s
      else (do
        on_transport (send_spdu slot_id (build_close_session_response ss_not_allocated session_id))
        push (malformed_data slot_id))
          s

  -- `session_id - 1` overflows at zero, which the caller has ruled out.
  reactivate : ℕ → S R E (Unit {0})
  unfolding set_state
  reactivate zero s = (s, panic)
  reactivate (suc index) s = set_state index active (session_at s.sessions (suc index)) s

  -- The `match` on the status.
  completed : ℕ → ℕ → ℕ → S R E (Unit {0})
  unfolding free_session reactivate
  completed slot_id session_id code s =
      if code == ss_ok || code == ss_not_allocated
      then free_session session_id s
      else (do reactivate session_id; push (malformed_data slot_id)) s

  pub close_session_complete : ℕ → ℕ → ℕ → S R E (Unit {0})
  unfolding completed
  close_session_complete slot_id session_id code s =
      if closing_of slot_id (session_at s.sessions session_id)
      then completed slot_id session_id code s
      else push (malformed_data slot_id) s
