-- ===== src/Ca/Session/Dispatch.antt =====
-- src/ca/session.rs: what the session layer does with a frame that the transport read, and with a slot
-- that is gone.
pub mod Keeps
pub mod Drop
use libdvb.Prelude.{
  u16, ℕ, zero, suc, ◌+◌, Bool, true, false, ◌||◌, List, [], ◌∷◌, Option, none, some, ◌==◌,
  if◌then◌else◌, length, Error, Result, ok, err, panic, invalid_data,
}
use libdvb.Ca.ResourceId.{ResourceId}
use libdvb.Ca.Spdu.{
  Spdu, session_number, open_session_request, create_session_response, close_session_request,
  close_session_response,
}
use libdvb.Ca.Spdu
use libdvb.Ca.Apdu
use libdvb.Ca.Apdu.{Apdu}
use libdvb.Ca.Transport
use libdvb.Ca.Transport.{CiTransport, TransportRecv, tc_reply, spdu, status, malformed, clear_slot}
use libdvb.Ca.Session.{
  Session, CaEvent, transport_ready, malformed_data, Resources, CiSession, S, ◌>>=◌, ◌>>◌, done,
  on_transport, push, lookup, session_at, is_of, after_call, free_session, open_session,
  close_session, close_session_complete, request_close,
}

pub new : {R E : Type 0} → CiTransport → R → CiSession R E
new transport registry = record {
  transport = transport;
  resources = registry;
  sessions = [];
  events = [];
}

-- `pop_front` on the events.
pop_event : {R E : Type 0} → CiSession R E → List (CaEvent E) → CiSession R E × Option (CaEvent E)
pop_event s [] = (s, none)
pop_event s (event ∷ rest) = (record s { events = rest }, some event)

pub next_event : {R E : Type 0} → CiSession R E → CiSession R E × Option (CaEvent E)
unfolding pop_event
next_event s = pop_event s s.events

-- `TransportRecv::slot_id`
abbrev recv_slot : TransportRecv → ℕ
recv_slot (tc_reply slot_id) = slot_id
recv_slot (spdu slot_id bytes) = slot_id
recv_slot (status slot_id) = slot_id
recv_slot (malformed slot_id) = slot_id

module _ {R E : Type 0} (calls : Resources R E) where
  -- The loop over the APDUs; the flag is `close_session`.
  apdu_loop : ResourceId → ℕ → ℕ → Bool → List (Result Apdu) → S R E Bool
  apdu_loop resource_id slot_id session_id close [] s = (s, ok close)
  apdu_loop resource_id slot_id session_id close (ok item ∷ rest) s =
      let c =
        calls.on_apdu resource_id slot_id session_id item.tag item.body s.resources s.transport in
      (after_call calls slot_id c >>= λ _.
      apdu_loop resource_id slot_id session_id (close || c.close_session) rest)
        s
  apdu_loop resource_id slot_id session_id close (err invalid_data ∷ rest) s =
      (push (malformed_data slot_id) >>= λ _. done (ok close)) s
  apdu_loop resource_id slot_id session_id close (err e ∷ rest) s = (s, err e)
  apdu_loop resource_id slot_id session_id close (panic ∷ rest) s = (s, panic)

  -- All items are there: the iterator ends.
  apdu_items : ResourceId → ℕ → ℕ → Option (List (Result Apdu)) → S R E Bool
  apdu_items resource_id slot_id session_id none = done panic
  apdu_items resource_id slot_id session_id (some items) =
      apdu_loop resource_id slot_id session_id false items

  close_if : ℕ → ℕ → Bool → S R E (Unit {0})
  close_if slot_id session_id true = request_close calls slot_id session_id
  close_if slot_id session_id false = done (ok tt)

  -- The resource of the session, which `expect` says is there.
  apdu_resource : ℕ → ℕ → List ℕ → Option ResourceId → S R E (Unit {0})
  unfolding apdu_items close_if
  apdu_resource slot_id session_id bytes none = done panic
  apdu_resource slot_id session_id bytes (some r) = do
    close ← apdu_items r slot_id session_id (Apdu.iter bytes)
    close_if slot_id session_id close

  -- The `match` on the session.
  apdu_session : ℕ → ℕ → List ℕ → Option Session → S R E (Unit {0})
  unfolding apdu_resource
  apdu_session slot_id session_id bytes none = push (malformed_data slot_id)
  apdu_session slot_id session_id bytes (some session) =
      if session.slot_id == slot_id
      then apdu_resource slot_id session_id bytes (lookup session.resource_id)
      else push (malformed_data slot_id)

  pub dispatch_apdu : ℕ → ℕ → List ℕ → S R E (Unit {0})
  unfolding apdu_session
  dispatch_apdu slot_id session_id bytes s =
      apdu_session slot_id session_id bytes (session_at s.sessions session_id) s

  -- The `match` on the parsed SPDU.
  dispatch_parsed : ℕ → Result Spdu → S R E (Unit {0})
  dispatch_parsed slot_id (ok (session_number session_id bytes)) =
      dispatch_apdu slot_id session_id bytes
  dispatch_parsed slot_id (ok (open_session_request resource_id)) =
      open_session calls slot_id resource_id
  dispatch_parsed slot_id (ok (close_session_request session_id)) =
      close_session calls slot_id session_id
  dispatch_parsed slot_id (ok (close_session_response code session_id)) =
      close_session_complete calls slot_id session_id code
  dispatch_parsed slot_id (ok (create_session_response code resource_id session_id)) =
      push (malformed_data slot_id)
  dispatch_parsed slot_id (err invalid_data) = push (malformed_data slot_id)
  dispatch_parsed slot_id (err e) = done (err e)
  dispatch_parsed slot_id panic = done panic

  pub dispatch_spdu : ℕ → List ℕ → S R E (Unit {0})
  unfolding dispatch_parsed
  dispatch_spdu slot_id bytes = dispatch_parsed slot_id (Spdu.parse bytes)

  -- The `match` on what was received.
  dispatch_recv : (ℕ → Bool) → TransportRecv → S R E (Unit {0})
  dispatch_recv accept_spdu (tc_reply slot_id) = push (transport_ready slot_id)
  dispatch_recv accept_spdu (spdu slot_id bytes) =
      if accept_spdu slot_id then dispatch_spdu slot_id bytes else push (malformed_data slot_id)
  dispatch_recv accept_spdu (status slot_id) = done (ok tt)
  dispatch_recv accept_spdu (malformed slot_id) = push (malformed_data slot_id)

  handle_recv : (ℕ → Bool) → Option TransportRecv → S R E (Option ℕ)
  unfolding dispatch_recv
  handle_recv accept_spdu none = done (ok none)
  handle_recv accept_spdu (some recv) = do
    dispatch_recv accept_spdu recv
    on_transport (Transport.flush (recv_slot recv))
    done (ok (some (recv_slot recv)))

  -- `recv` with a test that holds always, `recv_controller` with the slots that are active.
  pub recv_filtered : (ℕ → Bool) → S R E (Option ℕ)
  unfolding handle_recv
  recv_filtered accept_spdu = do
    recv ← on_transport Transport.recv_apdu
    handle_recv accept_spdu recv

  -- The loop of `drop_slot`, over the `n` indices from `index` on.
  drop_from : ℕ → ℕ → ℕ → S R E (Unit {0})
  drop_from slot_id index zero s = (s, ok tt)
  drop_from slot_id index (suc n) s =
      if is_of slot_id (session_at s.sessions (suc index))
      then (free_session calls (u16 (suc index)) >>= λ _. drop_from slot_id (suc index) n) s
      else drop_from slot_id (suc index) n s

  pub drop_slot : ℕ → S R E (Unit {0})
  unfolding drop_from
  drop_slot slot_id s =
      drop_from slot_id 0 (length s.sessions)
        (record s { transport = clear_slot s.transport slot_id })
