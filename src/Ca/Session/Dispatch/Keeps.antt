-- ===== src/Ca/Session/Dispatch/Keeps.antt =====
-- Frames and dropped slots keep the bound on the session table.
use libdvb.Prelude.{
  u16, ℕ, zero, suc, Bool, true, false, ◌||◌, List, [], ◌∷◌, Option, none, some, ◌==◌, length, io,
  nix, invalid_property, Result, ok, err, panic, invalid_data,
}
use libdvb.Ca.ResourceId.{ResourceId}
use libdvb.Ca.Spdu.{
  Spdu, session_number, open_session_request, create_session_response, close_session_request,
  close_session_response, parse,
}
use libdvb.Ca.Apdu
use libdvb.Ca.Apdu.{Apdu}
use libdvb.Ca.Transport
use libdvb.Ca.Transport.{CiTransport, TransportRecv, tc_reply, spdu, status, malformed, clear_slot}
use libdvb.Ca.Session.{
  Session, CaEvent, malformed_data, Resources, CiSession, ◌>>=◌, ◌>>◌, done, on_transport, push,
  lookup, session_at, is_of, after_call, free_session,
}
use libdvb.Ca.Session.Table.Pool.{Pool, in_use-nil}
use libdvb.Ca.Session.Invariant.{
  Keeps, Keeps-bind, Keeps-transport, Keeps-push, Keeps-if, Keeps-choice, Keeps-after,
  free_session-Keeps, after_call-Keeps, open_session-Keeps, request_close-Keeps,
  close_session-Keeps, close_session_complete-Keeps,
}
use libdvb.Ca.Session.Dispatch.{
  apdu_loop, apdu_items, close_if, apdu_resource, apdu_session, dispatch_apdu, dispatch_parsed,
  dispatch_spdu, dispatch_recv, recv_slot, handle_recv, recv_filtered, drop_from, drop_slot, new,
  next_event, pop_event,
}

module _ {R E : Type 0} (calls : Resources R E) where
  apdu_loop-Keeps :
      (r : ResourceId) (slot_id session_id : ℕ) (close : Bool) (items : List (Result Apdu))
      → Keeps (apdu_loop calls r slot_id session_id close items)
  unfolding apdu_loop
  apdu_loop-Keeps r slot_id session_id close [] s v = v
  apdu_loop-Keeps r slot_id session_id close (ok item ∷ rest) s v =
      let c = calls.on_apdu r slot_id session_id item.tag item.body s.resources s.transport in
      Keeps-bind (after_call calls slot_id c)
        (λ _. apdu_loop calls r slot_id session_id (close || c.close_session) rest)
        (after_call-Keeps calls slot_id c)
        (λ _. apdu_loop-Keeps r slot_id session_id (close || c.close_session) rest) s v
  apdu_loop-Keeps r slot_id session_id close (err invalid_data ∷ rest) s v = v
  apdu_loop-Keeps r slot_id session_id close (err (io k) ∷ rest) s v = v
  apdu_loop-Keeps r slot_id session_id close (err nix ∷ rest) s v = v
  apdu_loop-Keeps r slot_id session_id close (err invalid_property ∷ rest) s v = v
  apdu_loop-Keeps r slot_id session_id close (panic ∷ rest) s v = v

  apdu_items-Keeps :
      (r : ResourceId) (slot_id session_id : ℕ) (items : Option (List (Result Apdu)))
      → Keeps (apdu_items calls r slot_id session_id items)
  unfolding apdu_items
  apdu_items-Keeps r slot_id session_id none s v = v
  apdu_items-Keeps r slot_id session_id (some items) s v =
      apdu_loop-Keeps r slot_id session_id false items s v

  close_if-Keeps : (slot_id session_id : ℕ) (b : Bool) → Keeps (close_if calls slot_id session_id b)
  unfolding close_if
  close_if-Keeps slot_id session_id true s v = request_close-Keeps calls slot_id session_id s v
  close_if-Keeps slot_id session_id false s v = v

  apdu_resource-Keeps :
      (slot_id session_id : ℕ) (bytes : List ℕ) (r : Option ResourceId)
      → Keeps (apdu_resource calls slot_id session_id bytes r)
  unfolding apdu_resource
  apdu_resource-Keeps slot_id session_id bytes none s v = v
  apdu_resource-Keeps slot_id session_id bytes (some r) s v =
      Keeps-bind (apdu_items calls r slot_id session_id (Apdu.iter bytes))
        (close_if calls slot_id session_id)
        (apdu_items-Keeps r slot_id session_id (Apdu.iter bytes))
        (close_if-Keeps slot_id session_id) s v

  apdu_session-Keeps :
      (slot_id session_id : ℕ) (bytes : List ℕ) (o : Option Session)
      → Keeps (apdu_session calls slot_id session_id bytes o)
  unfolding apdu_session
  apdu_session-Keeps slot_id session_id bytes none s v = v
  apdu_session-Keeps slot_id session_id bytes (some session) s v =
      Keeps-choice (session.slot_id == slot_id)
        (apdu_resource calls slot_id session_id bytes (lookup session.resource_id))
        (push (malformed_data slot_id))
        (apdu_resource-Keeps slot_id session_id bytes (lookup session.resource_id))
        (Keeps-push (malformed_data slot_id)) s v

  dispatch_apdu-Keeps :
      (slot_id session_id : ℕ) (bytes : List ℕ)
      → Keeps (dispatch_apdu calls slot_id session_id bytes)
  unfolding dispatch_apdu
  dispatch_apdu-Keeps slot_id session_id bytes s v =
      apdu_session-Keeps slot_id session_id bytes (session_at s.sessions session_id) s v

  dispatch_parsed-Keeps : (slot_id : ℕ) (r : Result Spdu) → Keeps (dispatch_parsed calls slot_id r)
  unfolding dispatch_parsed
  dispatch_parsed-Keeps slot_id (ok (session_number session_id bytes)) =
      dispatch_apdu-Keeps slot_id session_id bytes
  dispatch_parsed-Keeps slot_id (ok (open_session_request resource_id)) =
      open_session-Keeps calls slot_id resource_id
  dispatch_parsed-Keeps slot_id (ok (close_session_request session_id)) =
      close_session-Keeps calls slot_id session_id
  dispatch_parsed-Keeps slot_id (ok (close_session_response code session_id)) =
      close_session_complete-Keeps calls slot_id session_id code
  dispatch_parsed-Keeps slot_id (ok (create_session_response code resource_id session_id)) =
      λ s v. v
  dispatch_parsed-Keeps slot_id (err invalid_data) = λ s v. v
  dispatch_parsed-Keeps slot_id (err (io k)) = λ s v. v
  dispatch_parsed-Keeps slot_id (err nix) = λ s v. v
  dispatch_parsed-Keeps slot_id (err invalid_property) = λ s v. v
  dispatch_parsed-Keeps slot_id panic = λ s v. v

  dispatch_spdu-Keeps : (slot_id : ℕ) (bytes : List ℕ) → Keeps (dispatch_spdu calls slot_id bytes)
  unfolding dispatch_spdu
  dispatch_spdu-Keeps slot_id bytes = dispatch_parsed-Keeps slot_id (parse bytes)

  dispatch_recv-Keeps :
      (accept_spdu : ℕ → Bool) (recv : TransportRecv) → Keeps (dispatch_recv calls accept_spdu recv)
  unfolding dispatch_recv
  dispatch_recv-Keeps accept_spdu (tc_reply slot_id) = λ s v. v
  dispatch_recv-Keeps accept_spdu (spdu slot_id bytes) =
      Keeps-choice (accept_spdu slot_id) (dispatch_spdu calls slot_id bytes)
        (push (malformed_data slot_id)) (dispatch_spdu-Keeps slot_id bytes)
        (Keeps-push (malformed_data slot_id))
  dispatch_recv-Keeps accept_spdu (status slot_id) = λ s v. v
  dispatch_recv-Keeps accept_spdu (malformed slot_id) = λ s v. v

  handle_recv-Keeps :
      (accept_spdu : ℕ → Bool) (recv : Option TransportRecv)
      → Keeps (handle_recv calls accept_spdu recv)
  unfolding handle_recv
  handle_recv-Keeps accept_spdu none = λ s v. v
  handle_recv-Keeps accept_spdu (some recv) =
      Keeps-bind (dispatch_recv calls accept_spdu recv)
        (λ _. on_transport (Transport.flush (recv_slot recv)) >> done (ok (some (recv_slot recv))))
        (dispatch_recv-Keeps accept_spdu recv)
        λ _.
          Keeps-after (Transport.flush (recv_slot recv)) (done (ok (some (recv_slot recv))))
            λ s v. v

  pub recv_filtered-Keeps : (accept_spdu : ℕ → Bool) → Keeps (recv_filtered calls accept_spdu)
  unfolding recv_filtered
  recv_filtered-Keeps accept_spdu =
      Keeps-bind (on_transport Transport.recv_apdu) (handle_recv calls accept_spdu)
        (Keeps-transport Transport.recv_apdu) (handle_recv-Keeps accept_spdu)

  drop_from-Keeps : (slot_id index n : ℕ) → Keeps (drop_from calls slot_id index n)
  unfolding drop_from
  drop_from-Keeps slot_id index zero s v = v
  drop_from-Keeps slot_id index (suc n) s v =
      Keeps-if (is_of slot_id (session_at s.sessions (suc index)))
        (free_session calls (u16 (suc index)) >>= λ _. drop_from calls slot_id (suc index) n)
        (drop_from calls slot_id (suc index) n) s
        (Keeps-bind (free_session calls (u16 (suc index)))
          (λ _. drop_from calls slot_id (suc index) n) (free_session-Keeps calls (u16 (suc index)))
          λ _. drop_from-Keeps slot_id (suc index) n)
        (drop_from-Keeps slot_id (suc index) n) v

  pub drop_slot-Keeps : (slot_id : ℕ) → Keeps (drop_slot calls slot_id)
  unfolding drop_slot
  drop_slot-Keeps slot_id s v =
      drop_from-Keeps slot_id 0 (length s.sessions)
        (record s { transport = clear_slot s.transport slot_id }) v

pub new-Pool :
    {R : Type 0} (E : Type 0) (transport : CiTransport) (registry : R)
    → Pool (new {R = R} {E = E} transport registry).sessions
unfolding new
new-Pool E transport registry = in_use-nil

pub next_event-Pool :
    {R E : Type 0} (s : CiSession R E) → Pool s.sessions → Pool (next_event s).0.sessions
unfolding next_event
next_event-Pool {R} {E} s v = go s.events
  where
    go : (events : List (CaEvent E)) → Pool (pop_event s events).0.sessions
    go [] = v
    go (event ∷ rest) = v
