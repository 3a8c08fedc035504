-- ===== src/Ca/Controller/Poll/Kept.antt =====
-- Reading frames keeps what every change of the controller keeps; the loop and `poll_event` also keep
-- it if taking the first event does.
use libdvb.Prelude.{ℕ, arith, refl, true, ◌&&◌, Option, none, some, Result, Error, ok, err, panic}
use libdvb.Ca.Session.Dispatch.{recv_filtered}
use libdvb.Ca.Resource.Registry.{registry_calls}
use libdvb.Ca.Controller.{
  link_failed, CiController, ◌>>◌, give, attempt, slot_has, active, is_status, mark_outstanding,
}
use libdvb.Ca.Controller.Recover.{recover_all}
use libdvb.Ca.Controller.Recover.Kept.{recover_all-Keeps}
use libdvb.Ca.Controller.Drive.Kept.{flush_receive_pending-Keeps}
use libdvb.Ca.Controller.Kept.{
  Keeps, Closed, Keeps-bind, Keeps-then, Keeps-attempt, Keeps-give, Keeps-slot_at, Keeps-if,
  Keeps-reads, Keeps-on_session, Keeps-modify, mark-Keeps, collect_session_events-Keeps,
}
use libdvb.Ca.Controller.Poll.{
  take_pending, command_answered, receive_wanted, read_failed, receive, settle, frame_received,
}

module _ {P : CiController → Type 0} (closed : Closed P) where
  read_failed-Keeps : (e : Error) (last_tick : Option ℕ) → Keeps P (read_failed e last_tick)
  unfolding read_failed
  read_failed-Keeps e (some now) =
      Keeps-then (Keeps-attempt (recover_all-Keeps closed none link_failed now)) Keeps-give
  read_failed-Keeps e none =
      Keeps-then
        (Keeps-modify closed (λ c. record c { deferred_link_failure = true }) λ c. (refl, refl))
        Keeps-give

  received-Keeps :
      (r : Result (Option ℕ))
      → Keeps P (elim r [
        | ok received ↦ give (ok received)
        | err e ↦ λ c. read_failed e c.last_tick c
        | panic ↦ give panic
      ])
  received-Keeps (ok received) = Keeps-give
  received-Keeps (err e) = Keeps-reads λ d. read_failed-Keeps e d.last_tick
  received-Keeps panic = Keeps-give

  pub receive-Keeps : Keeps P receive
  unfolding receive
  receive-Keeps = Keeps-reads λ d.
      Keeps-bind
        (Keeps-attempt (
          Keeps-on_session closed
            (recv_filtered registry_calls λ slot_id. slot_has d slot_id active)))
        received-Keeps

  settle-Keeps : (slot_id : ℕ) (last_tick : Option ℕ) → Keeps P (settle slot_id last_tick)
  unfolding settle
  settle-Keeps slot_id none = Keeps-give
  settle-Keeps slot_id (some now) =
      Keeps-bind (Keeps-attempt (flush_receive_pending-Keeps closed slot_id now)) settled
    where
      settled :
          (r : Result (Unit {0}))
          → Keeps P (elim r [
            | ok v ↦ mark_outstanding slot_id now
            | err e ↦ attempt (recover_all (some slot_id) link_failed now) >> give (err e)
            | panic ↦ give panic
          ])
      settled (ok v) = mark-Keeps closed slot_id now
      settled (err e) =
          Keeps-then (Keeps-attempt (recover_all-Keeps closed (some slot_id) link_failed now))
            Keeps-give
      settled panic = Keeps-give

  pub frame_received-Keeps : (slot_id : ℕ) → Keeps P (frame_received slot_id)
  unfolding frame_received
  frame_received-Keeps slot_id =
      Keeps-then (closed.updated slot_id command_answered λ slot. (ground arith, ground arith)) (
        Keeps-bind {m = take_pending slot_id}
          (record { kept = λ c p. closed.same c (take_pending slot_id c).0 refl refl p })
          λ data_pending. Keeps-then (collect_session_events-Keeps closed) (
            Keeps-bind (Keeps-slot_at {slot_id = slot_id}) λ slot.
              Keeps-then
                (Keeps-if (data_pending && is_status slot.status active)
                  (closed.updated slot_id receive_wanted λ slot. (refl, refl))
                  (Keeps-give {r = ok tt}))
                (Keeps-reads λ d. settle-Keeps slot_id d.last_tick)))
