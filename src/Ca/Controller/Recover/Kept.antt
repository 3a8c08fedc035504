-- ===== src/Ca/Controller/Recover/Kept.antt =====
-- Recovery and reset keep what every change of the controller keeps.
use libdvb.Prelude.{ℕ, refl, true, false, Option, none, some, Result, ok, err, panic}
use libdvb.Ca.Pacer.{reset_gate}
use libdvb.Ca.Session.Dispatch.{drop_slot}
use libdvb.Ca.Resource.Registry.{registry_calls}
use libdvb.Ca.Controller.{
  CaSlotStatus, present, failed, no_cam, CaSlotFailure, reset_failed, CiController, slot_ids,
}
use libdvb.Ca.Controller.Kept.{
  Keeps, Closed, Keeps-bind, Keeps-then, Keeps-attempt, Keeps-give, Keeps-slot_at, Keeps-if,
  Keeps-reads, Keeps-for_each, Keeps-on_session, Keeps-modify, clear-Keeps,
  collect_session_events-Keeps,
}
use libdvb.Ca.Controller.Recover.{
  reset_io, drop_one, drop_all_slots, unready, after_reset, no_retry, reset_failed_on,
  mark_reset_failed, failed_unless_absent, announce, reset_result, recovered, recover_all,
  restarted, reset, suspended, retry_after, resumed,
}

module _ {P : CiController → Type 0} (closed : Closed P) where
  reset_io-Keeps : Keeps P reset_io
  unfolding reset_io
  reset_io-Keeps = record { kept = λ c p. closed.same c (reset_io c).0 refl refl p }

  drop_one-Keeps : (slot_id : ℕ) → Keeps P (drop_one slot_id)
  unfolding drop_one
  drop_one-Keeps slot_id =
      Keeps-then (Keeps-on_session closed (drop_slot registry_calls slot_id))
        (clear-Keeps closed slot_id)

  drop_all_slots-Keeps : Keeps P drop_all_slots
  unfolding drop_all_slots
  drop_all_slots-Keeps = Keeps-reads λ d.
      Keeps-then (Keeps-for_each (slot_ids d) drop_one-Keeps) (collect_session_events-Keeps closed)

  after_reset-Keeps :
      (status : CaSlotStatus) (retry_at : Option ℕ) (slot_id : ℕ)
      → Keeps P (after_reset status retry_at slot_id)
  unfolding after_reset
  after_reset-Keeps status retry_at slot_id =
      Keeps-then (closed.updated slot_id (unready retry_at) λ slot. (refl, refl)) (
        Keeps-then (closed.cam_set slot_id no_cam)
          (Keeps-bind Keeps-slot_at λ slot. closed.status_set slot_id _))

  reset_failed_on-Keeps : (slot_id : ℕ) → Keeps P (reset_failed_on slot_id)
  unfolding reset_failed_on
  reset_failed_on-Keeps slot_id = Keeps-bind Keeps-slot_at λ slot.
      Keeps-if _
        (Keeps-then (closed.updated slot_id no_retry λ slot. (refl, refl)) (
          Keeps-then (closed.failure_told slot_id reset_failed) (closed.status_set slot_id failed)))
        Keeps-give

  mark_reset_failed-Keeps : Keeps P mark_reset_failed
  unfolding mark_reset_failed
  mark_reset_failed-Keeps = Keeps-reads λ d. Keeps-for_each (slot_ids d) reset_failed_on-Keeps

  failed_unless_absent-Keeps :
      (reason : CaSlotFailure) (slot_id : ℕ) → Keeps P (failed_unless_absent reason slot_id)
  unfolding failed_unless_absent
  failed_unless_absent-Keeps reason slot_id =
      Keeps-bind Keeps-slot_at λ slot. Keeps-if _ Keeps-give (closed.failure_told slot_id reason)

  announce-Keeps :
      (failed_slot : Option ℕ) (reason : CaSlotFailure) → Keeps P (announce failed_slot reason)
  unfolding announce
  announce-Keeps none reason =
      Keeps-reads λ d. Keeps-for_each (slot_ids d) (failed_unless_absent-Keeps reason)
  announce-Keeps (some slot_id) reason = closed.failure_told slot_id reason

  reset_result-Keeps : (r : Result (Unit {0})) → Keeps P (reset_result r)
  unfolding reset_result
  reset_result-Keeps (ok v) = Keeps-give
  reset_result-Keeps (err e) = Keeps-then mark_reset_failed-Keeps Keeps-give
  reset_result-Keeps panic = Keeps-give

  recovered-Keeps : (retry_at : ℕ) (r : Result (Unit {0})) → Keeps P (recovered retry_at r)
  unfolding recovered
  recovered-Keeps retry_at r = Keeps-reads λ d.
      Keeps-then (Keeps-modify closed (suspended (retry_after r retry_at)) λ c. (refl, refl)) (
        Keeps-then (Keeps-for_each (slot_ids d) (after_reset-Keeps failed (retry_after r retry_at)))
          (Keeps-then
            (Keeps-modify closed (λ c. record c { next_status_check = c.recovery_at })
              λ c. (refl, refl))
            (reset_result-Keeps r)))

  pub recover_all-Keeps :
      (failed_slot : Option ℕ) (reason : CaSlotFailure) (now : ℕ)
      → Keeps P (recover_all failed_slot reason now)
  unfolding recover_all
  recover_all-Keeps failed_slot reason now = Keeps-reads λ d.
      Keeps-then (announce-Keeps failed_slot reason) (
        Keeps-then drop_all_slots-Keeps (
          Keeps-then
            (Keeps-modify closed (λ c. record c { pacer = reset_gate c.pacer }) λ c. (refl, refl))
            (Keeps-bind (Keeps-attempt reset_io-Keeps) λ r. recovered-Keeps _ r)))

  restarted-Keeps : (r : Result (Unit {0})) → Keeps P (restarted r)
  unfolding restarted
  restarted-Keeps (ok v) = Keeps-reads λ d.
      Keeps-then (Keeps-for_each (slot_ids d) (after_reset-Keeps present none))
        (Keeps-modify closed resumed λ c. (refl, refl))
  restarted-Keeps (err e) =
      Keeps-then
        (Keeps-modify closed (λ c. record c { link_suspended = true; recovery_at = none })
          λ c. (refl, refl))
        (Keeps-then mark_reset_failed-Keeps Keeps-give)
  restarted-Keeps panic = Keeps-give

  pub reset-Keeps : Keeps P reset
  unfolding reset
  reset-Keeps = Keeps-then (collect_session_events-Keeps closed) (
      Keeps-then drop_all_slots-Keeps (
        Keeps-then
          (Keeps-modify closed
            (λ c. record c { pacer = reset_gate c.pacer; deferred_link_failure = false })
            λ c. (refl, refl))
          (Keeps-bind (Keeps-attempt reset_io-Keeps) restarted-Keeps)))
