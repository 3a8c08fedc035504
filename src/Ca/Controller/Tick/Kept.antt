-- ===== src/Ca/Controller/Tick/Kept.antt =====
-- A tick keeps what every change of the controller keeps.
use libdvb.Prelude.{
  ℕ, refl, false, List, [], ◌∷◌, Option, none, some, Result, Error, ok, err, panic,
}
use libdvb.Ca.Pacer.{CaPmtChange, poll}
use libdvb.Ca.Host.{tick_at}
use libdvb.Ca.Controller.{
  CaSlotFailure, link_failed, CiController, ◌>>◌, give, attempt, slot_ids, deadline,
}
use libdvb.Ca.Controller.Recover.Kept.{recover_all-Keeps}
use libdvb.Ca.Controller.Drive.Kept.{drive_slot-Keeps, refresh_slot_info-Keeps}
use libdvb.Ca.Controller.Recover.{recover_all}
use libdvb.Ca.Controller.Kept.{
  Keeps, Closed, Keeps-bind, Keeps-then, Keeps-attempt, Keeps-give, Keeps-test, Keeps-reads,
  Keeps-for_each, Keeps-on_session, Keeps-modify, mark-Keeps, collect_session_events-Keeps,
}
use libdvb.Ca.Controller.Tick.{
  recover_link, mark_touched, finish_program_command, change_program, apply_change, put_polled,
  dispatch_ca_pmt, drive_all, refresh_when_due, tick_resources, tick_link, unsuspended,
  tick_checked, tick,
}

module _ {P : CiController → Type 0} (closed : Closed P) where
  pub recover_link-Keeps :
      (failed_slot : Option ℕ) (e : Error) (last_tick : Option ℕ)
      → Keeps P (recover_link failed_slot e last_tick)
  unfolding recover_link
  recover_link-Keeps failed_slot e none = Keeps-give
  recover_link-Keeps failed_slot e (some now) =
      Keeps-test _
        (Keeps-then (Keeps-attempt (recover_all-Keeps closed failed_slot link_failed now))
          Keeps-give)
        Keeps-give

  mark_touched-Keeps :
      (slots : List ℕ) (last_tick : Option ℕ) → Keeps P (mark_touched slots last_tick)
  unfolding mark_touched
  mark_touched-Keeps slots none = Keeps-give
  mark_touched-Keeps slots (some now) =
      Keeps-for_each slots λ slot_id. mark-Keeps closed slot_id now

  finish_program_command-Keeps : (r : Result (List ℕ)) → Keeps P (finish_program_command r)
  unfolding finish_program_command
  finish_program_command-Keeps (ok slots) = Keeps-reads λ d. mark_touched-Keeps slots d.last_tick
  finish_program_command-Keeps (err e) =
      Keeps-reads λ d. Keeps-then (recover_link-Keeps none e d.last_tick) Keeps-give
  finish_program_command-Keeps panic = Keeps-give

  apply_change-Keeps : (change : Option CaPmtChange) → Keeps P (apply_change change)
  unfolding apply_change
  apply_change-Keeps none = Keeps-give
  apply_change-Keeps (some change) =
      Keeps-bind (Keeps-attempt (Keeps-on_session closed (change_program change)))
        finish_program_command-Keeps

  dispatch_ca_pmt-Keeps : (now : ℕ) → Keeps P (dispatch_ca_pmt now)
  unfolding dispatch_ca_pmt
  dispatch_ca_pmt-Keeps now =
      Keeps-bind {m = λ c. put_polled c (poll c.pacer now)}
        (record { kept = λ c p. closed.same c (put_polled c (poll c.pacer now)).0 refl refl p })
        apply_change-Keeps

  drive_all-Keeps : (ids : List ℕ) (now : ℕ) → Keeps P (drive_all ids now)
  unfolding drive_all
  drive_all-Keeps [] now = Keeps-give
  drive_all-Keeps (slot_id ∷ rest) now =
      Keeps-bind (Keeps-attempt (drive_slot-Keeps closed slot_id now))
        (driven (drive_all-Keeps rest now))
    where
      driven :
          Keeps P (drive_all rest now)
          → (r : Result (Option CaSlotFailure))
          → Keeps P (elim r [
            | ok reason ↦ elim reason [
              | none ↦ drive_all rest now
              | some why ↦ recover_all (some slot_id) why now
            ]
            | err e ↦ attempt (recover_all (some slot_id) link_failed now) >> give (err e)
            | panic ↦ give panic
          ])
      driven h (ok none) = h
      driven h (ok (some why)) = recover_all-Keeps closed (some slot_id) why now
      driven h (err e) =
          Keeps-then (Keeps-attempt (recover_all-Keeps closed (some slot_id) link_failed now))
            Keeps-give
      driven h panic = Keeps-give

  refresh_when_due-Keeps : (now : ℕ) → Keeps P (refresh_when_due now)
  unfolding refresh_when_due
  refresh_when_due-Keeps now =
      Keeps-test _
        (Keeps-then (refresh_slot_info-Keeps closed now) (
          Keeps-modify closed
            (λ c. record c {
              next_status_check = some (deadline now c.config.slot_status_interval);
            })
            λ c. (refl, refl)))
        Keeps-give

  tick_resources-Keeps : (now : ℕ) → Keeps P (tick_resources now)
  unfolding tick_resources
  tick_resources-Keeps now =
      Keeps-bind (Keeps-attempt (Keeps-on_session closed (tick_at now))) ticked
    where
      ticked :
          (r : Result (Unit {0}))
          → Keeps P (elim r [
            | ok v ↦ give (ok tt)
            | err e ↦ recover_link none e (some now) >> give (err e)
            | panic ↦ give panic
          ])
      ticked (ok v) = Keeps-give
      ticked (err e) = Keeps-then (recover_link-Keeps none e (some now)) Keeps-give
      ticked panic = Keeps-give

  tick_link-Keeps : (now : ℕ) → Keeps P (tick_link now)
  unfolding tick_link
  tick_link-Keeps now = Keeps-then (refresh_when_due-Keeps now) (
      Keeps-then (tick_resources-Keeps now) (
        Keeps-then (Keeps-reads λ d. drive_all-Keeps (slot_ids d) now)
          (Keeps-then (collect_session_events-Keeps closed) (dispatch_ca_pmt-Keeps now))))

  tick_checked-Keeps : (now : ℕ) → Keeps P (tick_checked now)
  unfolding tick_checked
  tick_checked-Keeps now =
      Keeps-test _
        (Keeps-then
          (Keeps-modify closed (λ c. record c { deferred_link_failure = false }) λ c. (refl, refl))
          (recover_all-Keeps closed none link_failed now))
        (Keeps-test _ (tick_link-Keeps now) (
          Keeps-test _
            (Keeps-then (Keeps-modify closed unsuspended λ c. (refl, refl)) (tick_link-Keeps now))
            Keeps-give))

  pub tick-Keeps : (now : ℕ) → Keeps P (tick now)
  unfolding tick
  tick-Keeps now =
      Keeps-then (Keeps-modify closed (λ c. record c { last_tick = some now }) λ c. (refl, refl))
        (Keeps-then (collect_session_events-Keeps closed) (tick_checked-Keeps now))
