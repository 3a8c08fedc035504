-- ===== src/Ca/Controller/Tick.antt =====
-- src/ca/controller.rs: the work of a tick.
pub mod Kept
use libdvb.Prelude.{
  ℕ, Bool, true, false, not, List, [], ◌∷◌, Option, none, some, if◌then◌else◌, Result, ok, err,
  panic, Error,
}
use libdvb.Ca.Pacer.{Instant, CaPmtPacer, CaPmtChange, select, remove, poll}
use libdvb.Ca.Host.{tick_at, set_program, remove_program, H}
use libdvb.Ca.Controller.{
  CaSlotFailure, link_failed, CiController, K, next_step, ◌>>=◌, ◌>>◌, give, attempt, modify,
  on_session, slot_ids, for_each, collect_session_events, deadline, none_or_reached, reached,
  mark_outstanding, is_link_error,
}
use libdvb.Ca.Controller.Recover.{recover_all}
use libdvb.Ca.Controller.Drive.{refresh_slot_info, drive_slot}

-- `let _ = self.recover_all(..)` where the error is one of the link and there is a time.
unfoldable pub recover_link : Option ℕ → Error → Option Instant → K (Unit {0})
recover_link failed_slot e none c = (c, ok tt)
recover_link failed_slot e (some now) c =
    if is_link_error c e
    then (do attempt (recover_all failed_slot link_failed now); give (ok tt)) c
    else (c, ok tt)

mark_touched : List ℕ → Option Instant → K (Unit {0})
mark_touched slots none = give (ok tt)
mark_touched slots (some now) = for_each slots λ slot_id. mark_outstanding slot_id now

pub finish_program_command : Result (List ℕ) → K (Unit {0})
unfolding mark_touched
finish_program_command (ok slots) c = mark_touched slots c.last_tick c
finish_program_command (err e) c = (do recover_link none e c.last_tick; give (err e)) c
finish_program_command panic c = (c, panic)

-- The `match` on the change.
abbrev pub change_program : CaPmtChange → H (List ℕ)
change_program (select program) = set_program program
change_program (remove number) = remove_program number

apply_change : Option CaPmtChange → K (Unit {0})
apply_change none = give (ok tt)
apply_change (some change) = do
  r ← attempt (on_session (change_program change))
  finish_program_command r

abbrev pub put_polled :
    CiController → CaPmtPacer × Option CaPmtChange → CiController × Result (Option CaPmtChange)
put_polled c (pacer, change) = (record c { pacer = pacer }, ok change)

-- At most one change a tick.
pub dispatch_ca_pmt : Instant → K (Unit {0})
unfolding apply_change
dispatch_ca_pmt now c = (do change ← λ c. put_polled c (poll c.pacer now); apply_change change) c

-- The loop over the slots; a slot that fails ends it.
drive_all : List ℕ → Instant → K (Unit {0})
drive_all [] now = give (ok tt)
drive_all (slot_id ∷ rest) now = do
  r ← attempt (drive_slot slot_id now)
  elim r [
    | ok reason ↦ elim reason [
      | none ↦ drive_all rest now
      | some why ↦ recover_all (some slot_id) why now
    ]
    | err e ↦ do attempt (recover_all (some slot_id) link_failed now); give (err e)
    | panic ↦ give panic
  ]

refresh_when_due : Instant → K (Unit {0})
refresh_when_due now c =
    if none_or_reached c.next_status_check now
    then (do
      refresh_slot_info now
      modify
          (λ c. record c { next_status_check = some (deadline now c.config.slot_status_interval) }))
        c
    else (c, ok tt)

tick_resources : Instant → K (Unit {0})
tick_resources now = do
  r ← attempt (on_session (tick_at now))
  elim r [
    | ok v ↦ give (ok tt)
    | err e ↦ do recover_link none e (some now); give (err e)
    | panic ↦ give panic
  ]

-- A tick on a link that is not suspended.
tick_link : Instant → K (Unit {0})
unfolding refresh_when_due tick_resources drive_all
tick_link now = do
  refresh_when_due now
  tick_resources now
  λ c. drive_all (slot_ids c) now c
  collect_session_events
  dispatch_ca_pmt now

abbrev pub unsuspended : CiController → CiController
unsuspended c = record c { link_suspended = false; recovery_at = none }

-- The first two tests, after the events are collected.
tick_checked : Instant → K (Unit {0})
unfolding tick_link
tick_checked now c =
    if c.deferred_link_failure
    then recover_all none link_failed now (record c { deferred_link_failure = false })
    else if not c.link_suspended
    then tick_link now c
    else if reached c.recovery_at now
    then tick_link now (unsuspended c)
    else (c, ok tt)

pub tick : Instant → K (Unit {0})
unfolding tick_checked
tick now = do
  modify (λ c. record c { last_tick = some now })
  collect_session_events
  tick_checked now
