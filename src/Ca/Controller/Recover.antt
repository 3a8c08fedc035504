-- ===== src/Ca/Controller/Recover.antt =====
-- src/ca/controller.rs: recovery and reset, which drop every slot.
pub mod Kept
use libdvb.Prelude.{
  ℕ, suc, Bool, true, false, List, [], ◌∷◌, Option, none, some, if◌then◌else◌, not, Result, ok, err,
  panic, Error, length,
}
use libdvb.Ca.Pacer.{Instant, reset_gate}
use libdvb.Ca.Session.Dispatch.{drop_slot}
use libdvb.Ca.Resource.Registry.{registry_calls}
use libdvb.Ca.Controller.{
  CaSlotStatus, absent, present, failed, CamStatus, no_cam, CaSlotFailure, reset_failed,
  ControllerSlot, ControlEvent, slot_failed, CiController, K, next_step, ◌>>=◌, ◌>>◌, give, attempt,
  modify, slot_at, push, on_session, slot_ids, for_each, update, set_slot_status, set_cam_status,
  clear_slot_timers, collect_session_events, deadline, is_status,
}

-- `self.io.reset(..)`
unfoldable pub reset_io : K (Unit {0})
reset_io c = (
  record c { control = record c.control { calls = suc c.control.calls } },
  c.control.on_reset c.control.calls,
)

drop_one : ℕ → K (Unit {0})
drop_one slot_id = do on_session (drop_slot registry_calls slot_id); clear_slot_timers slot_id

pub drop_all_slots : K (Unit {0})
unfolding drop_one
drop_all_slots c = (do for_each (slot_ids c) drop_one; collect_session_events) c

abbrev pub unready : Option Instant → ControllerSlot → ControllerSlot
unready retry_at slot = record slot { is_ready = false; retry_at = retry_at }

abbrev pub status_if : Bool → CaSlotStatus → CaSlotStatus
status_if true status = status
status_if false status = absent

-- The body of the loop that follows a reset: in `recover_all` a module that is there has `failed`, in
-- `reset` it is `present`.
after_reset : CaSlotStatus → Option Instant → ℕ → K (Unit {0})
after_reset status retry_at slot_id = do
  update slot_id (unready retry_at)
  set_cam_status slot_id no_cam
  slot ← slot_at slot_id
  set_slot_status slot_id (status_if slot.is_present status)

abbrev pub no_retry : ControllerSlot → ControllerSlot
no_retry slot = record slot { retry_at = none }

reset_failed_on : ℕ → K (Unit {0})
reset_failed_on slot_id = do
  slot ← slot_at slot_id
  (if slot.is_present
      then (do
        update slot_id no_retry
        push (slot_failed slot_id reset_failed)
        set_slot_status slot_id failed)
      else give (ok tt))

pub mark_reset_failed : K (Unit {0})
unfolding reset_failed_on
mark_reset_failed c = for_each (slot_ids c) reset_failed_on c

-- The events that say what has failed.
failed_unless_absent : CaSlotFailure → ℕ → K (Unit {0})
failed_unless_absent reason slot_id = do
  slot ← slot_at slot_id
  (if is_status slot.status absent then give (ok tt) else push (slot_failed slot_id reason))

announce : Option ℕ → CaSlotFailure → K (Unit {0})
unfolding failed_unless_absent
announce none reason c = for_each (slot_ids c) (failed_unless_absent reason) c
announce (some slot_id) reason c = push (slot_failed slot_id reason) c

abbrev pub retry_after : Result (Unit {0}) → Instant → Option Instant
retry_after (ok v) retry_at = some retry_at
retry_after (err e) retry_at = none
retry_after panic retry_at = none

abbrev pub suspended : Option Instant → CiController → CiController
suspended recovery_at c = record c {
  link_suspended = true;
  recovery_at = recovery_at;
  deferred_link_failure = false;
}

-- `if reset_result.is_err() { .. } reset_result`
reset_result : Result (Unit {0}) → K (Unit {0})
reset_result (ok v) = give (ok tt)
reset_result (err e) = do mark_reset_failed; give (err e)
reset_result panic = give panic

-- What follows the reset.
recovered : Instant → Result (Unit {0}) → K (Unit {0})
unfolding after_reset reset_result
recovered retry_at r c =
    let again = retry_after r retry_at in
    (do
      modify (suspended again)
      for_each (slot_ids c) (after_reset failed again)
      modify (λ c. record c { next_status_check = c.recovery_at })
      reset_result r)
      c

pub recover_all : Option ℕ → CaSlotFailure → Instant → K (Unit {0})
unfolding announce recovered
recover_all failed_slot reason now c =
    (do
      announce failed_slot reason
      drop_all_slots
      modify (λ c. record c { pacer = reset_gate c.pacer })
      r ← attempt reset_io
      recovered (deadline now c.config.retry_interval) r)
      c

abbrev pub resumed : CiController → CiController
resumed c = record c {
  next_status_check = none;
  link_suspended = false;
  recovery_at = none;
  deferred_link_failure = false;
}

-- The `match` on the result of the reset.
restarted : Result (Unit {0}) → K (Unit {0})
unfolding after_reset
restarted (ok v) c = (do for_each (slot_ids c) (after_reset present none); modify resumed) c
restarted (err e) c =
    (do
      modify (λ c. record c { link_suspended = true; recovery_at = none })
      mark_reset_failed
      give (err e))
      c
restarted panic c = (c, panic)

pub reset : K (Unit {0})
unfolding restarted
reset = do
  collect_session_events
  drop_all_slots
  modify (λ c. record c { pacer = reset_gate c.pacer; deferred_link_failure = false })
  r ← attempt reset_io
  restarted r
