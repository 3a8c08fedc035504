-- ===== src/Ca/Controller/Drive.antt =====
-- src/ca/controller.rs: the state machine of one slot, and the slot information of the kernel.
pub mod Kept
use libdvb.Prelude.{
  ℕ, suc, ◌%◌, ◌-◌, Bool, true, false, not, ◌&&◌, ◌||◌, List, [], ◌∷◌, ◌++◌, Option, none, some,
  ◌==◌, leb, if◌then◌else◌, bit_and, Result, ok, err, panic, Error,
}
use libdvb.Ca.Pacer.{Instant, Duration}
use libdvb.Ca.Tpdu.{rcv, create_tc, data_last}
use libdvb.Ca.Transport.{send_tpdu, flush}
use libdvb.Ca.Session.{on_transport}
use libdvb.Ca.Session.Dispatch.{drop_slot}
use libdvb.Ca.Resource.Registry.{registry_calls}
use libdvb.Ca.Controller.{
  CaSlotStatus, absent, present, creating_tc, active, failed, no_cam, CaSlotFailure,
  unsupported_interface, create_tc_timed_out, response_timed_out, write_timed_out, slot_info_failed,
  CaSlotInfo, ControllerSlot, slot_failed, CiController, K, next_step, ◌>>=◌, ◌>>◌, give, attempt,
  modify, slot_at, push, on_session, slot_ids, for_each, update, set_slot_status, set_cam_status,
  clear_slot_timers, collect_session_events, deadline, is_status, is_some, reached, none_or_reached,
  expired, or_insert, mark_outstanding, slot_busy, slot_queued,
}
use libdvb.Ca.Controller.Recover.{recover_all}

-- `send_tpdu` and `flush` of the transport.
abbrev pub send_frame : ℕ → ℕ → K (Unit {0})
send_frame slot_id tag = on_session (on_transport (send_tpdu slot_id tag []))

abbrev pub flush_slot : ℕ → K (Unit {0})
flush_slot slot_id = on_session (on_transport (flush slot_id))

abbrev pub receive_done : ControllerSlot → ControllerSlot
receive_done slot = record slot { receive_pending = false }

send_receive : ℕ → Instant → K (Unit {0})
send_receive slot_id now = do
  send_frame slot_id rcv
  update slot_id receive_done
  mark_outstanding slot_id now

pub flush_receive_pending : ℕ → Instant → K (Unit {0})
unfolding send_receive
flush_receive_pending slot_id now = do
  slot ← slot_at slot_id
  λ c.
      if not (is_status slot.status active)
        || not slot.receive_pending
        || slot_busy c slot_id
        || slot_queued c slot_id
      then (c, ok tt)
      else send_receive slot_id now c

-- `self.io.slot_info(..)`
abbrev pub slot_info : ℕ → K CaSlotInfo
slot_info slot_id c = (
  record c { control = record c.control { calls = suc c.control.calls } },
  c.control.on_slot_info c.control.calls slot_id,
)

-- The slot loses its connection and takes another status; `event` tells why, where there is a reason.
detach : ℕ → CaSlotStatus → K (Unit {0}) → K (Unit {0})
detach slot_id status event = do
  on_session (drop_slot registry_calls slot_id)
  collect_session_events
  clear_slot_timers slot_id
  event
  set_cam_status slot_id no_cam
  set_slot_status slot_id status

abbrev pub module_flags : Bool → Bool → ControllerSlot → ControllerSlot
module_flags is_present is_ready slot = record slot { is_present = is_present; is_ready = is_ready }

-- `CA_CI_LINK`, `CA_CI_MODULE_PRESENT` and `CA_CI_MODULE_READY`.
abbrev pub has_link : CaSlotInfo → Bool
has_link info = not (bit_and info.slot_type 2 == 0)

abbrev pub has_module : CaSlotInfo → Bool
has_module info = not (bit_and info.flags 3 == 0)

abbrev pub module_ready : CaSlotInfo → Bool
module_ready info = not (bit_and info.flags 2 == 0)

-- The `match` on the status of a slot with a module that has the link interface.
linked : ℕ → Bool → CaSlotStatus → K (Unit {0})
unfolding detach
linked slot_id ready absent = set_slot_status slot_id present
linked slot_id ready creating_tc =
    if ready then give (ok tt) else detach slot_id present (give (ok tt))
linked slot_id ready active = if ready then give (ok tt) else detach slot_id present (give (ok tt))
linked slot_id ready present = give (ok tt)
linked slot_id ready failed = give (ok tt)

-- The three parts of the function, by what the kernel tells.
slot_told : ℕ → CaSlotInfo → ControllerSlot → K (Unit {0})
unfolding linked
slot_told slot_id info slot =
    if not (has_module info)
    then (if is_status slot.status absent
        then give (ok tt)
        else detach slot_id absent (give (ok tt)))
    else if not (has_link info)
    then (if is_status slot.status failed && not (is_some slot.retry_at)
        then give (ok tt)
        else detach slot_id failed
            (push (slot_failed slot_id (unsupported_interface info.slot_type))))
    else linked slot_id (module_ready info) slot.status

pub apply_slot_info : ℕ → CaSlotInfo → K (Unit {0})
unfolding slot_told
apply_slot_info slot_id info = do
  update slot_id (module_flags (has_module info) (module_ready info))
  slot ← slot_at slot_id
  slot_told slot_id info slot

-- The first loop of `refresh_slot_info`: an error recovers, and is returned.
read_infos : List ℕ → Instant → K (List CaSlotInfo)
read_infos [] now = give (ok [])
read_infos (slot_id ∷ rest) now = do
  r ← attempt (slot_info slot_id)
  elim r [
    | ok info ↦ do infos ← read_infos rest now; give (ok (info ∷ infos))
    | err e ↦ do attempt (recover_all (some slot_id) slot_info_failed now); give (err e)
    | panic ↦ give panic
  ]

-- The second loop, over `enumerate`.
apply_infos : ℕ → List CaSlotInfo → K (Unit {0})
apply_infos slot_id [] = give (ok tt)
apply_infos slot_id (info ∷ rest) = do apply_slot_info slot_id info; apply_infos (suc slot_id) rest

pub refresh_slot_info : Instant → K (Unit {0})
unfolding read_infos apply_infos
refresh_slot_info now c = (do infos ← read_infos (slot_ids c) now; apply_infos 0 infos) c

-- The arms of the `match` on the status.
drive_present : ℕ → Instant → ControllerSlot → K (Option CaSlotFailure)
drive_present slot_id now slot =
    if slot.is_ready
    then (do
      send_frame slot_id create_tc
      update slot_id receive_done
      set_slot_status slot_id creating_tc
      mark_outstanding slot_id now
      give (ok none))
    else give (ok none)

creating_timeout : ControllerSlot → Duration → Duration → Instant → Option CaSlotFailure
creating_timeout slot response_timeout create_tc_timeout now =
    if not (is_some slot.create_since) && expired slot.command_since response_timeout now
    then some write_timed_out
    else if expired slot.create_since create_tc_timeout now
    then some create_tc_timed_out
    else none

drive_creating : ℕ → Instant → K (Option CaSlotFailure)
unfolding creating_timeout
drive_creating slot_id now = do
  flush_slot slot_id
  mark_outstanding slot_id now
  slot ← slot_at slot_id
  λ c. (c, ok (creating_timeout slot c.config.response_timeout c.config.create_tc_timeout now))

abbrev pub command_started : Instant → ControllerSlot → ControllerSlot
command_started now slot = record slot { command_since = or_insert slot.command_since now }

-- A frame is out, or waits to be written.
active_pending : ℕ → Instant → Bool → K (Option CaSlotFailure)
active_pending slot_id now busy = do
  update slot_id (command_started now)
  slot ← slot_at slot_id
  λ c. (
    c,
    ok (
        if expired slot.command_since c.config.response_timeout now
        then some (if busy then response_timed_out else write_timed_out)
        else none),
  )

abbrev pub no_command : ControllerSlot → ControllerSlot
no_command slot = record slot { command_since = none }

abbrev pub polled : Instant → Instant → ControllerSlot → ControllerSlot
polled now later slot = record slot { command_since = some now; next_poll = some later }

poll_slot : ℕ → Instant → K (Unit {0})
poll_slot slot_id now = do
  send_frame slot_id data_last
  λ c. update slot_id (polled now (deadline now c.config.transport_poll_interval)) c

active_idle : ℕ → Instant → K (Option CaSlotFailure)
unfolding poll_slot
active_idle slot_id now = do
  update slot_id no_command
  slot ← slot_at slot_id
  (if slot.receive_pending
      then flush_receive_pending slot_id now
      else if none_or_reached slot.next_poll now
      then poll_slot slot_id now
      else give (ok tt))
  give (ok none)

drive_active : ℕ → Instant → K (Option CaSlotFailure)
unfolding active_pending active_idle
drive_active slot_id now = do
  flush_slot slot_id
  λ c.
      (if slot_busy c slot_id || slot_queued c slot_id
          then active_pending slot_id now (slot_busy c slot_id)
          else active_idle slot_id now)
        c

drive_status : ℕ → Instant → ControllerSlot → CaSlotStatus → K (Option CaSlotFailure)
unfolding drive_present drive_creating drive_active
drive_status slot_id now slot absent = give (ok none)
drive_status slot_id now slot failed = give (ok none)
drive_status slot_id now slot present = drive_present slot_id now slot
drive_status slot_id now slot creating_tc = drive_creating slot_id now
drive_status slot_id now slot active = drive_active slot_id now

-- The first `if`: a failed slot whose time has come is tried again, and driven at once.
retry_failed : ℕ → Instant → ControllerSlot → K (Unit {0})
retry_failed slot_id now slot =
    if is_status slot.status failed && reached slot.retry_at now
    then (do update slot_id (λ s. record s { retry_at = none }); set_slot_status slot_id present)
    else give (ok tt)

pub drive_slot : ℕ → Instant → K (Option CaSlotFailure)
unfolding retry_failed drive_status
drive_slot slot_id now = do
  before ← slot_at slot_id
  retry_failed slot_id now before
  slot ← slot_at slot_id
  drive_status slot_id now slot slot.status
