-- ===== src/Ca/Controller.antt =====
-- src/ca/controller.rs: the slots of the controller, their statuses and their events.
mod State
mod Tests
pub mod Recover
pub mod Drive
pub mod Poll
pub mod Tick
pub mod Commands
pub mod Make
pub mod Kept
pub mod Tracked
pub mod Runs
pub use State.*
unfoldable pub use State.{for_each}
use libdvb.Prelude.{
  ℕ, zero, suc, ◌+◌, ◌-◌, Bool, true, false, not, ◌&&◌, ◌||◌, List, [], ◌∷◌, ◌++◌, Option, none,
  some, ◌==◌, ltb, leb, if◌then◌else◌, get_elem?, set, length, Result, ok, err, panic, Error, io,
  nix, invalid_property, invalid_data,
}
use libdvb.Ca.Pacer.{CaPmtPacer, Instant, Duration, checked_add, arm_application_info, arm_ca_info}
use libdvb.Ca.ResourceId.{base, application_information, conditional_access_support}
use libdvb.Ca.Transport.{is_busy, queue_len}
use libdvb.Ca.Session.{
  CaEvent, transport_ready, malformed_data, session_opened, session_refused, session_closed,
  reported,
}
use libdvb.Ca.Resource.Context.{ResourceEvent, application_info, ca_info}
use libdvb.Ca.Host.{app_info, has_ca_info}

-- The derived comparisons.
abbrev pub status_code : CaSlotStatus → ℕ
status_code absent = 0
status_code present = 1
status_code creating_tc = 2
status_code active = 3
status_code failed = 4

abbrev pub is_status : CaSlotStatus → CaSlotStatus → Bool
is_status a b = status_code a == status_code b

abbrev pub cam_code : CamStatus → ℕ
cam_code no_cam = 0
cam_code cam_application_info = 1
cam_code cam_ca_info = 2
cam_code cam_ready = 3

abbrev pub is_some {ℓ} : {A : Type ℓ} → Option A → Bool
is_some none = false
is_some (some a) = true

-- `get_or_insert`
abbrev pub or_insert : Option Instant → Instant → Option Instant
or_insert none now = some now
or_insert (some since) now = some since

-- A time that is reached, and one that is set and reached.
abbrev pub reached : Option Instant → Instant → Bool
reached none now = false
reached (some at_time) now = leb at_time now

abbrev pub none_or_reached : Option Instant → Instant → Bool
none_or_reached none now = true
none_or_reached (some at_time) now = leb at_time now

-- `now.saturating_duration_since(since) >= timeout`
abbrev pub expired : Option Instant → Duration → Instant → Bool
expired none timeout now = false
expired (some since) timeout now = leb timeout (now - since)

-- `deadline`
abbrev pub or_now : Option Instant → Instant → Instant
or_now none now = now
or_now (some later) now = later

abbrev pub deadline : Instant → Duration → Instant
deadline now duration = or_now (checked_add now duration) now

-- A change of a slot's other fields than the two statuses.
unfoldable pub update : ℕ → (ControllerSlot → ControllerSlot) → K (Unit {0})
update slot_id f = do slot ← slot_at slot_id; put_slot slot_id (f slot)

unfoldable pub set_slot_status : ℕ → CaSlotStatus → K (Unit {0})
set_slot_status slot_id new = do
  slot ← slot_at slot_id
  put_slot slot_id (record slot { status = new })
  (if is_status slot.status new
      then give (ok tt)
      else push (slot_status_changed slot_id slot.status new))

unfoldable pub set_cam_status : ℕ → CamStatus → K (Unit {0})
set_cam_status slot_id new = do
  slot ← slot_at slot_id
  put_slot slot_id (record slot { cam_status = new })
  (if cam_code slot.cam_status == cam_code new
      then give (ok tt)
      else push (cam_status_changed slot_id slot.cam_status new))

abbrev pub cleared : ControllerSlot → ControllerSlot
cleared slot = record slot {
  create_since = none;
  command_since = none;
  receive_pending = false;
  next_poll = none;
  retry_at = none;
}

unfoldable pub clear_slot_timers : ℕ → K (Unit {0})
clear_slot_timers slot_id = update slot_id cleared

-- `self.slots.get(..).is_some_and(|slot| slot.status == ..)`
abbrev pub has_status : Option ControllerSlot → CaSlotStatus → Bool
has_status none wanted = false
has_status (some slot) wanted = is_status slot.status wanted

abbrev pub slot_has : CiController → ℕ → CaSlotStatus → Bool
slot_has c slot_id wanted = has_status (get_elem? c.slots slot_id) wanted

-- The `match` on what is confirmed.
abbrev pub confirmed_status : (is_active has_info has_caids : Bool) → CamStatus
confirmed_status false has_info has_caids = no_cam
confirmed_status true false false = no_cam
confirmed_status true true false = cam_application_info
confirmed_status true false true = cam_ca_info
confirmed_status true true true = cam_ready

unfoldable pub recompute_cam_status : ℕ → K (Unit {0})
recompute_cam_status slot_id c =
    set_cam_status slot_id
      (confirmed_status (slot_has c slot_id active) (is_some (app_info c.session slot_id))
        (has_ca_info c.session slot_id))
      c

abbrev pub arm_info_at : Option Instant → CaPmtPacer → CaPmtPacer
arm_info_at none pacer = pacer
arm_info_at (some now) pacer = arm_application_info pacer now

abbrev pub arm_ca_at : List ℕ → Option Instant → CaPmtPacer → CaPmtPacer
arm_ca_at [] last_tick pacer = pacer
arm_ca_at (caid ∷ caids) none pacer = pacer
arm_ca_at (caid ∷ caids) (some now) pacer = arm_ca_info pacer now

abbrev pub connected : ControllerSlot → ControllerSlot
connected slot = record slot { create_since = none; command_since = none; next_poll = none }

transport_is_ready : ℕ → K (Unit {0})
transport_is_ready slot_id c =
    if slot_has c slot_id creating_tc
    then (do
      update slot_id connected
      set_slot_status slot_id active
      push (passed (transport_ready slot_id)))
        c
    else push (passed (malformed_data slot_id)) c

-- An event of the resources that is for an active slot only.
confirmed_event : ℕ → ResourceEvent → (CiController → CaPmtPacer) → K (Unit {0})
confirmed_event slot_id event armed c =
    if slot_has c slot_id active
    then (do
      modify (λ c. record c { pacer = armed c })
      recompute_cam_status slot_id
      push (passed (reported event)))
        c
    else push (passed (malformed_data slot_id)) c

handle_reported : ResourceEvent → K (Unit {0})
unfolding confirmed_event
handle_reported (application_info slot_id info) =
    confirmed_event slot_id (application_info slot_id info) λ c. arm_info_at c.last_tick c.pacer
handle_reported (ca_info slot_id session_id caids) =
    confirmed_event slot_id (ca_info slot_id session_id caids)
      λ c. arm_ca_at caids c.last_tick c.pacer
handle_reported event = push (passed (reported event))

-- A session of one of the two resources that the CAM status stands on.
abbrev pub confirms : ℕ → Bool
confirms resource_id =
    base resource_id == base application_information
    || base resource_id == base conditional_access_support

handle : CaEvent ResourceEvent → K (Unit {0})
unfolding transport_is_ready handle_reported
handle (transport_ready slot_id) = transport_is_ready slot_id
handle (reported event) = handle_reported event
handle (session_closed slot_id session_id resource_id) =
    if confirms resource_id
    then (do
      recompute_cam_status slot_id
      push (passed (session_closed slot_id session_id resource_id)))
    else push (passed (session_closed slot_id session_id resource_id))
handle event = push (passed event)

-- The loop on the events that are queued; a round takes the first, and none adds any.
collect : List (CaEvent ResourceEvent) → K (Unit {0})
unfolding handle
collect [] = give (ok tt)
collect (event ∷ rest) = do
  modify (λ c. record c { session = record c.session { events = rest } })
  handle event
  collect rest

pub collect_session_events : K (Unit {0})
unfolding collect
collect_session_events c = collect c.session.events c

-- The guards of the `match` on the status.
abbrev pub marked_as : CaSlotStatus → Bool → Bool → Instant → ControllerSlot → ControllerSlot
marked_as creating_tc busy queued now slot =
    if busy && not (is_some slot.create_since)
    then record slot { create_since = some now; command_since = none }
    else if queued
    then record slot { command_since = or_insert slot.command_since now }
    else slot
marked_as active busy queued now slot =
    if busy || queued
    then record slot { command_since = or_insert slot.command_since now }
    else slot
marked_as absent busy queued now slot = slot
marked_as present busy queued now slot = slot
marked_as failed busy queued now slot = slot

abbrev pub slot_busy : CiController → ℕ → Bool
slot_busy c slot_id = is_busy c.session.transport slot_id

abbrev pub slot_queued : CiController → ℕ → Bool
slot_queued c slot_id = not (queue_len c.session.transport slot_id == 0)

unfoldable pub mark_outstanding : ℕ → Instant → K (Unit {0})
mark_outstanding slot_id now c =
    update slot_id
      (λ slot. marked_as slot.status (slot_busy c slot_id) (slot_queued c slot_id) now slot) c

-- A write error of the link, or the text that it gives to a short write.
abbrev pub is_link_error : CiController → Error → Bool
is_link_error c (io kind) = true
is_link_error c nix = true
is_link_error c invalid_data = c.control.is_short_write c.session
is_link_error c invalid_property = false
