-- ===== src/Ca/Controller/Commands.antt =====
-- src/ca/controller.rs: the state as seen from outside, and the commands.
pub mod Kept
use libdvb.Prelude.{
  ℕ, ◌+◌, Bool, true, false, not, List, [], ◌∷◌, Option, none, some, ◌==◌, ltb, if◌then◌else◌,
  bit_and, get_elem?, replicate, u8, length, Result, ok, err, panic, Error, invalid_property,
}
use libdvb.Ca.Capmt.{DescriptorRef, PmtSectionRef, Program}
use libdvb.Ca.Capmt
use libdvb.Ca.Pacer.{CaPmtPacer, Instant, Duration, push_set, push_remove}
use libdvb.Ca.Pacer
use libdvb.Ca.Resource.Context.{ApplicationInfo}
use libdvb.Ca.Host
use libdvb.Ca.Host.{HostSession, H}
use libdvb.Ca.Controller.{
  CaSlotStatus, active, CamStatus, CiControllerConfig, ControllerIo, ControllerSlot, new_slot,
  CiController, K, next_step, ◌>>=◌, ◌>>◌, give, attempt, modify, on_session, is_status,
  mark_outstanding,
}
use libdvb.Ca.Controller.Tick.{recover_link}

abbrev pub found_or_invalid : Option ControllerSlot → Result ControllerSlot
found_or_invalid none = err invalid_property
found_or_invalid (some slot) = ok slot

-- `self.slots.get(..).ok_or_else(..)?`
abbrev pub find_slot : ℕ → K ControllerSlot
find_slot slot_id c = (c, found_or_invalid (get_elem? c.slots slot_id))

unfoldable pub status_of : ℕ → K CaSlotStatus
status_of slot_id = do slot ← find_slot slot_id; give (ok slot.status)

unfoldable pub cam_status_of : ℕ → K CamStatus
cam_status_of slot_id = do slot ← find_slot slot_id; give (ok slot.cam_status)

unfoldable pub app_info : CiController → ℕ → Option ApplicationInfo
app_info c slot_id = Host.app_info c.session slot_id

unfoldable pub caids : ℕ → K (List ℕ)
caids slot_id = do status_of slot_id; λ c. (c, ok (Host.caids c.session slot_id))

unfoldable pub session_caids : ℕ → ℕ → K (Option (List ℕ))
session_caids slot_id session_id = do
  status_of slot_id
  λ c. (c, ok (Host.session_caids c.session slot_id session_id))

abbrev pub queue_program : Program → CiController → CiController
queue_program program c = record c { pacer = push_set c.pacer program }

-- `PmtSectionRef::try_from` and `CaDescriptorRef::TAG` of libmpegts.
module _ (try_from : List ℕ → Option PmtSectionRef) (ca_descriptor_tag : ℕ) where
  unfoldable pub set_program : (pmt_section : List ℕ) → K ℕ
  set_program pmt_section = do
    program ← give (Capmt.parse try_from ca_descriptor_tag pmt_section)
    modify (queue_program program)
    give (ok program.program_number)

unfoldable pub remove_program : ℕ → K (Unit {0})
remove_program number =
    if number == 0
    then give (err invalid_property)
    else modify (λ c. record c { pacer = push_remove c.pacer number })

unfoldable pub ca_pmt_ready : CiController → Bool
ca_pmt_ready c = Pacer.ready c.pacer

unfoldable pub set_ca_pmt_interval : Duration → CiController → CiController
set_ca_pmt_interval interval c = record c { pacer = Pacer.set_interval c.pacer interval }

unfoldable pub require_active : ℕ → K (Unit {0})
require_active slot_id = do
  status ← status_of slot_id
  (if is_status status active then give (ok tt) else give (err invalid_property))

mark_command : ℕ → Option Instant → K (Unit {0})
mark_command slot_id none = give (ok tt)
mark_command slot_id (some now) = mark_outstanding slot_id now

pub finish_slot_command : ℕ → Result (Unit {0}) → K (Unit {0})
unfolding mark_command
finish_slot_command slot_id (ok v) c = mark_command slot_id c.last_tick c
finish_slot_command slot_id (err e) c =
    (do recover_link (some slot_id) e c.last_tick; give (err e)) c
finish_slot_command slot_id panic c = (c, panic)

-- A command for a slot that must be active.
pub slot_command : ℕ → H (Unit {0}) → K (Unit {0})
slot_command slot_id call = do
  require_active slot_id
  r ← attempt (on_session call)
  finish_slot_command slot_id r

abbrev pub enter_menu : ℕ → K (Unit {0})
enter_menu slot_id = slot_command slot_id (Host.enter_menu slot_id)

abbrev pub mmi_menu_answer : ℕ → ℕ → ℕ → K (Unit {0})
mmi_menu_answer slot_id session_id choice =
    slot_command slot_id (Host.mmi_menu_answer slot_id session_id choice)

abbrev pub mmi_list_close : ℕ → ℕ → K (Unit {0})
mmi_list_close slot_id session_id = slot_command slot_id (Host.mmi_list_close slot_id session_id)

abbrev pub mmi_answer : ℕ → ℕ → Option (List ℕ) → K (Unit {0})
mmi_answer slot_id session_id answer =
    slot_command slot_id (Host.mmi_answer slot_id session_id answer)

abbrev pub mmi_close : ℕ → ℕ → K (Unit {0})
mmi_close slot_id session_id = slot_command slot_id (Host.mmi_close slot_id session_id)

abbrev pub ask_release : ℕ → K (Unit {0})
ask_release slot_id = slot_command slot_id (Host.ask_release slot_id)
