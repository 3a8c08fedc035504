-- ===== src/Ca/Controller/State.antt =====
-- src/ca/controller.rs: the state of the controller, and calls that may fail. The control plane,
-- `ControllerIo`, is a parameter: what CA_RESET and CA_GET_SLOT_INFO answer, call by call.
use libdvb.Prelude.{
  ℕ, zero, suc, Bool, false, List, [], ◌∷◌, ◌++◌, Option, none, some, get_elem?, set, u8, length,
  Result, ok, err, panic,
}
use libdvb.Ca.Pacer.{CaPmtPacer, Instant, Duration}
use libdvb.Ca.Session.{CaEvent}
use libdvb.Ca.Resource.Context.{ResourceEvent}
use libdvb.Ca.Host.{HostSession, H}

pub data CaSlotStatus : Type 0 where
  absent present creating_tc active failed : CaSlotStatus

pub data CamStatus : Type 0 where
  no_cam cam_application_info cam_ca_info cam_ready : CamStatus

pub data CaSlotFailure : Type 0 where
  unsupported_interface : (slot_type : ℕ) → CaSlotFailure
  create_tc_timed_out response_timed_out write_timed_out : CaSlotFailure
  slot_info_failed link_failed reset_failed : CaSlotFailure

pub record CiControllerConfig : Type 0 where
  pub slot_status_interval : Duration
  pub transport_poll_interval : Duration
  pub create_tc_timeout : Duration
  pub response_timeout : Duration
  pub retry_interval : Duration
  pub ca_pmt_interval : Duration
  pub ca_pmt_settle : Duration

-- `CiControllerConfig::default`, in nanoseconds.
abbrev pub default_config : CiControllerConfig
default_config = record {
  slot_status_interval = 250000000;
  transport_poll_interval = 100000000;
  create_tc_timeout = 2000000000;
  response_timeout = 2000000000;
  retry_interval = 1000000000;
  ca_pmt_interval = 20000000000;
  ca_pmt_settle = 10000000000;
}

pub record ControllerSlot : Type 0 where
  pub status : CaSlotStatus
  pub cam_status : CamStatus
  pub is_present : Bool
  pub is_ready : Bool
  pub create_since : Option Instant
  pub command_since : Option Instant
  pub receive_pending : Bool
  pub next_poll : Option Instant
  pub retry_at : Option Instant

abbrev pub new_slot : ControllerSlot
new_slot = record {
  status = absent;
  cam_status = no_cam;
  is_present = false;
  is_ready = false;
  create_since = none;
  command_since = none;
  receive_pending = false;
  next_poll = none;
  retry_at = none;
}

-- The events of `CaEvent` that are the controller's own; the others come from the session layer.
pub data ControlEvent : Type 0 where
  slot_status_changed : (slot_id : ℕ) (old new : CaSlotStatus) → ControlEvent
  cam_status_changed : (slot_id : ℕ) (old new : CamStatus) → ControlEvent
  slot_failed : (slot_id : ℕ) (reason : CaSlotFailure) → ControlEvent
  passed : (event : CaEvent ResourceEvent) → ControlEvent

-- The fields of `CaSlotInfo` that are read.
pub record CaSlotInfo : Type 0 where
  pub slot_type : ℕ
  pub flags : ℕ

-- `on_reset n` and `on_slot_info n slot_id` answer the call after `n` others. An error of the link is
-- told from other invalid data by its text, which is left out: `is_short_write` says of a session
-- layer that has just returned `InvalidData` whether the text was that of a short write.
pub record ControllerIo : Type 0 where
  pub on_reset : ℕ → Result (Unit {0})
  pub on_slot_info : ℕ → ℕ → Result CaSlotInfo
  pub is_short_write : HostSession → Bool
  pub calls : ℕ

pub record CiController : Type 0 where
  pub session : HostSession
  pub slots : List ControllerSlot
  pub events : List ControlEvent
  pub config : CiControllerConfig
  pub pacer : CaPmtPacer
  pub control : ControllerIo
  pub next_status_check : Option Instant
  pub last_tick : Option Instant
  pub link_suspended : Bool
  pub recovery_at : Option Instant
  pub deferred_link_failure : Bool

abbrev pub K : Type 0 → Type 0
K A = CiController → CiController × Result A

abbrev pub next_step :
    {A B : Type 0} → CiController × Result A → (A → K B) → CiController × Result B
next_step (c, ok a) f = f a c
next_step (c, err e) f = (c, err e)
next_step (c, panic) f = (c, panic)

infixl 5 ◌>>=◌ ◌>>◌
abbrev pub ◌>>=◌ : {A B : Type 0} → K A → (A → K B) → K B
◌>>=◌ m f c = next_step (m c) f

abbrev pub ◌>>◌ : {A B : Type 0} → K A → K B → K B
m >> k = m >>= λ _. k

abbrev pub give : {A : Type 0} → Result A → K A
give r c = (c, r)

-- What a call did, its error included.
abbrev pub attempted : {A : Type 0} → CiController × Result A → CiController × Result (Result A)
attempted (c, ok a) = (c, ok (ok a))
attempted (c, err e) = (c, ok (err e))
attempted (c, panic) = (c, panic)

abbrev pub attempt : {A : Type 0} → K A → K (Result A)
attempt m c = attempted (m c)

-- A call that changes the state and returns nothing.
abbrev pub modify : (CiController → CiController) → K (Unit {0})
modify f c = (f c, ok tt)

abbrev pub slot_or_panic : Option ControllerSlot → Result ControllerSlot
slot_or_panic none = panic
slot_or_panic (some slot) = ok slot

-- `self.slots[usize::from(slot_id)]`
abbrev pub slot_at : ℕ → K ControllerSlot
slot_at slot_id c = (c, slot_or_panic (get_elem? c.slots slot_id))

-- A write to fields of a slot that are neither status.
abbrev pub put_slot : ℕ → ControllerSlot → K (Unit {0})
put_slot slot_id slot = modify (λ c. record c { slots = set c.slots slot_id slot })

-- `self.events.push_back(event)`
abbrev pub push : ControlEvent → K (Unit {0})
push event = modify (λ c. record c { events = c.events ++ (event ∷ []) })

abbrev pub put_session :
    {A : Type 0} → CiController → HostSession × Result A → CiController × Result A
put_session c (s, r) = (record c { session = s }, r)

-- A call of a method of `self.session`.
abbrev pub on_session : {A : Type 0} → H A → K A
on_session m c = put_session c (m c.session)

-- `for slot_id in 0 .. self.slots_num()`
abbrev pub range_from : ℕ → ℕ → List ℕ
range_from first zero = []
range_from first (suc n) = first ∷ range_from (suc first) n

abbrev pub slot_ids : CiController → List ℕ
slot_ids c = range_from 0 (u8 (length c.slots))

unfoldable pub for_each : List ℕ → (ℕ → K (Unit {0})) → K (Unit {0})
for_each [] body = give (ok tt)
for_each (slot_id ∷ rest) body = do body slot_id; for_each rest body
