-- ===== src/Ca/Controller/Make.antt =====
-- src/ca/controller.rs: making a controller.
use libdvb.Prelude.{
  ℕ, false, [], none, ◌==◌, ltb, if◌then◌else◌, bit_and, replicate, Result, ok, err, ◌>>=◌, ◌>>◌,
  invalid_property,
}
use libdvb.Ca.Device.{CaDevice}
use libdvb.Ca.Pacer
use libdvb.Ca.Transport
use libdvb.Ca.Session.Dispatch
use libdvb.Ca.Resource.Registry
use libdvb.Ca.Host.{HostSession}
use libdvb.Ca.Controller.{CiControllerConfig, ControllerIo, new_slot, CiController}

unfoldable pub from_parts : HostSession → CiControllerConfig → ControllerIo → CiController
from_parts session config control = record {
  session = session;
  slots = replicate (Transport.slots_num session.transport) new_slot;
  events = [];
  config = config;
  pacer = Pacer.new config.ca_pmt_interval config.ca_pmt_settle;
  control = control;
  next_status_check = none;
  last_tick = none;
  link_suspended = false;
  recovery_at = none;
  deferred_link_failure = false;
}

-- The fields of `CaCaps` that are read.
pub record CaCaps : Type 0 where
  pub slot_num : ℕ
  pub slot_type : ℕ

abbrev pub checked_caps : CaCaps → Result (Unit {0})
checked_caps caps =
    if caps.slot_num == 0
    then err invalid_property
    else if ltb 255 caps.slot_num
    then err invalid_property
    else if bit_and caps.slot_type 2 == 0
    then err invalid_property
    else ok tt

-- `caps` and `reset` are what the device answers, and `clock` the readings of the system clock.
pub with_config :
    CaDevice
    → (caps : Result CaCaps) → (reset : Result (Unit {0})) → (clock : ℕ → ℕ) → CiControllerConfig
    → ControllerIo
    → Result CiController
with_config device caps reset clock config control = do
  told ← caps
  checked_caps told
  reset
  ok (
      from_parts (Dispatch.new (Transport.new device told.slot_num) (Registry.new clock)) config
        control)
