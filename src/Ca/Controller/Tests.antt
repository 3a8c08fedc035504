-- ===== src/Ca/Controller/Tests.antt =====
-- The theorem on the events of the controller at a module that is inserted and taken out.
use libdvb.Prelude.{List, [], ◌∷◌, ok, err, io, other_kind, length, false, ◌==◌, if◌then◌else◌}
use libdvb.Ca.Device.{CaDevice, wrote, read_failed}
use libdvb.Prelude.{would_block}
use libdvb.Ca.Transport
use libdvb.Ca.Session.Dispatch
use libdvb.Ca.Resource.Registry
use libdvb.Ca.Host.{HostSession}
use libdvb.Ca.Controller.{default_config, ControllerIo}
use libdvb.Ca.Controller.Tracked.{Tracks}
use libdvb.Ca.Controller.Runs.{ControllerCall, ticks, polls, resets, run, started, run-Tracks}

abbrev link : CaDevice
link = record {
  on_write = λ n msg. wrote (length msg);
  on_read = λ n. read_failed would_block;
  writes = 0;
  reads = 0;
  sent = [];
}

abbrev session : HostSession
session = Dispatch.new (Transport.new link 1) (Registry.new λ n. 0)

-- The module is there, and ready, until the third question.
abbrev control : ControllerIo
control = record {
  on_reset = λ n. if n == 4 then err (io other_kind) else ok tt;
  on_slot_info = λ n slot_id. ok (record { slot_type = 2; flags = if n == 2 then 0 else 3 });
  is_short_write = λ s. false;
  calls = 0;
}

abbrev calls : List ControllerCall
calls =
    ticks 0
    ∷ polls 3
    ∷ ticks 300000000
    ∷ ticks 600000000
    ∷ polls 3
    ∷ resets
    ∷ ticks 900000000
    ∷ ticks 5000000000
    ∷ polls 3
    ∷ []

run-Tracks_example :
    Tracks
      (run (started session default_config control) calls).0
      (run (started session default_config control) calls).1
run-Tracks_example = run-Tracks session default_config control calls
