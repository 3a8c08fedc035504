-- ===== src/Ca/Session/Tests.antt =====
-- The theorems on sessions at a module that opens sessions.
use libdvb.Prelude.{arith, ◌≡◌, true, false, List, [], ◌∷◌, ok, some, length}
use libdvb.Ca.Device.{CaDevice, wrote, got}
use libdvb.Ca.Tpdu.{data_last}
use libdvb.Ca.Transport.{CiTransport}
use libdvb.Ca.Transport
use libdvb.Ca.Transport.Reassembly.{wire}
use libdvb.Ca.Session.{Resources, CiSession, Called, active, in_use}
use libdvb.Ca.Session.Dispatch.{new, drop_slot}
use libdvb.Ca.Session.Dispatch.Drop.{drop_slot-clears}
use libdvb.Ca.Session.Table.{alloc_session}
use libdvb.Ca.Session.Table.Fresh.{Allocation, alloc_session-Allocated}
use libdvb.Ca.Session.Table.Pool.{Pool}
use libdvb.Ca.Session.Runs.{Call, receives, drops, takes_event, run, run-Pool}

-- Resources that do nothing.
abbrev called : Unit {0} → CiTransport → Called (Unit {0}) (Unit {0})
called registry transport = record {
  registry = registry;
  transport = transport;
  events = [];
  close_session = false;
  result = ok tt;
}

abbrev resources : Resources (Unit {0}) (Unit {0})
resources = record {
  on_open = λ resource_id slot_id session_id registry transport. called registry transport;
  on_apdu = λ resource_id slot_id session_id tag body registry transport. called registry transport;
  on_close = λ resource_id slot_id session_id registry. registry;
}

-- A link from which each read gives an open_session_request for the resource manager.
abbrev link : CaDevice
link = record {
  on_write = λ n msg. wrote (length msg);
  on_read = λ n. got (
      wire 0
        (record { tag = data_last; payload = 0x91 ∷ 4 ∷ 0 ∷ 1 ∷ 0 ∷ 0x41 ∷ []; status_byte = 0 }));
  writes = 0;
  reads = 0;
  sent = [];
}

abbrev calls : List (Call (Unit {0}))
calls = receives (λ slot_id. true) ∷ receives (λ slot_id. true) ∷ takes_event ∷ drops 0 ∷ []

run-Pool_example : Pool (run resources (new (Transport.new link 1) tt) calls).sessions
run-Pool_example = run-Pool resources (Transport.new link 1) tt calls

-- Two sessions of different slots, of which one is dropped.
abbrev two_sessions : CiSession (Unit {0}) (Unit {0})
two_sessions = record {
  transport = Transport.new link 2;
  resources = tt;
  sessions =
      some (record { slot_id = 0; resource_id = 0x00010041; state = active })
      ∷ some (record { slot_id = 1; resource_id = 0x00010041; state = active })
      ∷ [];
  events = [];
}

drop_slot-clears_example : in_use 1 (drop_slot resources 1 two_sessions).0.sessions ≡ 0
drop_slot-clears_example = drop_slot-clears resources 1 two_sessions (omega arith)

alloc_session-Allocated_example :
    Allocation two_sessions.sessions
      (record { slot_id = 0; resource_id = 0x00400041; state = active })
      2
      (alloc_session 0 0x00400041 two_sessions.sessions)
alloc_session-Allocated_example =
    alloc_session-Allocated 0 0x00400041 two_sessions.sessions 2 (omega arith)
