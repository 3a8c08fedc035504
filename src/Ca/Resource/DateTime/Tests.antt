-- ===== src/Ca/Resource/DateTime/Tests.antt =====
-- The theorems on the time at a date and at a tick.
use libdvb.Prelude.{
  true, false, ◌≡◌, ◌+◌, arith, refl, [], ◌∷◌, ok, none, some, All, IsByte, length,
}
use libdvb.Ca.Device.{CaDevice, wrote, got}
use mathlib.Core.List.{map}
use libdvb.Ca.Transport.{CiTransport, send_apdu}
use libdvb.Ca.Transport.Fragments.{send_apdu_busy}
use libdvb.Ca.Apdu.Tags.{date_time_tag}
use libdvb.Ca.Resource.DateTime.{
  DateTimeResource, date_time_body, tick_sessions, tick_one, after_send, on_tick,
}
use libdvb.Ca.Resource.DateTime.Clock.{read_time, read_time-date_time_body}
use libdvb.Ca.Resource.DateTime.Objects.{Fresh, objects, send_all, restarted}
use libdvb.Ca.Resource.DateTime.Ticks.{on_tick-Fresh}

-- The 13th of October 1993, 12:45:00, the example of EN 300 468.
read_time-date_time_body_example :
    (read_time (date_time_body 750516300) ≡ some 750516300) × All IsByte (date_time_body 750516300)
read_time-date_time_body_example = read_time-date_time_body 750516300 (omega arith)

abbrev link : CaDevice
link = record {
  on_write = λ n msg. wrote (length msg);
  on_read = λ n. got [];
  writes = 0;
  reads = 0;
  sent = [];
}

-- A slot that waits for an answer, so that objects are queued.
abbrev transport : CiTransport
transport = record {
  link = link;
  slots = record { busy = true; queue = []; rx_buffer = []; data_pending = false } ∷ [];
}

-- A session whose interval is over, one that has just been told, one whose first interval starts, and
-- one without updates.
abbrev resource : DateTimeResource
resource = record {
  sessions =
      (1, record { slot_id = 0; interval = 3; sent = some 1000000000 })
      ∷ (4, record { slot_id = 0; interval = 5; sent = some 1000000000 })
      ∷ (2, record { slot_id = 0; interval = 3; sent = none })
      ∷ (3, record { slot_id = 0; interval = 0; sent = none })
      ∷ [];
  clock = λ n. 750516300;
  readings = 2;
}

told_ok : (send_apdu 0 1 date_time_tag (date_time_body 750516300) transport).1 ≡ ok tt
unfolding date_time_body
told_ok =
    send_apdu_busy 0 1 date_time_tag (date_time_body 750516300) transport
      (record { busy = true; queue = []; rx_buffer = []; data_pending = false }) (omega arith)
      (omega arith) refl refl

ticked_ok : (on_tick 4000000000 resource transport).2 ≡ ok tt
unfolding on_tick tick_sessions tick_one after_send
ticked_ok = rw told_ok refl

on_tick-Fresh_example :
    (send_all (objects resource.clock 4000000000 resource.sessions 2) transport
      ≡ ((on_tick 4000000000 resource transport).1, ok tt))
    × ((on_tick 4000000000 resource transport).0.readings
        ≡ 2 + length (objects resource.clock 4000000000 resource.sessions 2))
    × ((on_tick 4000000000 resource transport).0.sessions
        ≡ map (restarted 4000000000) resource.sessions)
    × All (Fresh 4000000000) (on_tick 4000000000 resource transport).0.sessions
on_tick-Fresh_example = on_tick-Fresh 4000000000 resource transport ticked_ok
