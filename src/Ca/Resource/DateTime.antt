-- ===== src/Ca/Resource/DateTime.antt =====
-- src/ca/resource/date_time.rs: date and time. `clock` gives the readings of the system clock, in
-- seconds since 1970, in the order in which the code reads it. An `Instant` is a number of
-- nanoseconds.
pub mod Clock
pub mod Objects
pub mod Ticks
mod Tests
use libdvb.Prelude.{
  ℕ, zero, suc, ◌+◌, ◌-◌, ◌*◌, ◌/◌, ◌%◌, min, Bool, true, false, List, [], ◌∷◌, ◌++◌, Option, none,
  some, ◌==◌, ltb, if◌then◌else◌, u8, shl, shr, bit_or, Result, ok, err, panic,
}
use libdvb.Ca.Apdu.Tags.{date_time_enq_tag, date_time_tag}
use libdvb.Ca.Transport.{CiTransport, send_apdu}
use libdvb.Ca.Session.{Called}
use libdvb.Ca.Resource.Table.{Table, find, remove, insert}
use libdvb.Ca.Resource.Context.{ResourceEvent, reply, refuse}

abbrev pub mjd_unix_epoch : ℕ
mjd_unix_epoch = 40587

unfoldable pub bcd : ℕ → ℕ
bcd value = bit_or (u8 (shl (value / 10) 4)) (value % 10)

unfoldable pub date_time_body : (unix_time : ℕ) → List ℕ
date_time_body unix_time =
    let mjd = min (mjd_unix_epoch + unix_time / 86400) 65535 in
    let time = unix_time % 86400 in
    u8 (shr mjd 8)
    ∷ u8 mjd
    ∷ bcd (u8 (time / 3600))
    ∷ bcd (u8 (time / 60 % 60))
    ∷ bcd (u8 (time % 60))
    ∷ []

pub record DateTimeSession : Type 0 where
  pub slot_id : ℕ
  pub interval : ℕ
  pub sent : Option ℕ

pub record DateTimeResource : Type 0 where
  pub sessions : Table DateTimeSession
  pub clock : ℕ → ℕ
  pub readings : ℕ

abbrev pub new : (ℕ → ℕ) → DateTimeResource
new clock = record { sessions = []; clock = clock; readings = 0 }

-- `now_body`, and the resource after the reading.
abbrev pub now_body : DateTimeResource → List ℕ
now_body d = date_time_body (d.clock d.readings)

abbrev pub read_clock : DateTimeResource → DateTimeResource
read_clock d = record d { readings = suc d.readings }

unfoldable pub on_open :
    ℕ → ℕ → DateTimeResource → CiTransport → Called DateTimeResource ResourceEvent
on_open slot_id session_id d t =
    reply
      (record (read_clock d) {
        sessions =
            insert session_id (record { slot_id = slot_id; interval = 0; sent = none }) d.sessions;
      })
      t slot_id session_id date_time_tag (now_body d)

-- `body.first().copied().unwrap_or(0)`
abbrev pub first_or_zero : List ℕ → ℕ
first_or_zero [] = 0
first_or_zero (b ∷ body) = b

-- `if let Some(session) = self.sessions.get_mut(..)`
unfoldable pub set_interval : ℕ → ℕ → Table DateTimeSession → Table DateTimeSession
set_interval session_id interval sessions = elim (find session_id sessions) [
  | none ↦ sessions
  | some session ↦ insert session_id (record session { interval = interval; sent = none }) sessions
]

unfoldable pub on_apdu :
    ℕ → ℕ → ℕ → List ℕ → DateTimeResource → CiTransport → Called DateTimeResource ResourceEvent
on_apdu slot_id session_id tag body d t =
    if tag == date_time_enq_tag
    then reply
        (record (read_clock d) {
          sessions = set_interval session_id (first_or_zero body) d.sessions;
        })
        t slot_id session_id date_time_tag (now_body d)
    else refuse d t

unfoldable pub on_close : ℕ → DateTimeResource → DateTimeResource
on_close session_id d = record d { sessions = remove session_id d.sessions }

-- What a round of the loop of `on_tick` does with a session.
pub data Due : Type 0 where
  skip anchor send : Due

abbrev pub due_since : ℕ → ℕ → Option ℕ → Due
due_since now interval none = anchor
due_since now interval (some sent) = if ltb (now - sent) (interval * 1000000000) then skip else send

abbrev pub due : ℕ → DateTimeSession → Due
due now session =
    if session.interval == 0 then skip else due_since now session.interval session.sent

-- The loop: what is left of the table, the readings so far, and the transport; it gives the table,
-- the readings, the transport and the result.
abbrev pub Ticked : Type 0
Ticked = Table DateTimeSession × ℕ × CiTransport × Result (Unit {0})

abbrev pub keep_entry : ℕ × DateTimeSession → Ticked → Ticked
keep_entry entry (rest, readings, t, r) = (entry ∷ rest, readings, t, r)

-- `?` on what `send_apdu` returned; `rest` is the rest of the table, and `next` the rest of the loop.
after_send :
    ℕ
    → ℕ × DateTimeSession
    → Table DateTimeSession
    → ℕ
    → (ℕ → CiTransport → Ticked)
    → CiTransport × Result (Unit {0})
    → Ticked
after_send now (session_id, session) rest readings next (t, ok v) =
    keep_entry (session_id, record session { sent = some now }) (next (suc readings) t)
after_send now entry rest readings next (t, err e) = (entry ∷ rest, suc readings, t, err e)
after_send now entry rest readings next (t, panic) = (entry ∷ rest, suc readings, t, panic)

-- A round of the loop.
tick_one :
    (ℕ → ℕ)
    → ℕ
    → ℕ × DateTimeSession
    → Table DateTimeSession
    → ℕ
    → CiTransport
    → (ℕ → CiTransport → Ticked)
    → Due
    → Ticked
unfolding after_send
tick_one clock now entry rest readings t next skip = keep_entry entry (next readings t)
tick_one clock now (session_id, session) rest readings t next anchor =
    keep_entry (session_id, record session { sent = some now }) (next readings t)
tick_one clock now (session_id, session) rest readings t next send =
    after_send now (session_id, session) rest readings next
      (send_apdu session.slot_id session_id date_time_tag (date_time_body (clock readings)) t)

pub tick_sessions : (ℕ → ℕ) → ℕ → Table DateTimeSession → ℕ → CiTransport → Ticked
unfolding tick_one
tick_sessions clock now [] readings t = ([], readings, t, ok tt)
tick_sessions clock now (entry ∷ rest) readings t =
    tick_one clock now entry rest readings t (tick_sessions clock now rest) (due now entry.1)

abbrev pub ticked : DateTimeResource → Ticked → DateTimeResource × CiTransport × Result (Unit {0})
ticked d (sessions, readings, t, r) = (record d { sessions = sessions; readings = readings }, t, r)

unfoldable pub on_tick :
    ℕ → DateTimeResource → CiTransport → DateTimeResource × CiTransport × Result (Unit {0})
on_tick now d t = ticked d (tick_sessions d.clock now d.sessions d.readings t)
