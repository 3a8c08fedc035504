-- ===== src/Ca/Resource/DateTime/Objects.antt =====
-- What a tick has to send, and the sessions that it has to leave.
use libdvb.Prelude.{
  ℕ, suc, ◌+◌, ◌*◌, ◌<◌, ◌≡◌, ◌⊎◌, Bool, true, false, ◌&&◌, ◌||◌, List, [], ◌∷◌, Option, none, some,
  Result, ok, err, panic, ltb, leb, if◌then◌else◌,
}
use libdvb.Ca.Apdu.Tags.{date_time_tag}
use libdvb.Ca.Transport.{CiTransport, send_apdu}
use libdvb.Ca.Resource.Table.{Table}
use libdvb.Ca.Resource.DateTime.{DateTimeSession, date_time_body}

-- The periodic updates are off, or the interval since the last object is not over.
abbrev pub Fresh : ℕ → ℕ × DateTimeSession → Type 0
Fresh now entry =
    (entry.1.interval ≡ 0)
    ⊎ ((sent : ℕ) × (entry.1.sent ≡ some sent) × (now < sent + entry.1.interval * 1000000000))

-- The interval since the last object is over.
abbrev pub is_over : (now interval : ℕ) → Option ℕ → Bool
is_over now interval none = false
is_over now interval (some sent) = ltb 0 interval && leb (sent + interval * 1000000000) now

-- The updates are on, and their first interval has not started.
abbrev pub is_unstarted : (interval : ℕ) → Option ℕ → Bool
is_unstarted interval none = ltb 0 interval
is_unstarted interval (some sent) = false

-- An object for a session: slot, session and time.
abbrev pub Object : Type 0
Object = ℕ × ℕ × ℕ

abbrev pub add_object : Bool → Object → (ℕ → List Object) → ℕ → List Object
add_object true object later readings = object ∷ later (suc readings)
add_object false object later readings = later readings

-- The objects of a tick: one for each session whose interval is over, in order, with a reading of the
-- clock each.
unfoldable pub objects : (ℕ → ℕ) → ℕ → Table DateTimeSession → ℕ → List Object
objects clock now [] readings = []
objects clock now ((session_id, session) ∷ rest) readings =
    add_object (is_over now session.interval session.sent)
      (session.slot_id, session_id, clock readings) (objects clock now rest) readings

abbrev pub and_then :
    CiTransport × Result (Unit {0})
    → (CiTransport → CiTransport × Result (Unit {0}))
    → CiTransport × Result (Unit {0})
and_then (t, ok v) f = f t
and_then (t, err e) f = (t, err e)
and_then (t, panic) f = (t, panic)

-- Objects that are sent one after the other, up to the first that fails.
unfoldable pub send_all : List Object → CiTransport → CiTransport × Result (Unit {0})
send_all [] t = (t, ok tt)
send_all ((slot_id, session_id, time) ∷ rest) t =
    and_then (send_apdu slot_id session_id date_time_tag (date_time_body time) t) (send_all rest)

-- A session after a tick: its interval starts anew where it is over or has not started.
abbrev pub restarted : ℕ → ℕ × DateTimeSession → ℕ × DateTimeSession
restarted now (session_id, session) =
    if is_over now session.interval session.sent || is_unstarted session.interval session.sent
    then (session_id, record session { sent = some now })
    else (session_id, session)
