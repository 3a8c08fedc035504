-- ===== src/Ca/Resource/ApplicationInfo.antt =====
-- src/ca/resource/application_info.rs: application information.
pub mod Newest
mod Tests
use libdvb.Prelude.{
  ℕ, ◌+◌, ◌<◌, min, Bool, true, false, List, [], ◌∷◌, Option, none, some, ◌==◌, ltb, leb, ◌||◌,
  ◌&&◌, not, if◌then◌else◌, length, index, get_slice, Result, ok, err, panic, ◌>>=◌, ◌>>◌, guard,
  ok_or, invalid_data,
}
use libdvb.Prelude.Bits.{be16}
use libdvb.Ca.Apdu.Tags.{application_info_enq_tag, application_info_tag}
use libdvb.Ca.Transport.{CiTransport}
use libdvb.Ca.Session.{Called}
use libdvb.Ca.Resource.Table.{Table, find, remove, insert}
use libdvb.Ca.Resource.Context.{
  ApplicationInfo, ResourceEvent, application_info, reply, event, refuse, finish,
}

unfoldable pub parse_application_info : List ℕ → Result ApplicationInfo
parse_application_info body = do
  guard (not (ltb (length body) 6)) invalid_data
  size ← index body 5
  text ← ok_or (get_slice body 6 (6 + size)) invalid_data
  a ← index body 0
  b ← index body 1
  c ← index body 2
  d ← index body 3
  e ← index body 4
  ok (record {
    application_type = a;
    application_manufacturer = be16 b c;
    manufacturer_code = be16 d e;
    menu_string = text;
  })

pub record ApplicationInfoSession : Type 0 where
  pub slot_id : ℕ
  pub info : Option ApplicationInfo
  pub revision : ℕ

pub record ApplicationInfoResource : Type 0 where
  pub sessions : Table ApplicationInfoSession
  pub revision : ℕ

abbrev pub new : ApplicationInfoResource
new = record { sessions = []; revision = 0 }

-- `saturating_add(1)` of a `u64`.
abbrev pub next_revision : ℕ → ℕ
next_revision revision = min (revision + 1) 18446744073709551615

-- What `filter_map` keeps of a session: its id, its revision and what it told.
abbrev pub Reported : Type 0
Reported = ℕ × ℕ × ApplicationInfo

-- The order of the keys `(revision, session_id)`.
abbrev pub newer : Reported → Reported → Bool
newer (i, r, x) (j, s, y) = ltb s r || r == s && ltb j i

-- `filter`, `filter_map` and `max_by_key`.
abbrev pub reported_of : ℕ → ℕ × ApplicationInfoSession → Option Reported
reported_of slot_id (session_id, session) =
    if session.slot_id == slot_id
    then elim session.info [ none ↦ none | some info ↦ some (session_id, session.revision, info) ]
    else none

abbrev pub newest_of : Option Reported → Option Reported → Option Reported
newest_of none b = b
newest_of (some a) none = some a
newest_of (some a) (some b) = if newer a b then some a else some b

unfoldable pub newest : ℕ → Table ApplicationInfoSession → Option Reported
newest slot_id [] = none
newest slot_id (entry ∷ rest) = newest_of (reported_of slot_id entry) (newest slot_id rest)

unfoldable pub info_session : ℕ → ApplicationInfoResource → Option (ℕ × ApplicationInfo)
info_session slot_id a = elim (newest slot_id a.sessions) [
  | none ↦ none
  | some (session_id, revision, info) ↦ some (session_id, info)
]

-- `info`
unfoldable pub info_of : ℕ → ApplicationInfoResource → Option ApplicationInfo
info_of slot_id a = elim (info_session slot_id a) [
  | none ↦ none
  | some (session_id, info) ↦ some info
]

unfoldable pub on_open :
    ℕ → ℕ → ApplicationInfoResource → CiTransport → Called ApplicationInfoResource ResourceEvent
on_open slot_id session_id a t =
    reply
      (record a {
        sessions =
            insert session_id (record { slot_id = slot_id; info = none; revision = 0 }) a.sessions;
      })
      t slot_id session_id application_info_enq_tag []

-- The session is found, and the information parsed.
abbrev pub told :
    ℕ → ApplicationInfo → ApplicationInfoSession → ApplicationInfoResource → ApplicationInfoResource
told session_id info session a = record {
  revision = next_revision a.revision;
  sessions =
      insert session_id (record session { info = some info; revision = next_revision a.revision })
        a.sessions;
}

parsed :
    ℕ
    → ℕ
    → Result ApplicationInfo
    → ApplicationInfoResource
    → CiTransport
    → Called ApplicationInfoResource ResourceEvent
parsed slot_id session_id (ok info) a t = elim (find session_id a.sessions) [
  | none ↦ refuse a t
  | some session ↦ event (told session_id info session a) t (application_info slot_id info)
]
parsed slot_id session_id (err e) a t = finish a t (err e)
parsed slot_id session_id panic a t = finish a t panic

unfoldable pub on_apdu :
    ℕ
    → ℕ
    → ℕ
    → List ℕ
    → ApplicationInfoResource
    → CiTransport
    → Called ApplicationInfoResource ResourceEvent
unfolding parsed
on_apdu slot_id session_id tag body a t =
    if tag == application_info_tag
    then parsed slot_id session_id (parse_application_info body) a t
    else refuse a t

unfoldable pub on_close : ℕ → ApplicationInfoResource → ApplicationInfoResource
on_close session_id a = record a { sessions = remove session_id a.sessions }
