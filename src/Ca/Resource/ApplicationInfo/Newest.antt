-- ===== src/Ca/Resource/ApplicationInfo/Newest.antt =====
-- The information of a slot is the last that was received.
use libdvb.Prelude.{
  ℕ, suc, ◌+◌, ◌<◌, ◌≤◌, ◌≡◌, refl, arith, List, [], ◌∷◌, length, Option, none, some, All, Result,
  ok, err, panic, ◌==◌, ==_refl, Bool-cases, inl, inr,
}
use libdvb.Ca.Apdu.Tags.{application_info_tag}
use libdvb.Ca.Transport.{CiTransport}
use libdvb.Ca.Resource.Table.{Table, find, remove, insert, All-remove, All-insert}
use libdvb.Ca.Resource.Context.{ApplicationInfo}
use libdvb.Ca.Resource.ApplicationInfo.{
  ApplicationInfoSession, ApplicationInfoResource, Reported, newer, reported_of, newest_of, newest,
  info_session, new, next_revision, told, parsed, parse_application_info, on_open, on_apdu,
  on_close,
}

-- What the session layer asks of the resource, with the transport as it is then.
pub data InfoCall : Type 0 where
  opens : (slot_id session_id : ℕ) (transport : CiTransport) → InfoCall
  receives : (slot_id session_id tag : ℕ) (body : List ℕ) (transport : CiTransport) → InfoCall
  closes : (session_id : ℕ) → InfoCall

unfoldable pub step : ApplicationInfoResource → InfoCall → ApplicationInfoResource
step a (opens slot_id session_id transport) = (on_open slot_id session_id a transport).registry
step a (receives slot_id session_id tag body transport) =
    (on_apdu slot_id session_id tag body a transport).registry
step a (closes session_id) = on_close session_id a

unfoldable pub run : ApplicationInfoResource → List InfoCall → ApplicationInfoResource
run a [] = a
run a (call ∷ calls) = run (step a call) calls

-- No session's revision is above the resource's.
abbrev Revised : ℕ → ℕ × ApplicationInfoSession → Type 0
Revised bound entry = entry.1.revision ≤ bound

abbrev IsRevised : ApplicationInfoResource → Type 0
IsRevised a = All (Revised a.revision) a.sessions

weaken :
    (low high : ℕ) (sessions : Table ApplicationInfoSession)
    → low ≤ high
    → All (Revised low) sessions
    → All (Revised high) sessions
weaken low high [] h k = tt
weaken low high ((key, session) ∷ rest) h k = (omega arith, weaken low high rest h k.1)

told-IsRevised :
    (session_id : ℕ) (info : ApplicationInfo) (session : ApplicationInfoSession)
    (a : ApplicationInfoResource)
    → a.revision < 18446744073709551615
    → IsRevised a
    → IsRevised (told session_id info session a)
      × ((told session_id info session a).revision ≡ suc a.revision)
told-IsRevised session_id info session a m h = (
  All-insert (Revised (next_revision a.revision)) session_id
      (record session { info = some info; revision = next_revision a.revision }) a.sessions
      (omega arith) (weaken a.revision (next_revision a.revision) a.sessions (omega arith) h),
  omega arith,
)

-- A call that is one of the first 2 ^ 64 - 1.
abbrev Stepped : ApplicationInfoResource → ApplicationInfoResource → Type 0
Stepped a b = IsRevised b × (b.revision ≤ suc a.revision)

found-Stepped :
    (slot_id session_id : ℕ) (info : ApplicationInfo) (o : Option ApplicationInfoSession)
    (a : ApplicationInfoResource) (t : CiTransport)
    → find session_id a.sessions ≡ o
    → a.revision < 18446744073709551615
    → IsRevised a
    → Stepped a (parsed slot_id session_id (ok info) a t).registry
unfolding parsed
found-Stepped slot_id session_id info none a t e m h = rw (e, parsed) (h, omega arith)
found-Stepped slot_id session_id info (some session) a t e m h =
    let (revised, next) = told-IsRevised session_id info session a m h in
    rw (e, parsed) (revised, omega (arith, next))

parsed-Stepped :
    (slot_id session_id : ℕ) (r : Result ApplicationInfo) (a : ApplicationInfoResource)
    (t : CiTransport)
    → a.revision < 18446744073709551615
    → IsRevised a
    → Stepped a (parsed slot_id session_id r a t).registry
unfolding parsed
parsed-Stepped slot_id session_id (ok info) a t m h =
    found-Stepped slot_id session_id info (find session_id a.sessions) a t refl m h
parsed-Stepped slot_id session_id (err e) a t m h = (h, omega arith)
parsed-Stepped slot_id session_id panic a t m h = (h, omega arith)

step-Stepped :
    (a : ApplicationInfoResource) (call : InfoCall)
    → a.revision < 18446744073709551615
    → IsRevised a
    → Stepped a (step a call)
unfolding step on_open on_apdu on_close
step-Stepped a (opens slot_id session_id t) m h = (
  All-insert (Revised a.revision) session_id
      (record { slot_id = slot_id; info = none; revision = 0 }) a.sessions (omega arith) h,
  omega arith,
)
step-Stepped a (receives slot_id session_id tag body t) m h =
    elim (Bool-cases (tag == application_info_tag)) [
      | inl e ↦
          rw (e, step) (parsed-Stepped slot_id session_id (parse_application_info body) a t m h)
      | inr e ↦ rw (e, step) (h, omega arith)
    ]
step-Stepped a (closes session_id) m h =
    (All-remove (Revised a.revision) session_id a.sessions h, omega arith)

run-IsRevised :
    (a : ApplicationInfoResource) (calls : List InfoCall)
    → a.revision + length calls < 18446744073709551615
    → IsRevised a
    → IsRevised (run a calls) × (run a calls).revision < 18446744073709551615
unfolding run
run-IsRevised a [] m h = (h, omega arith)
run-IsRevised a (call ∷ calls) m h =
    let (revised, next) = step-Stepped a call (omega arith) h in
    run-IsRevised (step a call) calls (omega arith) revised

abbrev AtMost : ℕ → Option Reported → Type 0
AtMost bound none = Unit
AtMost bound (some (session_id, revision, info)) = revision ≤ bound

newest_of-AtMost :
    (bound : ℕ) (a b : Option Reported)
    → AtMost bound a
    → AtMost bound b
    → AtMost bound (newest_of a b)
newest_of-AtMost bound none b h k = k
newest_of-AtMost bound (some a) none h k = h
newest_of-AtMost bound (some a) (some b) h k = elim (Bool-cases (newer a b)) [
  | inl e ↦ rw e h
  | inr e ↦ rw e k
]

reported_of-AtMost :
    (bound slot_id session_id : ℕ) (session : ApplicationInfoSession)
    (info : Option ApplicationInfo)
    → session.info ≡ info
    → session.revision ≤ bound
    → AtMost bound (reported_of slot_id (session_id, session))
reported_of-AtMost bound slot_id session_id session info e h =
    elim (Bool-cases (session.slot_id == slot_id)) [
      | inr other ↦ rw other tt
      | inl own ↦ rw own (told_or_not info e)
    ]
  where
    told_or_not :
        (info : Option ApplicationInfo)
        → session.info ≡ info
        → AtMost bound
            (elim session.info [ none ↦ none | some x ↦ some (session_id, session.revision, x) ])
    told_or_not none e = rw e tt
    told_or_not (some x) e = rw e h

newest-AtMost :
    (slot_id bound : ℕ) (sessions : Table ApplicationInfoSession)
    → All (Revised bound) sessions
    → AtMost bound (newest slot_id sessions)
unfolding newest
newest-AtMost slot_id bound [] h = tt
newest-AtMost slot_id bound ((session_id, session) ∷ rest) h =
    newest_of-AtMost bound (reported_of slot_id (session_id, session)) (newest slot_id rest)
      (reported_of-AtMost bound slot_id session_id session session.info refl h.0)
      (newest-AtMost slot_id bound rest h.1)

-- A later revision than all the others is the newest.
newest_of-first :
    (bound : ℕ) (first : Reported) (other : Option Reported)
    → bound < first.1
    → AtMost bound other
    → newest_of (some first) other ≡ some first
newest_of-first bound (i, r, x) none m h = refl
newest_of-first bound (i, r, x) (some (j, s, y)) m h = ground arith

told-newest :
    (session_id : ℕ) (info : ApplicationInfo) (session : ApplicationInfoSession)
    (a : ApplicationInfoResource)
    → a.revision < 18446744073709551615
    → IsRevised a
    → info_session session.slot_id (told session_id info session a) ≡ some (session_id, info)
unfolding info_session newest insert
told-newest session_id info session a m h =
    let others = remove session_id a.sessions in
    let kept =
      newest-AtMost session.slot_id a.revision others
        (All-remove (Revised a.revision) session_id a.sessions h) in
    let first =
      newest_of-first a.revision (session_id, next_revision a.revision, info)
        (newest session.slot_id others) (omega arith) kept in
    ground (arith, ==_refl session.slot_id, first)

-- After fewer than 2 ^ 64 - 1 calls, a valid application_info object on a known session becomes the
-- information of the session's slot, whatever the other sessions of the slot have told before.
pub run-newest :
    (calls : List InfoCall) (slot_id session_id : ℕ) (body : List ℕ) (t : CiTransport)
    (session : ApplicationInfoSession) (info : ApplicationInfo)
    → length calls < 18446744073709551615
    → find session_id (run new calls).sessions ≡ some session
    → parse_application_info body ≡ ok info
    → info_session session.slot_id
        (on_apdu slot_id session_id application_info_tag body (run new calls) t).registry
      ≡ some (session_id, info)
unfolding on_apdu parsed info_session
run-newest calls slot_id session_id body t session info m f p =
    let (revised, bound) = run-IsRevised new calls (omega arith) tt in
    rw (p, f, parsed, info_session)
      (told-newest session_id info session (run new calls) bound revised)
