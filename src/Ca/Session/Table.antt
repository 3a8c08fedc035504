-- ===== src/Ca/Session/Table.antt =====
-- src/ca/session.rs: the table of sessions. The session number is the index plus one.
pub mod Pool
pub mod Clear
pub mod Fresh
use libdvb.Prelude.{
  ℕ, zero, suc, ◌+◌, ◌-◌, Bool, true, false, ◌&&◌, List, [], ◌∷◌, ◌++◌, Option, none, some, leb,
  ◌==◌, if◌then◌else◌, u16, length, get_elem?, set, Result, ok, err, invalid_property,
}
use libdvb.Ca.ResourceId.{
  ResourceId, base, resource_manager, application_information, conditional_access_support,
  host_control, date_time, mmi,
}
use libdvb.Ca.Session.State.{Session, SessionState, active, closing}

abbrev pub max_slot_sessions : ℕ
max_slot_sessions = 16

abbrev pub host_profile : List ResourceId
host_profile =
    resource_manager ∷ application_information ∷ conditional_access_support ∷ host_control
    ∷ date_time ∷ mmi ∷ []

-- `find` on the resources.
find_base : List ResourceId → ResourceId → Option ResourceId
find_base [] resource_id = none
find_base (r ∷ rest) resource_id =
    let later = find_base rest resource_id in if base r == base resource_id then some r else later

-- `ResourceRegistry::lookup`, as the identifier of the resource that it finds.
pub lookup : ResourceId → Option ResourceId
unfolding find_base
lookup resource_id = find_base host_profile resource_id

-- `self.sessions.get(index)?.as_ref()`
abbrev pub entry : Option (Option Session) → Option Session
entry none = none
entry (some o) = o

pub session_at : List (Option Session) → ℕ → Option Session
session_at sessions zero = none
session_at sessions (suc index) = entry (get_elem? sessions index)

abbrev pub is_of : ℕ → Option Session → Bool
is_of slot_id none = false
is_of slot_id (some s) = s.slot_id == slot_id

-- The number of sessions of a slot.
pub in_use : ℕ → List (Option Session) → ℕ
in_use slot_id [] = 0
in_use slot_id (o ∷ rest) =
    let more = in_use slot_id rest in if is_of slot_id o then suc more else more

-- `position(Option::is_none)`
pub position : List (Option Session) → Option ℕ
position [] = none
position (none ∷ rest) = some 0
position (some s ∷ rest) = elim (position rest) [ none ↦ none | some i ↦ some (suc i) ]

-- The session goes to a free index, or to a new one at the end.
put_session : List (Option Session) → Session → Option ℕ → List (Option Session) × Option ℕ
put_session sessions s (some index) = (set sessions index (some s), some (u16 (index + 1)))
put_session sessions s none =
    let grown = sessions ++ (none ∷ []) in
    let index = length grown - 1 in (set grown index (some s), some (u16 (index + 1)))

pub alloc_session : ℕ → ResourceId → List (Option Session) → List (Option Session) × Option ℕ
unfolding put_session
alloc_session slot_id resource_id sessions =
    if leb max_slot_sessions (in_use slot_id sessions)
    then (sessions, none)
    else put_session sessions
        (record { slot_id = slot_id; resource_id = resource_id; state = active })
        (position sessions)

abbrev pub is_active : SessionState → Bool
is_active active = true
is_active closing = false

abbrev pub serves : ℕ → ResourceId → Option Session → Bool
serves slot_id resource_id none = false
serves slot_id resource_id (some s) =
    s.slot_id == slot_id && base s.resource_id == base resource_id && is_active s.state

pub require_session : List (Option Session) → ℕ → ℕ → ResourceId → Result (Unit {0})
require_session sessions slot_id session_id resource_id =
    if serves slot_id resource_id (session_at sessions session_id)
    then ok tt
    else err invalid_property

-- The loop of `find_session`, from an index on.
find_from : ℕ → List (Option Session) → ℕ → ResourceId → Result ℕ
find_from index [] slot_id resource_id = err invalid_property
find_from index (o ∷ rest) slot_id resource_id =
    let later = find_from (suc index) rest slot_id resource_id in
    if serves slot_id resource_id o then ok (u16 (index + 1)) else later

pub find_session : List (Option Session) → ℕ → ResourceId → Result ℕ
unfolding find_from
find_session sessions slot_id resource_id = find_from 0 sessions slot_id resource_id
