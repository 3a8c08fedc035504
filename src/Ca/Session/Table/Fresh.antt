-- ===== src/Ca/Session/Table/Fresh.antt =====
-- A session number that is allocated was free, and no other session changes.
use libdvb.Prelude.{
  ℕ, zero, suc, ◌+◌, ◌-◌, ◌<◌, ◌≡◌, refl, sym, ap, ◌∙◌, arith, Bool, true, false, List, [], ◌∷◌,
  ◌++◌, Option, none, some, leb, if◌then◌else◌, u16, length, length-append, get_elem?,
  get_elem?-set_self, get_elem?-set_ne, get_elem?-lt, set, ◌⊎◌, inl, inr,
}
use mathlib.Core.Option.{some-injective}
use native.Mathlib.Decide.{ℕ_discrete}
use libdvb.Ca.ResourceId.{ResourceId}
use libdvb.Ca.Session.State.{Session, active}
use libdvb.Ca.Session.Table.{
  session_at, entry, in_use, position, put_session, alloc_session, max_slot_sessions,
}
use libdvb.Ca.Session.Table.Pool.{IsFree, position-IsFree, last_free}

-- What allocating the number `id` for `s` means for the table, and for another number.
abbrev pub Allocated : List (Option Session) → List (Option Session) → Session → ℕ → ℕ → Type 0
Allocated before after s id other =
    (session_at before id ≡ none)
    × (session_at after id ≡ some s)
    × ((other ≡ id) ⊎ (session_at after other ≡ session_at before other))

-- The result of allocating: nothing, and the table as it was, or a new number.
abbrev pub Allocation :
    List (Option Session) → Session → ℕ → List (Option Session) × Option ℕ → Type 0
Allocation before s other (after, none) = after ≡ before
Allocation before s other (after, some id) = Allocated before after s id other

number : (i : ℕ) → i < 65535 → u16 (i + 1) ≡ suc i
number i h = omega arith

entry-none : (o : Option (Option Session)) → o ≡ some none → entry o ≡ none
entry-none none e = refl
entry-none (some o) e = some-injective _ _ e

get_past :
    (sessions : List (Option Session)) (j : ℕ)
    → entry (get_elem? (sessions ++ (none ∷ [])) j) ≡ entry (get_elem? sessions j)
get_past [] zero = refl
get_past [] (suc j) = refl
get_past (x ∷ rest) zero = refl
get_past (x ∷ rest) (suc j) = get_past rest j

set-Allocated :
    (before sessions : List (Option Session)) (s : Session) (i other : ℕ)
    → i < 65535
    → get_elem? sessions i ≡ some none
    → ((j : ℕ) → entry (get_elem? sessions j) ≡ entry (get_elem? before j))
    → Allocation before s other (set sessions i (some s), some (u16 (i + 1)))
unfolding session_at
set-Allocated before sessions s i other few free same = rw (number i few) (go other)
  where
    here : entry (get_elem? (set sessions i (some s)) i) ≡ some s
    here = ap entry (get_elem?-set_self sessions i (some s) (get_elem?-lt sessions i free))

    was : entry (get_elem? before i) ≡ none
    was = sym (same i) ∙ entry-none (get_elem? sessions i) free

    go : (n : ℕ) → Allocated before (set sessions i (some s)) s (suc i) n
    go zero = (was, here, inr refl)
    go (suc j) = elim (ℕ_discrete i j) [
      | yes p ↦ (was, here, inl (ap suc (sym p)))
      | no p ↦ (was, here, inr (ap entry (get_elem?-set_ne sessions i j (some s) p) ∙ same j))
    ]

put_session-Allocated :
    (sessions : List (Option Session)) (s : Session) (o : Option ℕ) (other : ℕ)
    → length sessions < 65535
    → IsFree sessions o
    → Allocation sessions s other (put_session sessions s o)
unfolding put_session
put_session-Allocated sessions s (some i) other few free =
    set-Allocated sessions sessions s i other (omega (arith, get_elem?-lt sessions i free)) free
      λ j. refl
put_session-Allocated sessions s none other few free =
    set-Allocated sessions (sessions ++ (none ∷ [])) s (length (sessions ++ (none ∷ [])) - 1) other
      (omega (arith, last)) (rw last (last_free sessions)) (get_past sessions)
  where
    last : length (sessions ++ (none ∷ [])) - 1 ≡ length sessions
    last = omega (arith, length-append sessions (none ∷ []))

-- On a table of fewer than 65535 entries `alloc_session` either returns no number and changes nothing,
-- or a number that no session had and that now is the new active session's, while the session of every
-- other number is as it was.
pub alloc_session-Allocated :
    (slot_id : ℕ) (resource_id : ResourceId) (sessions : List (Option Session)) (other : ℕ)
    → length sessions < 65535
    → Allocation sessions
        (record { slot_id = slot_id; resource_id = resource_id; state = active })
        other
        (alloc_session slot_id resource_id sessions)
unfolding alloc_session
alloc_session-Allocated slot_id resource_id sessions other few =
    go (leb max_slot_sessions (in_use slot_id sessions))
  where
    s : Session
    s = record { slot_id = slot_id; resource_id = resource_id; state = active }

    go :
        (b : Bool)
        → Allocation sessions s other
            (if b then (sessions, none) else put_session sessions s (position sessions))
    go true = refl
    go false =
        put_session-Allocated sessions s (position sessions) other few (position-IsFree sessions)
