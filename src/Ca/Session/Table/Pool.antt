-- ===== src/Ca/Session/Table/Pool.antt =====
-- The session numbers of a slot, and what allocating and freeing do to the table.
use libdvb.Prelude.{
  ℕ, zero, suc, ◌+◌, ◌-◌, ◌≤◌, ◌<◌, ◌≡◌, refl, ap, arith, Bool, true, false, inl, inr, Bool-cases,
  List, [], ◌∷◌, ◌++◌, Option, none, some, leb, ◌==◌, if◌then◌else◌, ==→eq, length, length-append,
  get_elem?, set,
}
use mathlib.Core.Path.{subst}
use libdvb.Ca.ResourceId.{ResourceId}
use libdvb.Ca.Session.State.{Session, active}
use libdvb.Ca.Session.Table.{
  entry, session_at, is_of, in_use, position, put_session, alloc_session, max_slot_sessions,
}

-- No slot holds more sessions than it may.
abbrev pub Pool : List (Option Session) → Type 0
Pool sessions = (slot_id : ℕ) → in_use slot_id sessions ≤ max_slot_sessions

abbrev pub one_if : Bool → ℕ
one_if true = 1
one_if false = 0

-- A write to an entry changes the count by what goes and what comes.
pub in_use-set :
    (slot_id : ℕ) (sessions : List (Option Session)) (i : ℕ) (o o' : Option Session)
    → get_elem? sessions i ≡ some o
    → in_use slot_id (set sessions i o') + one_if (is_of slot_id o)
      ≡ in_use slot_id sessions + one_if (is_of slot_id o')
unfolding in_use
in_use-set slot_id [] i o o' e = cc
in_use-set slot_id (x ∷ rest) zero o o' e = ground (arith, e)
in_use-set slot_id (x ∷ rest) (suc i) o o' e = ground (arith, in_use-set slot_id rest i o o' e)

-- What `position` finds is free.
abbrev pub IsFree : List (Option Session) → Option ℕ → Type 0
IsFree sessions none = Unit
IsFree sessions (some i) = get_elem? sessions i ≡ some none

pub position-IsFree : (sessions : List (Option Session)) → IsFree sessions (position sessions)
unfolding position
position-IsFree [] = tt
position-IsFree (none ∷ rest) = refl
position-IsFree (some s ∷ rest) = shift (position rest) (position-IsFree rest)
  where
    shift :
        (o : Option ℕ)
        → IsFree rest o
        → IsFree (some s ∷ rest) (elim o [ none ↦ none | some i ↦ some (suc i) ])
    shift none h = tt
    shift (some i) h = h

in_use-append :
    (slot_id : ℕ) (xs : List (Option Session))
    → in_use slot_id (xs ++ (none ∷ [])) ≡ in_use slot_id xs
unfolding in_use
in_use-append slot_id [] = refl
in_use-append slot_id (x ∷ xs) = ground (arith, in_use-append slot_id xs)

pub last_free : (xs : List (Option Session)) → get_elem? (xs ++ (none ∷ [])) (length xs) ≡ some none
last_free [] = refl
last_free (x ∷ xs) = last_free xs

-- A new session in a free entry.
set-Pool :
    (sessions : List (Option Session)) (i : ℕ) (s : Session)
    → get_elem? sessions i ≡ some none
    → in_use s.slot_id sessions < max_slot_sessions
    → Pool sessions
    → Pool (set sessions i (some s))
set-Pool sessions i s free room h slot_id = elim (Bool-cases (s.slot_id == slot_id)) [
  | inl mine ↦ omega (arith, change, ap (λ b. one_if b) mine, full mine)
  | inr other ↦ omega (arith, change, ap (λ b. one_if b) other, h slot_id)
]
  where
    change :
        in_use slot_id (set sessions i (some s)) + 0
        ≡ in_use slot_id sessions + one_if (s.slot_id == slot_id)
    change = in_use-set slot_id sessions i none (some s) free

    full : (s.slot_id == slot_id) ≡ true → in_use slot_id sessions < max_slot_sessions
    full mine =
        subst (λ n. in_use n sessions < max_slot_sessions) (==→eq s.slot_id slot_id mine) room

put_session-Pool :
    (sessions : List (Option Session)) (s : Session) (o : Option ℕ)
    → IsFree sessions o
    → in_use s.slot_id sessions < max_slot_sessions
    → Pool sessions
    → Pool (put_session sessions s o).0
unfolding put_session
put_session-Pool sessions s (some i) free room h = set-Pool sessions i s free room h
put_session-Pool sessions s none free room h =
    set-Pool (sessions ++ (none ∷ [])) (length (sessions ++ (none ∷ [])) - 1) s
      (rw last (last_free sessions)) (omega (arith, room, in_use-append s.slot_id sessions))
      λ slot_id. omega (arith, h slot_id, in_use-append slot_id sessions)
  where
    last : length (sessions ++ (none ∷ [])) - 1 ≡ length sessions
    last = omega (arith, length-append sessions (none ∷ []))

pub alloc_session-Pool :
    (slot_id : ℕ) (resource_id : ResourceId) (sessions : List (Option Session))
    → Pool sessions
    → Pool (alloc_session slot_id resource_id sessions).0
unfolding alloc_session
alloc_session-Pool slot_id resource_id sessions h =
    go (leb max_slot_sessions (in_use slot_id sessions)) (λ e. ground arith)
  where
    s : Session
    s = record { slot_id = slot_id; resource_id = resource_id; state = active }

    go :
        (b : Bool)
        → (b ≡ false → in_use slot_id sessions < max_slot_sessions)
        → Pool (if b then (sessions, none) else put_session sessions s (position sessions)).0
    go true room = h
    go false room =
        put_session-Pool sessions s (position sessions) (position-IsFree sessions) (room refl) h

pub in_use-take :
    (slot_id : ℕ) (sessions : List (Option Session)) (i : ℕ)
    → in_use slot_id (set sessions i none) ≤ in_use slot_id sessions
unfolding in_use
in_use-take slot_id [] i = omega arith
in_use-take slot_id (x ∷ rest) zero = ground arith
in_use-take slot_id (x ∷ rest) (suc i) = ground (arith, in_use-take slot_id rest i)

pub session_at_lem :
    (sessions : List (Option Session)) (i : ℕ) (s : Session)
    → session_at sessions (suc i) ≡ some s
    → get_elem? sessions i ≡ some (some s)
unfolding session_at
session_at_lem sessions i s e = go (get_elem? sessions i) e
  where
    go : (o : Option (Option Session)) → entry o ≡ some s → o ≡ some (some s)
    go none e = cc
    go (some o) e = ap some e

-- A session that stays with its slot.
pub change-Pool :
    (sessions : List (Option Session)) (i : ℕ) (s s' : Session)
    → session_at sessions (suc i) ≡ some s
    → s'.slot_id ≡ s.slot_id
    → Pool sessions
    → Pool (set sessions i (some s'))
change-Pool sessions i s s' e same h slot_id = omega (
  arith,
  in_use-set slot_id sessions i (some s) (some s') (session_at_lem sessions i s e),
  ap (λ n. one_if (n == slot_id)) same,
  h slot_id,
)

pub in_use-nil : Pool []
unfolding in_use
in_use-nil slot_id = omega arith
