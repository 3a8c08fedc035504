-- ===== src/Ca/Session/Table/Clear.antt =====
-- Counting the sessions of a slot up to an index.
use libdvb.Prelude.{
  ℕ, zero, suc, ◌≡◌, refl, ap, arith, false, List, [], ◌∷◌, Option, none, length, set, take,
}
use libdvb.Ca.Session.State.{Session}
use libdvb.Ca.Session.Table.{session_at, is_of, in_use}

-- The next entry is of another slot, or of none.
pub in_use-pass :
    (slot_id : ℕ) (sessions : List (Option Session)) (i : ℕ)
    → is_of slot_id (session_at sessions (suc i)) ≡ false
    → in_use slot_id (take (suc i) sessions) ≡ in_use slot_id (take i sessions)
unfolding in_use session_at
in_use-pass slot_id [] zero h = refl
in_use-pass slot_id [] (suc i) h = refl
in_use-pass slot_id (x ∷ rest) zero h = rw h refl
in_use-pass slot_id (x ∷ rest) (suc i) h = ground (arith, in_use-pass slot_id rest i h)

-- The next entry is freed.
pub in_use-free :
    (slot_id : ℕ) (sessions : List (Option Session)) (i : ℕ)
    → in_use slot_id (take (suc i) (set sessions i none)) ≡ in_use slot_id (take i sessions)
unfolding in_use
in_use-free slot_id [] zero = refl
in_use-free slot_id [] (suc i) = refl
in_use-free slot_id (x ∷ rest) zero = refl
in_use-free slot_id (x ∷ rest) (suc i) = ground (arith, in_use-free slot_id rest i)

pub take-length : (sessions : List (Option Session)) → take (length sessions) sessions ≡ sessions
take-length [] = refl
take-length (x ∷ rest) = ap (λ l. x ∷ l) (take-length rest)

pub in_use-start :
    (slot_id : ℕ) (sessions : List (Option Session)) → in_use slot_id (take 0 sessions) ≡ 0
unfolding in_use
in_use-start slot_id sessions = refl
