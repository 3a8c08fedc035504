-- ===== src/Ca/Resource/Table/Sorted.antt =====
-- Sorting, and dropping repeated numbers, keep what a list holds.
use libdvb.Prelude.{
  ℕ, ◌<◌, ◌≤◌, ◌≡◌, refl, true, List, [], ◌∷◌, arith, some, ◌==◌, ◌||◌, Bool-cases, ltb, inl, inr,
  ltb→le, ltb→lt,
}
use libdvb.Ca.Capmt.{contains}
use libdvb.Ca.Resource.Table.{Table, find, keys, place, sort, dedup_after, dedup}

contains-place :
    (n : ℕ) (xs : List ℕ) (y : ℕ) → contains (place n xs) y ≡ ((n == y) || contains xs y)
unfolding place
contains-place n [] y = refl
contains-place n (x ∷ xs) y = ground (arith, contains-place n xs y)

pub contains-sort : (xs : List ℕ) (y : ℕ) → contains (sort xs) y ≡ contains xs y
unfolding sort
contains-sort [] y = refl
contains-sort (x ∷ xs) y = ground (arith, contains-sort xs y, contains-place x (sort xs) y)

contains-dedup_after :
    (last : ℕ) (xs : List ℕ) (y : ℕ)
    → ((last == y) || contains (dedup_after last xs) y) ≡ ((last == y) || contains xs y)
unfolding dedup_after
contains-dedup_after last [] y = refl
contains-dedup_after last (x ∷ xs) y = ground (arith, contains-dedup_after x xs y)

pub contains-dedup : (xs : List ℕ) (y : ℕ) → contains (dedup xs) y ≡ contains xs y
unfolding dedup
contains-dedup [] y = refl
contains-dedup (x ∷ xs) y = contains-dedup_after x xs y

-- Each number at least the one before, and at least `low`.
abbrev NonDecreasing : ℕ → List ℕ → Type 0
NonDecreasing low [] = Unit
NonDecreasing low (x ∷ xs) = (low ≤ x) × NonDecreasing x xs

-- Each number above the one before.
abbrev IncreasingFrom : ℕ → List ℕ → Type 0
IncreasingFrom low [] = Unit
IncreasingFrom low (x ∷ xs) = (low < x) × IncreasingFrom x xs

abbrev pub Increasing : List ℕ → Type 0
Increasing [] = Unit
Increasing (x ∷ xs) = IncreasingFrom x xs

place-NonDecreasing :
    (n low : ℕ) (xs : List ℕ) → low ≤ n → NonDecreasing low xs → NonDecreasing low (place n xs)
unfolding place
place-NonDecreasing n low [] h k = (h, tt)
place-NonDecreasing n low (x ∷ xs) h k = elim (Bool-cases (ltb x n)) [
  | inl e ↦ rw e (k.0, place-NonDecreasing n x xs (omega (arith, ltb→lt x n e)) k.1)
  | inr e ↦ rw e (h, (ltb→le x n e, k.1))
]

sort-NonDecreasing : (xs : List ℕ) → NonDecreasing 0 (sort xs)
unfolding sort
sort-NonDecreasing [] = tt
sort-NonDecreasing (x ∷ xs) =
    place-NonDecreasing x 0 (sort xs) (omega arith) (sort-NonDecreasing xs)

IncreasingFrom-le :
    (low x : ℕ) (ys : List ℕ) → low ≤ x → IncreasingFrom x ys → IncreasingFrom low ys
IncreasingFrom-le low x [] h k = tt
IncreasingFrom-le low x (y ∷ ys) h k = (omega arith, k.1)

dedup_after-IncreasingFrom :
    (last : ℕ) (xs : List ℕ) → NonDecreasing last xs → IncreasingFrom last (dedup_after last xs)
unfolding dedup_after
dedup_after-IncreasingFrom last [] h = tt
dedup_after-IncreasingFrom last (x ∷ xs) h = elim (Bool-cases (x == last)) [
  | inl e ↦
      rw e (IncreasingFrom-le last x (dedup_after x xs) h.0 (dedup_after-IncreasingFrom x xs h.1))
  | inr e ↦ rw e (ground arith, dedup_after-IncreasingFrom x xs h.1)
]

pub dedup-sort-Increasing : (xs : List ℕ) → Increasing (dedup (sort xs))
unfolding dedup
dedup-sort-Increasing xs = go (sort xs) (sort-NonDecreasing xs)
  where
    go : (ys : List ℕ) → NonDecreasing 0 ys → Increasing (dedup ys)
    go [] h = tt
    go (y ∷ ys) h = dedup_after-IncreasingFrom y ys h.1

module _ {ℓ} {V : Type ℓ} where
  pub contains-keys :
      (key : ℕ) (v : V) (table : Table V)
      → find key table ≡ some v
      → contains (keys table) key ≡ true
  unfolding find
  contains-keys key v [] h = cc
  contains-keys key v ((k, w) ∷ rest) h = ground (arith, contains-keys key v rest)
