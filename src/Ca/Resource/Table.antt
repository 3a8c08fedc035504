-- ===== src/Ca/Resource/Table.antt =====
-- The maps keyed by a session id or a program number, `HashMap` and `BTreeMap`, as lists of entries.
-- A `HashMap` may hold its entries in any order; the code that goes through one either sorts the
-- keys or says which entry it picks.
pub mod Sorted
use mathlib.Core.Path.{subst}
use mathlib.Core.Option.{some-injective}
use libdvb.Prelude.{
  ℕ, ◌≡◌, ◌≢◌, refl, arith, Bool, true, false, List, [], ◌∷◌, Option, none, some, ◌==◌, ltb,
  if◌then◌else◌, All, Bool-cases, inl, inr, ==→eq,
}

abbrev pub Table {ℓ} : Type ℓ → Type ℓ
Table V = List (ℕ × V)

module _ {ℓ} {V : Type ℓ} where
  -- `get`
  unfoldable pub find : ℕ → Table V → Option V
  find key [] = none
  find key ((k, v) ∷ rest) = if k == key then some v else find key rest

  -- `remove`, without what it returns.
  unfoldable pub remove : ℕ → Table V → Table V
  remove key [] = []
  remove key ((k, v) ∷ rest) =
      let others = remove key rest in if k == key then others else (k, v) ∷ others

  -- `insert`
  unfoldable pub insert : ℕ → V → Table V → Table V
  insert key value table = (key, value) ∷ remove key table

  -- `insert` of a `BTreeMap`, in the order of the keys.
  unfoldable pub insert_sorted : ℕ → V → Table V → Table V
  insert_sorted key value [] = (key, value) ∷ []
  insert_sorted key value ((k, v) ∷ rest) =
      let later = insert_sorted key value rest in
      if key == k
      then (key, value) ∷ rest
      else if ltb key k
      then (key, value) ∷ (k, v) ∷ rest
      else (k, v) ∷ later

  -- `keys`
  abbrev pub keys : Table V → List ℕ
  keys [] = []
  keys ((k, v) ∷ rest) = k ∷ keys rest

-- `sort_unstable` of numbers.
unfoldable pub place : ℕ → List ℕ → List ℕ
place n [] = n ∷ []
place n (x ∷ xs) = let later = place n xs in if ltb x n then x ∷ later else n ∷ x ∷ xs

unfoldable pub sort : List ℕ → List ℕ
sort [] = []
sort (x ∷ xs) = place x (sort xs)

-- `dedup`, after what was kept last.
dedup_after : ℕ → List ℕ → List ℕ
dedup_after last [] = []
dedup_after last (x ∷ xs) = let rest = dedup_after x xs in if x == last then rest else x ∷ rest

pub dedup : List ℕ → List ℕ
unfolding dedup_after
dedup [] = []
dedup (x ∷ xs) = x ∷ dedup_after x xs

module _ {ℓ} {V : Type ℓ} where
  pub find-remove_self : (key : ℕ) (table : Table V) → find key (remove key table) ≡ none
  unfolding find remove
  find-remove_self key [] = refl
  find-remove_self key ((k, v) ∷ rest) = ground (arith, find-remove_self key rest)

  pub find-remove_ne :
      (key other : ℕ) (table : Table V)
      → key ≢ other
      → find key (remove other table) ≡ find key table
  unfolding find remove
  find-remove_ne key other [] h = refl
  find-remove_ne key other ((k, v) ∷ rest) h = ground (arith, h, find-remove_ne key other rest h)

  pub find-insert_self :
      (key : ℕ) (value : V) (table : Table V) → find key (insert key value table) ≡ some value
  unfolding find insert
  find-insert_self key value table = ground arith

  pub find-insert_ne :
      (key other : ℕ) (value : V) (table : Table V)
      → key ≢ other
      → find key (insert other value table) ≡ find key table
  unfolding find insert
  find-insert_ne key other value table h = ground (arith, h, find-remove_ne key other table h)

  pub find-insert_sorted_self :
      (key : ℕ) (value : V) (table : Table V)
      → find key (insert_sorted key value table) ≡ some value
  unfolding find insert_sorted
  find-insert_sorted_self key value [] = ground arith
  find-insert_sorted_self key value ((k, v) ∷ rest) =
      ground (arith, find-insert_sorted_self key value rest)

module _ {ℓ} {V : Type ℓ} where
  pub All-remove {κ} :
      (P : ℕ × V → Type κ) (key : ℕ) (table : Table V) → All P table → All P (remove key table)
  unfolding remove
  All-remove P key [] h = tt
  All-remove P key ((k, v) ∷ rest) h = elim (Bool-cases (k == key)) [
    | inl e ↦ rw e (All-remove P key rest h.1)
    | inr e ↦ rw e (h.0, All-remove P key rest h.1)
  ]

  pub All-insert {κ} :
      (P : ℕ × V → Type κ) (key : ℕ) (value : V) (table : Table V)
      → P (key, value)
      → All P table
      → All P (insert key value table)
  unfolding insert
  All-insert P key value table p h = (p, All-remove P key table h)

  pub All-insert_sorted {κ} :
      (P : ℕ × V → Type κ) (key : ℕ) (value : V) (table : Table V)
      → P (key, value)
      → All P table
      → All P (insert_sorted key value table)
  unfolding insert_sorted
  All-insert_sorted P key value [] p h = (p, tt)
  All-insert_sorted P key value ((k, v) ∷ rest) p h = elim (Bool-cases (key == k)) [
    | inl e ↦ rw e (p, h.1)
    | inr e ↦ elim (Bool-cases (ltb key k)) [
      | inl f ↦ rw (e, f) (p, h)
      | inr f ↦ rw (e, f) (h.0, All-insert_sorted P key value rest p h.1)
    ]
  ]

  pub All-find {κ} :
      (P : ℕ × V → Type κ) (key : ℕ) (table : Table V) {v : V}
      → All P table
      → find key table ≡ some v
      → P (key, v)
  unfolding find
  All-find P key [] h e = cc
  All-find P key ((k, w) ∷ rest) {v} h e = elim (Bool-cases (k == key)) [
    | inl same ↦
        subst (λ n. P (n, v)) (==→eq k key same)
          (subst (λ u. P (k, u)) (some-injective _ _ (rw same at e)) h.0)
    | inr other ↦ All-find P key rest h.1 (rw other at e)
  ]
