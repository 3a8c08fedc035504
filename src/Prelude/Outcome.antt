-- ===== src/Prelude/Outcome.antt =====
-- error.rs, and the ways in which Rust's indexing ends. The texts that the errors carry are left
-- out: only which error is returned is modelled.
use libdvb.Prelude.Tests.{leb, le→leb, if◌then◌else◌}
use libdvb.Prelude.Lists.{length, get_or, take, drop, length-append, drop-append, take-append}
use Prim.Native.Nat.{ℕ, zero, suc, ◌+◌, ◌-◌, ◌≤◌, ◌<◌}
use mathlib.Core.Path.{◌≡◌, refl, ap, ◌∙◌}
use mathlib.Core.Logic.{◌⊎◌, inl, inr}
use mathlib.Core.Bool.{Bool, true, false, ◌&&◌}
use mathlib.Core.Option.{Option, none, some}
use mathlib.Core.List.{List, [], ◌∷◌, ◌++◌}
use native.Mathlib.Omega.{arith}

-- `std::io::ErrorKind`, as far as the code tells its values apart.
pub data IoKind : Type 0 where
  would_block interrupted unexpected_eof other_kind : IoKind

pub data Error : Type 0 where
  io : IoKind → Error
  nix invalid_property invalid_data : Error

-- `panic` is no value of the program: an index or a slice was out of range.
pub data Result {ℓ} (A : Type ℓ) : Type ℓ where
  ok : (value : A) → Result A
  err : (why : Error) → Result A
  panic : Result A

-- `?` and what follows it.
infixl 5 ◌>>=◌ ◌>>◌
abbrev pub ◌>>=◌ {ℓ ℓ'} : {A : Type ℓ} {B : Type ℓ'} (r : Result A) (next : A → Result B) → Result B
panic >>= next = panic
ok value >>= next = next value
err why >>= next = err why

abbrev pub ◌>>◌ {ℓ} : {A : Type ℓ} (r : Result (Unit {0})) (next : Result A) → Result A
r >> next = r >>= λ _. next

-- `if !condition { return Err(why); }`
abbrev pub guard : (condition : Bool) (why : Error) → Result (Unit {0})
guard false why = err why
guard true why = ok tt

-- `o.ok_or(e)?`
abbrev pub ok_or {ℓ} : {A : Type ℓ} → Option A → Error → Result A
ok_or none e = err e
ok_or (some a) e = ok a

module _ {ℓ} {A : Type ℓ} where
  -- `xs.get(a .. b)`
  unfoldable pub get_slice : List A → ℕ → ℕ → Option (List A)
  get_slice xs a b = if leb a b && leb b (length xs) then some (take (b - a) (drop a xs)) else none

  -- `xs[i]`
  unfoldable pub index : List A → ℕ → Result A
  index [] i = panic
  index (x ∷ xs) zero = ok x
  index (x ∷ xs) (suc i) = index xs i

  -- `&xs[a .. b]`
  unfoldable pub slice : List A → ℕ → ℕ → Result (List A)
  slice xs a b = if leb a b && leb b (length xs) then ok (take (b - a) (drop a xs)) else panic

  -- `&xs[a ..]`
  unfoldable pub slice_from : List A → ℕ → Result (List A)
  slice_from xs a = if leb a (length xs) then ok (drop a xs) else panic

  pub index_lem : (xs : List A) (i : ℕ) (d : A) → i < length xs → index xs i ≡ ok (get_or xs i d)
  unfolding index
  index_lem [] i d h = elim h [ ]
  index_lem (x ∷ xs) zero d h = refl
  index_lem (x ∷ xs) (suc i) d h = index_lem xs i d (omega arith)

  pub slice_lem :
      (xs : List A) (a b : ℕ) → a ≤ b → b ≤ length xs → slice xs a b ≡ ok (take (b - a) (drop a xs))
  unfolding slice
  slice_lem xs a b h k = rw (le→leb a b h, le→leb b (length xs) k)

  pub slice_from_lem : (xs : List A) (a : ℕ) → a ≤ length xs → slice_from xs a ≡ ok (drop a xs)
  unfolding slice_from
  slice_from_lem xs a h = rw (le→leb a (length xs) h)

pub Result-cases {ℓ} :
    {A : Type ℓ} (r : Result A) → ((a : A) × (r ≡ ok a)) ⊎ ((e : Error) × (r ≡ err e)) ⊎ (r ≡ panic)
Result-cases (ok a) = inl (a, refl)
Result-cases (err e) = inr (inl (e, refl))
Result-cases panic = inr (inr refl)

module _ {ℓ} {A : Type ℓ} where
  -- Reading at the seams of a list in parts.
  pub index-append :
      (xs : List A) (y : A) (ys : List A) (n : ℕ) → n ≡ length xs → index (xs ++ (y ∷ ys)) n ≡ ok y
  unfolding index
  index-append [] y ys zero h = refl
  index-append [] y ys (suc n) h = absurd (omega arith)
  index-append (x ∷ xs) y ys zero h = absurd (omega arith)
  index-append (x ∷ xs) y ys (suc n) h = index-append xs y ys n (omega arith)

  pub slice-append :
      (xs ys zs : List A) (a b : ℕ)
      → a ≡ length xs
      → b ≡ a + length ys
      → slice (xs ++ (ys ++ zs)) a b ≡ ok ys
  slice-append xs ys zs a b h k =
      slice_lem (xs ++ (ys ++ zs)) a b (omega arith)
        (omega (arith, length-append xs (ys ++ zs), length-append ys zs))
      ∙ ap ok (rw (drop-append xs (ys ++ zs) a h) (take-append ys zs (b - a) (omega arith)))

  pub slice_from-append : (xs ys : List A) (a : ℕ) → a ≡ length xs → slice_from (xs ++ ys) a ≡ ok ys
  slice_from-append xs ys a h =
      slice_from_lem (xs ++ ys) a (omega (arith, length-append xs ys))
      ∙ ap ok (drop-append xs ys a h)

-- No panic, and if there is a result it satisfies `P`.
abbrev pub Yields {ℓ} : {A : Type ℓ} → (A → Type 0) → Result A → Type 0
Yields P (ok a) = P a
Yields P (err e) = Unit
Yields P panic = ⊥

pub Yields-bind {ℓ ℓ'} :
    {A : Type ℓ} {B : Type ℓ'} (P : A → Type 0) (Q : B → Type 0) (r : Result A) (f : A → Result B)
    → Yields P r
    → ((a : A) → P a → Yields Q (f a))
    → Yields Q (r >>= f)
Yields-bind P Q (ok a) f h k = k a h
Yields-bind P Q (err e) f h k = tt
Yields-bind P Q panic f h k = elim h [ ]

pub Yields-guard :
    {B : Type 0} (Q : B → Type 0) (b : Bool) (e : Error) (r : Result B)
    → (b ≡ true → Yields Q r)
    → Yields Q (guard b e >> r)
Yields-guard Q true e r k = k refl
Yields-guard Q false e r k = tt

pub Yields-if {ℓ} :
    {A : Type ℓ} (P : A → Type 0) (b : Bool) (r s : Result A)
    → Yields P r
    → Yields P s
    → Yields P (if b then r else s)
Yields-if P true r s h k = h
Yields-if P false r s h k = k

pub Yields-map {ℓ} :
    {A : Type ℓ} (P Q : A → Type 0) (r : Result A) → Yields P r → ((a : A) → P a → Q a) → Yields Q r
Yields-map P Q (ok a) h k = k a h
Yields-map P Q (err e) h k = tt
Yields-map P Q panic h k = h
