-- ===== src/Ca/Apdu/Iter.antt =====
-- The iterator ends, and gives back the APDUs that were packed into one SPDU.
use libdvb.Prelude.{
  ℕ, zero, suc, ◌<◌, ◌≤◌, ◌≡◌, ◌≢◌, refl, sym, ◌∙◌, List, [], ◌∷◌, ◌++◌, append-nil, append_assoc,
  arith, length, length-append, length-drop, drop, All, inl, inr, some, Result, ok, err, panic,
  slice_from_lem, slice_from-append,
}
use libdvb.Ca.Apdu.{Apdu, next, next_after, collect, iter, build}
use libdvb.Ca.Apdu.Codec.{layout, parse_at_cases, parse_at-layout, build-layout}
use mathlib.Core.List.{map}

-- One call of `next` on bytes that are left: an item, and less is left.
next_cases :
    (b : ℕ) (bytes : List ℕ)
    → (item : Result Apdu) × (rest : List ℕ) × (next (b ∷ bytes) ≡ ok (some item, rest))
      × (length rest ≤ length bytes)
      × (item ≢ panic)
unfolding next
next_cases b bytes = elim (parse_at_cases (b ∷ bytes)) [
  | inl (apdu, size, e, lo, hi, fits) ↦ (
    ok apdu,
    drop size (b ∷ bytes),
    rw (e, next_after) (ground (arith, slice_from_lem (b ∷ bytes) size fits)),
    omega (arith, length-drop size (b ∷ bytes)),
    λ p. cc,
  )
  | inr (x, e) ↦ (err x, [], rw (e, next_after) refl, omega arith, λ p. cc)
]

collect_step :
    (fuel b : ℕ) (bytes : List ℕ) (item : Result Apdu) (rest : List ℕ) (items : List (Result Apdu))
    → next (b ∷ bytes) ≡ ok (some item, rest)
    → collect fuel rest ≡ some items
    → collect (suc fuel) (b ∷ bytes) ≡ some (item ∷ items)
unfolding collect
collect_step fuel b bytes item rest items e done = ground (arith, e, done)

collect_done :
    (fuel : ℕ) (bytes : List ℕ)
    → length bytes < fuel
    → (items : List (Result Apdu)) × (collect fuel bytes ≡ some items)
      × (length items ≤ length bytes)
unfolding collect
collect_done zero bytes h = absurd (omega arith)
collect_done (suc fuel) [] h = ([], unfold next in refl, omega arith)
collect_done (suc fuel) (b ∷ bytes) h =
    let (item, rest, e, less, sound) = next_cases b bytes in
    let (items, done, few) = collect_done fuel rest (omega arith) in
    (item ∷ items, collect_step fuel b bytes item rest items e done, omega arith)

-- The loop over an SPDU's payload ends on every input, with at most one item for each byte: the
-- iterator does not run on for ever and no slice that it takes panics.
pub iter_total :
    (bytes : List ℕ)
    → (items : List (Result Apdu)) × (iter bytes ≡ some items) × (length items ≤ length bytes)
unfolding iter
iter_total bytes = collect_done (suc (length bytes)) bytes (omega arith)

-- Successive calls of `build` on one buffer.
abbrev pub pack : List ℕ → List Apdu → List ℕ
pack out [] = out
pack out (a ∷ list) = pack (build out a.tag a.body) list

abbrev layouts : List Apdu → List ℕ
layouts [] = []
layouts (a ∷ list) = layout a.tag a.body ++ layouts list

pack-layouts : (out : List ℕ) (list : List Apdu) → pack out list ≡ out ++ layouts list
pack-layouts out [] = sym (append-nil out)
pack-layouts out (a ∷ list) =
    pack-layouts (build out a.tag a.body) list
    ∙ rw (build-layout out a.tag a.body) (append_assoc out (layout a.tag a.body) (layouts list))

-- The tag has 24 bits, and the body fits the length field.
abbrev pub Encodable : Apdu → Type 0
Encodable a = (a.tag < 16777216) × (length a.body < 65536)

next-layout :
    (a : Apdu) (rest : List ℕ)
    → Encodable a
    → next (layout a.tag a.body ++ rest) ≡ ok (some (ok a), rest)
unfolding next
next-layout a rest h =
    rw (parse_at-layout a.tag a.body rest h.0 h.1, next_after)
      (rw (slice_from-append (layout a.tag a.body) rest (length (layout a.tag a.body)) refl) refl)

collect-layouts :
    (fuel : ℕ) (list : List Apdu)
    → All Encodable list
    → length (layouts list) < fuel
    → collect fuel (layouts list) ≡ some (map ok list)
unfolding collect
collect-layouts zero list h k = absurd (omega arith)
collect-layouts (suc fuel) [] h k = unfold next in refl
collect-layouts (suc fuel) (a ∷ list) h k =
    collect_step fuel _ _ (ok a) (layouts list) (map ok list) (next-layout a (layouts list) h.0) (
      collect-layouts fuel list h.1
        (omega (arith, length-append (layout a.tag a.body) (layouts list))))

-- APDUs packed one after the other into a buffer come out of the iterator as they went in, in order,
-- and nothing else does.
pub iter-pack : (list : List Apdu) → All Encodable list → iter (pack [] list) ≡ some (map ok list)
unfolding iter
iter-pack list h = rw (pack-layouts [] list) (collect-layouts _ list h (omega arith))
