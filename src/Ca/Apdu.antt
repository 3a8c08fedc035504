-- ===== src/Ca/Apdu.antt =====
-- src/ca/apdu.rs: application protocol data units. A tag is the number that `ApduTag` wraps.
mod Tests
pub mod Codec
pub mod Iter
pub mod Tags
use libdvb.Prelude.{
  ℕ, zero, suc, ◌+◌, List, [], ◌∷◌, ◌++◌, u8, u16, shr, length, Option, none, some, Result, Error,
  ok, err, panic, ◌>>=◌, ok_or, invalid_data, get_slice, index, slice_from,
}
use mathlib.Core.Option
use libdvb.Prelude.Bits.{be24}
use libdvb.Ca.Asn1

abbrev pub apdu_tag_size : ℕ
apdu_tag_size = 3

pub record Apdu : Type 0 where
  pub tag : ℕ
  pub body : List ℕ

-- The APDU at the start of the input, and its size.
pub parse_at : List ℕ → Result (Apdu × ℕ)
parse_at bytes = do
  tag_bytes ← ok_or (get_slice bytes 0 apdu_tag_size) invalid_data
  a ← index tag_bytes 0
  b ← index tag_bytes 1
  c ← index tag_bytes 2
  let tag = be24 a b c
  coded ← slice_from bytes apdu_tag_size
  (len, consumed) ← Asn1.decode coded
  let body_start = apdu_tag_size + consumed
  let body_end = body_start + len
  body ← ok_or (get_slice bytes body_start body_end) invalid_data
  ok (record { tag = tag; body = body }, body_end)

-- `build` appends to `out`.
pub build : List ℕ → ℕ → List ℕ → List ℕ
build out tag body =
    Asn1.encode (u16 (length body)) (out ++ (u8 (shr tag 16) ∷ u8 (shr tag 8) ∷ u8 tag ∷ []))
    ++ body

-- `ApduIter` is the bytes that are left. `next` gives an item, if there is one, and what is left.
next_after : List ℕ → Result (Apdu × ℕ) → Result (Option (Result Apdu) × List ℕ)
next_after bytes (ok (apdu, size)) = do rest ← slice_from bytes size; ok (some (ok apdu), rest)
next_after bytes (err e) = ok (some (err e), [])
next_after bytes panic = panic

pub next : List ℕ → Result (Option (Result Apdu) × List ℕ)
unfolding next_after
next [] = ok (none, [])
next (b ∷ bytes) = next_after (b ∷ bytes) (parse_at (b ∷ bytes))

-- What a `for` loop over the iterator sees. Each round that yields an item takes at least one byte,
-- so one round more than there are bytes is enough; `none` is a loop that is not done by then.
pub collect : ℕ → List ℕ → Option (List (Result Apdu))
collect zero bytes = none
collect (suc fuel) bytes = elim (next bytes) [
  | ok (none, rest) ↦ some []
  | ok (some item, rest) ↦ Option.map (λ items. item ∷ items) (collect fuel rest)
  | err e ↦ none
  | panic ↦ none
]

pub iter : List ℕ → Option (List (Result Apdu))
iter bytes = collect (suc (length bytes)) bytes
