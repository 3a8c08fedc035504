-- ===== src/Ca/Asn1.antt =====
-- src/ca/asn1.rs: the coding of a length field in one to three bytes.
mod Tests
use libdvb.Prelude.{
  ℕ, ◌+◌, ◌%◌, ◌≤◌, ◌<◌, bit_or, ◌≡◌, refl, true, List, [], ◌∷◌, ◌++◌, arith, ltb, ◌==◌,
  if◌then◌else◌, u8, shl, shr, length, IsByte, All, Result, ok, err, panic, invalid_data, ◌≢◌,
}
use libdvb.Prelude.Bits.{bit_or_disjoint}

abbrev pub size_indicator : ℕ
size_indicator = 0x80

-- `encode` appends to `out`; `value` is a `u16`.
pub encode : ℕ → List ℕ → List ℕ
encode value out =
    if ltb value size_indicator
    then out ++ (u8 value ∷ [])
    else if ltb value 0x100
    then out ++ ((size_indicator + 1) ∷ u8 value ∷ [])
    else out ++ ((size_indicator + 2) ∷ u8 (shr value 8) ∷ u8 value ∷ [])

-- The arms of the `match`: `data.get(1)` and `data.get(1 .. 3)` on what follows the first byte.
decode_one : List ℕ → Result (ℕ × ℕ)
decode_one [] = err invalid_data
decode_one (b ∷ rest) = ok (b, 2)

decode_two : List ℕ → Result (ℕ × ℕ)
decode_two [] = err invalid_data
decode_two (a ∷ []) = err invalid_data
decode_two (a ∷ b ∷ rest) = ok (bit_or (shl a 8) b, 3)

-- The value and the number of bytes read.
pub decode : List ℕ → Result (ℕ × ℕ)
unfolding decode_one decode_two
decode [] = err invalid_data
decode (first ∷ rest) =
    if ltb first size_indicator
    then ok (first, 1)
    else if first == 0x81
    then decode_one rest
    else if first == 0x82
    then decode_two rest
    else err invalid_data

-- How many bytes a length takes.
pub coded_size : ℕ → ℕ
coded_size value = if ltb value 0x80 then 1 else if ltb value 0x100 then 2 else 3

pub encode-append : (value : ℕ) (out : List ℕ) → encode value out ≡ out ++ encode value []
unfolding encode
encode-append value out = ground arith

pub length-encode : (value : ℕ) → length (encode value []) ≡ coded_size value
unfolding encode coded_size
length-encode value = ground arith

-- What `encode` writes for a `u16` is read back by `decode` as that value, with the size of the
-- coding, whatever bytes follow.
pub decode-encode :
    (value : ℕ) (rest : List ℕ)
    → value < 65536
    → decode (encode value [] ++ rest) ≡ ok (value, length (encode value []))
unfolding encode decode
decode-encode value rest h = ground (arith, bit_or_disjoint 8 (u8 (shr value 8)) (u8 value))

-- A length that `decode` accepts on bytes is a `u16`, and the bytes that it says it read are there:
-- one to three of them, and as many as the input has at most.
pub decode_bounds :
    (bytes : List ℕ) (value consumed : ℕ)
    → All IsByte bytes
    → decode bytes ≡ ok (value, consumed)
    → (value < 65536) × (1 ≤ consumed) × (consumed ≤ 3) × (consumed ≤ length bytes)
unfolding decode
decode_bounds [] value consumed h e = cc
decode_bounds (a ∷ []) value consumed h e = ground arith
decode_bounds (a ∷ b ∷ []) value consumed h e = ground arith
decode_bounds (a ∷ b ∷ c ∷ rest) value consumed h e = ground (arith, bit_or_disjoint 8 b c)

pub coded_size_bounds : (value : ℕ) → (1 ≤ coded_size value) × (coded_size value ≤ 3)
unfolding coded_size
coded_size_bounds value = ground arith

-- With no condition on the bytes.
pub decode-consumed :
    (bytes : List ℕ) (value consumed : ℕ)
    → decode bytes ≡ ok (value, consumed)
    → (1 ≤ consumed) × (consumed ≤ 3) × (consumed ≤ length bytes)
unfolding decode
decode-consumed [] value consumed h = cc
decode-consumed (a ∷ []) value consumed h = ground arith
decode-consumed (a ∷ b ∷ []) value consumed h = ground arith
decode-consumed (a ∷ b ∷ c ∷ rest) value consumed h = ground arith

pub decode-ne-panic : (bytes : List ℕ) → decode bytes ≢ panic
unfolding decode
decode-ne-panic [] h = cc
decode-ne-panic (a ∷ []) h = ground arith
decode-ne-panic (a ∷ b ∷ []) h = ground arith
decode-ne-panic (a ∷ b ∷ c ∷ rest) h = ground arith
