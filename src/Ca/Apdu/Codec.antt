-- ===== src/Ca/Apdu/Codec.antt =====
-- `build` and `parse_at` are inverse.
use libdvb.Prelude.{
  ℕ, ◌+◌, ◌-◌, ◌<◌, ◌≤◌, ◌≡◌, refl, ap, List, [], ◌∷◌, ◌++◌, append_assoc, arith, u8, u16, shr,
  length, length-append, length-drop, take, drop, drop-append, take-append, ◌⊎◌, inl, inr, Error,
  Result-cases, ok, err, some, get_slice, index, slice_from, le→leb, invalid_data, length-take,
}
use native.Mathlib.Decide.{dec_le}
use libdvb.Prelude.Bits.{be24, be24_lem}
use libdvb.Ca.Asn1.{
  encode, encode-append, length-encode, coded_size, decode, decode-encode, decode-consumed,
  decode-ne-panic,
}
use libdvb.Ca.Apdu.{Apdu, parse_at, build}

get_slice-append :
    (xs ys zs : List ℕ) (a b : ℕ)
    → a ≡ length xs
    → b ≡ a + length ys
    → get_slice (xs ++ (ys ++ zs)) a b ≡ some ys
unfolding get_slice
get_slice-append xs ys zs a b h k =
    rw
      (
        le→leb a b (omega arith),
        le→leb b (length (xs ++ (ys ++ zs)))
            (omega (arith, length-append xs (ys ++ zs), length-append ys zs)),
        drop-append xs (ys ++ zs) a h,
      )
      (ap some (take-append ys zs (b - a) (omega arith)))

-- The coding of an APDU: three bytes of tag, the length, the body.
abbrev pub layout : ℕ → List ℕ → List ℕ
layout tag body =
    u8 (shr tag 16) ∷ u8 (shr tag 8) ∷ u8 tag ∷ (encode (u16 (length body)) [] ++ body)

pub build-layout :
    (out : List ℕ) (tag : ℕ) (body : List ℕ) → build out tag body ≡ out ++ layout tag body
unfolding build
build-layout out tag body = ground (
  arith,
  encode-append (u16 (length body)) (out ++ (u8 (shr tag 16) ∷ u8 (shr tag 8) ∷ u8 tag ∷ [])),
  append_assoc out (u8 (shr tag 16) ∷ u8 (shr tag 8) ∷ u8 tag ∷ []) (encode (u16 (length body)) []),
  append_assoc out (u8 (shr tag 16) ∷ u8 (shr tag 8) ∷ u8 tag ∷ encode (u16 (length body)) []) body,
)

pub length-layout :
    (tag : ℕ) (body : List ℕ)
    → length body < 65536
    → length (layout tag body) ≡ 3 + coded_size (length body) + length body
length-layout tag body h =
    ground
      (arith, length-append (encode (u16 (length body)) []) body, length-encode (u16 (length body)))

pub parse_at-layout :
    (tag : ℕ) (body rest : List ℕ)
    → tag < 16777216
    → length body < 65536
    → parse_at (layout tag body ++ rest)
      ≡ ok (record { tag = tag; body = body }, length (layout tag body))
unfolding parse_at index slice_from
parse_at-layout tag body rest ht hb =
    let coded = encode (u16 (length body)) [] in
    ground (
      arith,
      be24_lem (u8 (shr tag 16)) (u8 (shr tag 8)) (u8 tag),
      append_assoc coded body rest,
      length-append coded body,
      decode-encode (length body) (body ++ rest),
      get_slice-append [] (u8 (shr tag 16) ∷ u8 (shr tag 8) ∷ u8 tag ∷ []) (coded ++ (body ++ rest))
          0 3,
      get_slice-append (u8 (shr tag 16) ∷ u8 (shr tag 8) ∷ u8 tag ∷ coded) body rest
          (3 + length coded) (3 + length coded + length body),
    )

-- What `build` appends for a 24-bit tag and a body that fits the length field is read back as that
-- tag and body, with the size of the coding, whatever follows.
pub parse_at-build :
    (tag : ℕ) (body rest : List ℕ)
    → tag < 16777216
    → length body < 65536
    → parse_at (build [] tag body ++ rest)
      ≡ ok (record { tag = tag; body = body }, length (build [] tag body))
parse_at-build tag body rest ht hb =
    rw (build-layout [] tag body) (parse_at-layout tag body rest ht hb)

abbrev found : ℕ → ℕ → ℕ → List ℕ → ℕ → ℕ → Apdu
found a b c bytes len consumed = record {
  tag = be24 a b c;
  body = take (3 + consumed + len - (3 + consumed)) (drop (3 + consumed) (a ∷ b ∷ c ∷ bytes));
}

-- The second lookup of `parse_at`, once the length is decoded.
parse_at_decoded :
    (a b c : ℕ) (bytes : List ℕ) (len consumed : ℕ)
    → decode bytes ≡ ok (len, consumed)
    → consumed + len ≤ length bytes
    → parse_at (a ∷ b ∷ c ∷ bytes) ≡ ok (found a b c bytes len consumed, 3 + consumed + len)
unfolding parse_at index slice_from get_slice
parse_at_decoded a b c bytes len consumed d h = ground (arith, d)

parse_at_truncated :
    (a b c : ℕ) (bytes : List ℕ) (len consumed : ℕ)
    → decode bytes ≡ ok (len, consumed)
    → length bytes < consumed + len
    → parse_at (a ∷ b ∷ c ∷ bytes) ≡ err invalid_data
unfolding parse_at index slice_from get_slice
parse_at_truncated a b c bytes len consumed d h = ground (arith, d)

parse_at_failed :
    (a b c : ℕ) (bytes : List ℕ) (e : Error)
    → decode bytes ≡ err e
    → parse_at (a ∷ b ∷ c ∷ bytes) ≡ err e
unfolding parse_at index slice_from get_slice
parse_at_failed a b c bytes e d = ground (arith, d)

length-found :
    (a b c : ℕ) (bytes : List ℕ) (len consumed : ℕ)
    → consumed + len ≤ length bytes
    → length (found a b c bytes len consumed).body ≡ len
length-found a b c bytes len consumed h = omega (
  arith,
  length-take (3 + consumed + len - (3 + consumed)) (drop (3 + consumed) (a ∷ b ∷ c ∷ bytes)),
  length-drop (3 + consumed) (a ∷ b ∷ c ∷ bytes),
)

-- Either an error, or an APDU and its size, which lie within the input: the size counts the tag, a
-- length field of one to three bytes and the body, and is at most what the input has.
pub parse_at_cases :
    (bytes : List ℕ)
    → ((apdu : Apdu) × (size : ℕ) × (parse_at bytes ≡ ok (apdu, size))
        × (4 + length apdu.body ≤ size)
        × (size ≤ 6 + length apdu.body)
        × (size ≤ length bytes))
      ⊎ ((e : Error) × (parse_at bytes ≡ err e))
unfolding get_slice
parse_at_cases [] = inr (invalid_data, unfold parse_at in refl)
parse_at_cases (a ∷ []) = inr (invalid_data, unfold parse_at in refl)
parse_at_cases (a ∷ b ∷ []) = inr (invalid_data, unfold parse_at in refl)
parse_at_cases (a ∷ b ∷ c ∷ bytes) = elim (Result-cases (decode bytes)) [
  | inl ((len, consumed), d) ↦ elim (dec_le (consumed + len) (length bytes)) [
    | yes fits ↦
        let size_eq = length-found a b c bytes len consumed fits in
        let read = decode-consumed bytes len consumed d in
        inl (
          found a b c bytes len consumed,
          3 + consumed + len,
          parse_at_decoded a b c bytes len consumed d fits,
          omega arith,
          omega arith,
          omega arith,
        )
    | no short ↦ inr (invalid_data, parse_at_truncated a b c bytes len consumed d (omega arith))
  ]
  | inr (inl (e, d)) ↦ inr (e, parse_at_failed a b c bytes e d)
  | inr (inr d) ↦ absurd (decode-ne-panic bytes d)
]
