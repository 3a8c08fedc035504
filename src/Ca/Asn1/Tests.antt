-- ===== src/Ca/Asn1/Tests.antt =====
-- The theorems on lengths at some inputs.
use libdvb.Prelude.{◌<◌, ◌≤◌, ◌≡◌, refl, arith, [], ◌∷◌, ◌++◌, ok, length}
use libdvb.Ca.Asn1.{encode, decode, decode-encode, decode_bounds}

decode_300 : decode (0x82 ∷ 1 ∷ 44 ∷ []) ≡ ok (300, 3)
unfolding decode
decode_300 = refl

decode-encode_example : decode (encode 300 [] ++ (7 ∷ [])) ≡ ok (300, length (encode 300 []))
decode-encode_example = decode-encode 300 (7 ∷ []) (omega arith)

decode_bounds_example : (300 < 65536) × (1 ≤ 3) × (3 ≤ 3) × (3 ≤ 3)
decode_bounds_example =
    decode_bounds (0x82 ∷ 1 ∷ 44 ∷ []) 300 3 (omega arith, (omega arith, (omega arith, tt)))
      decode_300
