-- ===== src/Ca/Spdu/Codec.antt =====
-- `parse` against an independent description of the coding, in both directions.
use libdvb.Prelude.{
  ℕ, ◌/◌, ◌%◌, ◌<◌, ◌≡◌, ◌≢◌, List, [], ◌∷◌, ◌++◌, arith, u8, shr, IsByte, All, ok, panic, index,
  slice, slice_from,
}
use libdvb.Prelude.Bits.{be16_lem, be32_lem}
use libdvb.Ca.Spdu.{
  Spdu, session_number, open_session_request, create_session_response, close_session_request,
  close_session_response, parse, build_session_number, build_close_session_request,
  build_close_session_response,
}

-- The most significant byte first.
abbrev pub word : ℕ → List ℕ → List ℕ
word n rest = (n / 256) ∷ (n % 256) ∷ rest

abbrev pub word32 : ℕ → List ℕ → List ℕ
word32 n rest = (n / 16777216) ∷ (n / 65536 % 256) ∷ (n / 256 % 256) ∷ (n % 256) ∷ rest

-- The layouts of EN 50221 7.2 that a host receives, field by field.
pub layout : Spdu → List ℕ
layout (session_number session_id apdu) = 0x90 ∷ 2 ∷ word session_id apdu
layout (open_session_request resource_id) = 0x91 ∷ 4 ∷ word32 resource_id []
layout (create_session_response status resource_id session_id) =
    0x94 ∷ 7 ∷ status ∷ word32 resource_id (word session_id [])
layout (close_session_request session_id) = 0x95 ∷ 2 ∷ word session_id []
layout (close_session_response status session_id) = 0x96 ∷ 3 ∷ status ∷ word session_id []

-- The fields of an SPDU fit their widths.
abbrev pub Fits : Spdu → Type 0
Fits (session_number session_id apdu) = session_id < 65536
Fits (open_session_request resource_id) = resource_id < 4294967296
Fits (create_session_response status resource_id session_id) =
    (resource_id < 4294967296) × (session_id < 65536)
Fits (close_session_request session_id) = session_id < 65536
Fits (close_session_response status session_id) = session_id < 65536

-- Every SPDU that a module may send is parsed from its layout.
pub parse-layout : (s : Spdu) → Fits s → parse (layout s) ≡ ok s
unfolding parse layout index slice slice_from
parse-layout (session_number session_id apdu) h =
    ground (arith, be16_lem (session_id / 256) (session_id % 256))
parse-layout (open_session_request r) h =
    ground (arith, be32_lem (r / 16777216) (r / 65536 % 256) (r / 256 % 256) (r % 256))
parse-layout (create_session_response status r session_id) h = ground (
  arith,
  be32_lem (r / 16777216) (r / 65536 % 256) (r / 256 % 256) (r % 256),
  be16_lem (session_id / 256) (session_id % 256),
)
parse-layout (close_session_request session_id) h =
    ground (arith, be16_lem (session_id / 256) (session_id % 256))
parse-layout (close_session_response status session_id) h =
    ground (arith, be16_lem (session_id / 256) (session_id % 256))

-- On any input `parse` does not panic.
pub parse_safe : (bytes : List ℕ) → parse bytes ≢ panic
unfolding parse index slice slice_from
parse_safe [] e = cc
parse_safe (a ∷ []) e = ground arith
parse_safe (a ∷ b ∷ []) e = ground arith
parse_safe (a ∷ b ∷ c ∷ []) e = ground arith
parse_safe (a ∷ b ∷ c ∷ d ∷ []) e = ground arith
parse_safe (a ∷ b ∷ c ∷ d ∷ x ∷ []) e = ground arith
parse_safe (a ∷ b ∷ c ∷ d ∷ x ∷ y ∷ []) e = ground arith
parse_safe (a ∷ b ∷ c ∷ d ∷ x ∷ y ∷ z ∷ []) e = ground arith
parse_safe (a ∷ b ∷ c ∷ d ∷ x ∷ y ∷ z ∷ u ∷ []) e = ground arith
parse_safe (a ∷ b ∷ c ∷ d ∷ x ∷ y ∷ z ∷ u ∷ v ∷ rest) e = ground arith

-- What `parse` accepts on bytes is exactly the layout of what it returns, with nothing left over.
pub layout-parse :
    (bytes : List ℕ) (s : Spdu) → All IsByte bytes → parse bytes ≡ ok s → layout s ≡ bytes
unfolding parse layout index slice slice_from
layout-parse [] s h e = cc
layout-parse (a ∷ []) s h e = ground arith
layout-parse (a ∷ b ∷ []) s h e = ground arith
layout-parse (a ∷ b ∷ c ∷ []) s h e = ground arith
layout-parse (a ∷ b ∷ c ∷ d ∷ []) s h e = ground (arith, be16_lem c d)
layout-parse (a ∷ b ∷ c ∷ d ∷ x ∷ []) s h e = ground (arith, be16_lem c d, be16_lem d x)
layout-parse (a ∷ b ∷ c ∷ d ∷ x ∷ y ∷ []) s h e = ground (arith, be16_lem c d, be32_lem c d x y)
layout-parse (a ∷ b ∷ c ∷ d ∷ x ∷ y ∷ z ∷ []) s h e = ground (arith, be16_lem c d)
layout-parse (a ∷ b ∷ c ∷ d ∷ x ∷ y ∷ z ∷ u ∷ []) s h e = ground (arith, be16_lem c d)
layout-parse (a ∷ b ∷ c ∷ d ∷ x ∷ y ∷ z ∷ u ∷ v ∷ []) s h e =
    ground (arith, be16_lem c d, be32_lem d x y z, be16_lem u v)
layout-parse (a ∷ b ∷ c ∷ d ∷ x ∷ y ∷ z ∷ u ∷ v ∷ w ∷ rest) s h e = ground (arith, be16_lem c d)

-- The host's own close requests and responses, and the header that it puts before an APDU, are
-- layouts that the other side can parse.
pub parse-build :
    (status session_id : ℕ) (apdu : List ℕ)
    → session_id < 65536
    → (parse (build_session_number session_id ++ apdu) ≡ ok (session_number session_id apdu))
      × (parse (build_close_session_request session_id) ≡ ok (close_session_request session_id))
      × (parse (build_close_session_response status session_id)
          ≡ ok (close_session_response status session_id))
unfolding parse index slice slice_from build_session_number build_close_session_request
    build_close_session_response
parse-build status session_id apdu h =
    let wide = be16_lem (u8 (shr session_id 8)) (u8 session_id) in
    (ground (arith, wide), ground (arith, wide), ground (arith, wide))
