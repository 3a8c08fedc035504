-- ===== src/Ca/Spdu.antt =====
-- src/ca/spdu.rs: session protocol data units. A tag is the number that `SpduTag` wraps.
mod Tests
pub mod Codec
use libdvb.Prelude.{
  ℕ, ◌+◌, ◌-◌, Bool, true, false, List, [], ◌∷◌, ltb, leb, ◌==◌, if◌then◌else◌, u8, shr, length,
  Result, ok, err, panic, ◌>>=◌, ◌>>◌, guard, invalid_data, index, slice, slice_from,
}
use libdvb.Prelude.Bits.{be16, be32}
use libdvb.Ca.ResourceId.{ResourceId}

abbrev pub spdu_header_size : ℕ
spdu_header_size = 4

-- Open Session Status values.
abbrev pub ss_ok : ℕ
ss_ok = 0x00

abbrev pub ss_not_allocated : ℕ
ss_not_allocated = 0xF0

abbrev pub ss_lower_version : ℕ
ss_lower_version = 0xF2

abbrev pub ss_busy : ℕ
ss_busy = 0xF3

-- `SpduTag`
abbrev pub session_number_tag : ℕ
session_number_tag = 0x90

abbrev pub open_session_request_tag : ℕ
open_session_request_tag = 0x91

abbrev pub open_session_response_tag : ℕ
open_session_response_tag = 0x92

abbrev pub create_session_response_tag : ℕ
create_session_response_tag = 0x94

abbrev pub close_session_request_tag : ℕ
close_session_request_tag = 0x95

abbrev pub close_session_response_tag : ℕ
close_session_response_tag = 0x96

pub data Spdu : Type 0 where
  session_number : (session_id : ℕ) (apdu : List ℕ) → Spdu
  open_session_request : (resource_id : ResourceId) → Spdu
  create_session_response : (status : ℕ) (resource_id : ResourceId) (session_id : ℕ) → Spdu
  close_session_request : (session_id : ℕ) → Spdu
  close_session_response : (status session_id : ℕ) → Spdu

read_u16 : List ℕ → Result ℕ
read_u16 bytes = do a ← index bytes 0; b ← index bytes 1; ok (be16 a b)

read_u32 : List ℕ → Result ℕ
read_u32 bytes = do
  a ← index bytes 0
  b ← index bytes 1
  c ← index bytes 2
  d ← index bytes 3
  ok (be32 a b c d)

-- The closure `check`: `data[1]` is read only where the size is right.
check : List ℕ → ℕ → Bool → Result (Unit {0})
check bytes size exact =
    if (if exact then length bytes == size else leb size (length bytes))
    then (do declared ← index bytes 1; guard (declared == u8 (size - 2)) invalid_data)
    else err invalid_data

-- The `match` on the tag.
parse_tag : ℕ → List ℕ → Result Spdu
parse_tag tag bytes =
    if tag == session_number_tag
    then (do
      check bytes spdu_header_size false
      session_id ← read_u16 (← slice bytes 2 4)
      apdu ← slice_from bytes spdu_header_size
      ok (session_number session_id apdu))
    else if tag == open_session_request_tag
    then (do
      check bytes 6 true
      resource_id ← read_u32 (← slice bytes 2 6)
      ok (open_session_request resource_id))
    else if tag == create_session_response_tag
    then (do
      check bytes 9 true
      status ← index bytes 2
      resource_id ← read_u32 (← slice bytes 3 7)
      session_id ← read_u16 (← slice bytes 7 9)
      ok (create_session_response status resource_id session_id))
    else if tag == close_session_request_tag
    then (do
      check bytes 4 true
      session_id ← read_u16 (← slice bytes 2 4)
      ok (close_session_request session_id))
    else if tag == close_session_response_tag
    then (do
      check bytes 5 true
      status ← index bytes 2
      session_id ← read_u16 (← slice bytes 3 5)
      ok (close_session_response status session_id))
    else err invalid_data

pub parse : List ℕ → Result Spdu
unfolding parse_tag check read_u16 read_u32
parse [] = err invalid_data
parse (tag ∷ rest) = parse_tag tag (tag ∷ rest)

pub build_session_number : ℕ → List ℕ
build_session_number session_id =
    session_number_tag ∷ 2 ∷ u8 (shr session_id 8) ∷ u8 session_id ∷ []

pub build_open_session_response : ℕ → ResourceId → ℕ → List ℕ
build_open_session_response status resource_id session_id =
    open_session_response_tag
    ∷ 7
    ∷ status
    ∷ u8 (shr resource_id 24)
    ∷ u8 (shr resource_id 16)
    ∷ u8 (shr resource_id 8)
    ∷ u8 resource_id
    ∷ u8 (shr session_id 8)
    ∷ u8 session_id
    ∷ []

pub build_close_session_request : ℕ → List ℕ
build_close_session_request session_id =
    close_session_request_tag ∷ 2 ∷ u8 (shr session_id 8) ∷ u8 session_id ∷ []

pub build_close_session_response : ℕ → ℕ → List ℕ
build_close_session_response status session_id =
    close_session_response_tag ∷ 3 ∷ status ∷ u8 (shr session_id 8) ∷ u8 session_id ∷ []
