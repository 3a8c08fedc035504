-- ===== src/Ca/Tpdu.antt =====
-- src/ca/tpdu.rs: the frames of the transport layer. A tag is the number that `TpduTag` wraps.
mod Tests
pub mod Parse
pub mod Build
pub mod RoundTrip
use libdvb.Prelude.{
  ℕ, ◌+◌, ◌-◌, ◌<◌, bit_and, Bool, true, false, not, ◌||◌, ◌&&◌, List, [], ◌∷◌, ◌++◌, ltb, leb,
  ◌==◌, if◌then◌else◌, u16, length, Option, none, some, Result, ok, err, panic, ◌>>=◌, ◌>>◌, guard,
  invalid_data, invalid_property, index, slice, slice_from,
}
use libdvb.Ca.Asn1

abbrev pub max_tpdu_size : ℕ
max_tpdu_size = 2048

abbrev pub max_tpdu_data : ℕ
max_tpdu_data = max_tpdu_size - 7

abbrev pub data_indicator_bit : ℕ
data_indicator_bit = 0x80

-- `TpduTag`
abbrev pub sb : ℕ
sb = 0x80

abbrev pub rcv : ℕ
rcv = 0x81

abbrev pub create_tc : ℕ
create_tc = 0x82

abbrev pub ctc_reply : ℕ
ctc_reply = 0x83

abbrev pub delete_tc : ℕ
delete_tc = 0x84

abbrev pub dtc_reply : ℕ
dtc_reply = 0x85

abbrev pub request_tc : ℕ
request_tc = 0x86

abbrev pub new_tc : ℕ
new_tc = 0x87

abbrev pub tc_error : ℕ
tc_error = 0x88

abbrev pub data_last : ℕ
data_last = 0xA0

abbrev pub data_more : ℕ
data_more = 0xA1

abbrev pub is_data : ℕ → Bool
is_data tag = tag == data_last || tag == data_more

-- The arm of `NEW_TC` and `TC_ERROR`.
build_extra : ℕ → ℕ → ℕ → List ℕ → Result (List ℕ)
build_extra slot_id t_c_id tag [] = err invalid_property
build_extra slot_id t_c_id tag (extra ∷ rest) =
    ok (slot_id ∷ t_c_id ∷ tag ∷ 2 ∷ t_c_id ∷ extra ∷ [])

-- The `match` of `build`, with `t_c_id` computed.
build_tag : ℕ → ℕ → ℕ → List ℕ → Result (List ℕ)
unfolding build_extra
build_tag slot_id t_c_id tag payload =
    if tag == rcv
      || tag == create_tc
      || tag == ctc_reply
      || tag == delete_tc
      || tag == dtc_reply
      || tag == request_tc
    then ok (slot_id ∷ t_c_id ∷ tag ∷ 1 ∷ t_c_id ∷ [])
    else if tag == new_tc || tag == tc_error
    then build_extra slot_id t_c_id tag payload
    else if is_data tag
    then (if ltb max_tpdu_data (length payload)
        then err invalid_property
        else ok (
            Asn1.encode (u16 (length payload) + 1) (slot_id ∷ t_c_id ∷ tag ∷ [])
            ++ (t_c_id ∷ payload)))
    else err invalid_property

-- `slot_id` is a `u8`: `checked_add(1)` fails at 255.
pub build : ℕ → ℕ → List ℕ → Result (List ℕ)
unfolding build_tag
build slot_id tag payload =
    if ltb slot_id 255 then build_tag slot_id (slot_id + 1) tag payload else err invalid_property

pub record RTpdu : Type 0 where
  pub slot_id : ℕ
  pub tag : ℕ
  pub body : List ℕ
  pub data_indicator : Bool

unfoldable pub frame_slot_id : List ℕ → ℕ → Option ℕ
frame_slot_id [] slots_num = none
frame_slot_id (slot_id ∷ rest) slots_num = if ltb slot_id slots_num then some slot_id else none

-- The status object at the end of a frame, `[SB, 2, t_c_id, status]`.
parse_trailer : List ℕ → ℕ → Result Bool
parse_trailer frame t_c_id = do
  trailer ← slice_from frame (length frame - 4)
  a ← index trailer 0
  b ← index trailer 1
  c ← index trailer 2
  guard (a == sb && b == 2 && c == t_c_id) invalid_data
  status ← index trailer 3
  ok (not (bit_and status data_indicator_bit == 0))

-- The arm of `DATA_LAST` and `DATA_MORE`.
parse_data : List ℕ → ℕ → Result (List ℕ)
parse_data frame t_c_id = do
  coded ← slice_from frame 3
  (declared_len, asn1_size) ← Asn1.decode coded
  guard (leb 1 declared_len && 3 + asn1_size + declared_len + 4 == length frame) invalid_data
  echo ← index frame (3 + asn1_size)
  guard (echo == t_c_id) invalid_data
  let body_start = 3 + asn1_size + 1
  slice frame body_start (body_start + declared_len - 1)

-- The arms that carry no body: a frame of one size, with the two bytes after the tag fixed.
parse_fixed : List ℕ → ℕ → ℕ → ℕ → Result (List ℕ)
parse_fixed frame t_c_id size declared = do
  guard (length frame == size) invalid_data
  a ← index frame 3
  guard (a == declared) invalid_data
  b ← index frame 4
  guard (b == t_c_id) invalid_data
  ok []

parse_body : List ℕ → ℕ → ℕ → Result (List ℕ)
parse_body frame t_c_id tag =
    if is_data tag
    then parse_data frame t_c_id
    else if tag == sb
    then (if length frame == 6 then ok [] else err invalid_data)
    else if tag == ctc_reply || tag == dtc_reply || tag == request_tc
    then parse_fixed frame t_c_id 9 1
    else if tag == new_tc || tag == tc_error
    then parse_fixed frame t_c_id 10 2
    else err invalid_data

pub parse : List ℕ → ℕ → Result RTpdu
parse frame slots_num = do
  guard (leb 5 (length frame)) invalid_data
  t_c_id ← index frame 1
  guard (leb 1 t_c_id && leb t_c_id slots_num) invalid_data
  let slot_id = t_c_id - 1
  first ← index frame 0
  guard (first == slot_id) invalid_data
  tag ← index frame 2
  data_indicator ← parse_trailer frame t_c_id
  body ← parse_body frame t_c_id tag
  ok (record { slot_id = slot_id; tag = tag; body = body; data_indicator = data_indicator })
