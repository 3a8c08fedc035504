-- ===== src/Ca/Tpdu/Build.antt =====
-- What `build` writes.
use libdvb.Prelude.{
  ℕ, ◌+◌, ◌≤◌, ◌<◌, ◌≡◌, true, List, [], ◌∷◌, ◌++◌, arith, length, length-append, get_elem?, some,
  ok,
}
use libdvb.Ca.Asn1.{encode, encode-append, length-encode, coded_size, coded_size_bounds}
use libdvb.Ca.Tpdu.{build, max_tpdu_size, max_tpdu_data, is_data}

-- The frame of a payload that fits: the header, the coded length, the connection, the payload.
abbrev pub data_frame : ℕ → ℕ → List ℕ → List ℕ
data_frame slot_id tag payload =
    slot_id ∷ (slot_id + 1) ∷ tag ∷ (encode (length payload + 1) [] ++ ((slot_id + 1) ∷ payload))

pub build_data :
    (slot_id tag : ℕ) (payload : List ℕ)
    → slot_id < 255
    → is_data tag ≡ true
    → length payload ≤ max_tpdu_data
    → build slot_id tag payload ≡ ok (data_frame slot_id tag payload)
unfolding build
build_data slot_id tag payload hs ht hl =
    ground (arith, encode-append (length payload + 1) (slot_id ∷ (slot_id + 1) ∷ tag ∷ []))

pub length-data_frame :
    (slot_id tag : ℕ) (payload : List ℕ)
    → length (data_frame slot_id tag payload) ≡ 4 + coded_size (length payload + 1) + length payload
length-data_frame slot_id tag payload = omega (
  arith,
  length-append (encode (length payload + 1) []) ((slot_id + 1) ∷ payload),
  length-encode (length payload + 1),
)

-- A frame that `build` returns fits the link: its size is at most `MAX_TPDU_SIZE`. It begins with
-- the slot, the transport connection and the tag.
pub length-build :
    (slot_id tag : ℕ) (payload frame : List ℕ)
    → build slot_id tag payload ≡ ok frame
    → (length frame ≤ max_tpdu_size)
      × (get_elem? frame 0 ≡ some slot_id)
      × (get_elem? frame 1 ≡ some (slot_id + 1))
      × (get_elem? frame 2 ≡ some tag)
unfolding build
length-build slot_id tag payload frame e = ground (
  arith,
  length-data_frame slot_id tag payload,
  coded_size_bounds (length payload + 1),
  encode-append (length payload + 1) (slot_id ∷ (slot_id + 1) ∷ tag ∷ []),
)
