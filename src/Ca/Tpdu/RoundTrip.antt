-- ===== src/Ca/Tpdu/RoundTrip.antt =====
-- The frames of both directions share their layout: what is built as a data frame is parsed back.
use libdvb.Prelude.{
  ℕ, ◌+◌, ◌-◌, ◌<◌, ◌≡◌, true, List, [], ◌∷◌, ◌++◌, arith, leb, length, length-append, IsByte, ok,
  index, slice_from, index-append, slice-append, slice_from-append, append_assoc,
}
use libdvb.Prelude.Bits.{bit_and_top}
use libdvb.Ca.Asn1.{decode, encode, decode-encode}
use libdvb.Ca.Tpdu.{parse, parse_trailer, parse_data, parse_body, is_data, sb}
use libdvb.Ca.Tpdu.Build.{data_frame}

-- `[SB, 2, t_c_id, status]`, which a module appends to each of its frames.
abbrev pub status_object : ℕ → ℕ → List ℕ
status_object t_c_id status = sb ∷ 2 ∷ t_c_id ∷ status ∷ []

parse_trailer-append :
    (front : List ℕ) (t status : ℕ)
    → IsByte status
    → parse_trailer (front ++ status_object t status) t ≡ ok (leb 128 status)
unfolding parse_trailer index
parse_trailer-append front t status h = ground (
  arith,
  length-append front (status_object t status),
  slice_from-append front (status_object t status) (length (front ++ status_object t status) - 4),
  bit_and_top status,
)

parse_data-layout :
    (a b c t : ℕ) (coded body trailer : List ℕ)
    → decode (coded ++ (t ∷ (body ++ trailer))) ≡ ok (length body + 1, length coded)
    → length trailer ≡ 4
    → parse_data (a ∷ b ∷ c ∷ (coded ++ (t ∷ (body ++ trailer)))) t ≡ ok body
unfolding parse_data slice_from
parse_data-layout a b c t coded body trailer d h = ground (
  arith,
  d,
  index-append (a ∷ b ∷ c ∷ coded) t (body ++ trailer) (3 + length coded),
  length-append coded (t ∷ (body ++ trailer)),
  length-append body trailer,
  slice-append (a ∷ b ∷ c ∷ (coded ++ (t ∷ []))) body trailer (3 + length coded + 1)
      (3 + length coded + 1 + (length body + 1) - 1),
  length-append coded (t ∷ []),
  append_assoc coded (t ∷ []) (body ++ trailer),
)

-- A data frame as the sender lays it out, followed by the status object of its slot, is parsed as
-- that slot, tag and payload, with the data indicator from the top bit of the status. The payload
-- may be as long as the length field can say.
pub parse-data_frame :
    (slot_id tag slots_num status : ℕ) (payload : List ℕ)
    → slot_id < slots_num
    → is_data tag ≡ true
    → length payload < 65535
    → IsByte status
    → parse (data_frame slot_id tag payload ++ status_object (slot_id + 1) status) slots_num
      ≡ ok
          (record { slot_id = slot_id; tag = tag; body = payload; data_indicator = leb 128 status })
unfolding parse parse_body index
parse-data_frame slot_id tag slots_num status payload hs ht hl hb =
    let t = slot_id + 1 in
    let coded = encode (length payload + 1) [] in
    let trailer = status_object t status in
    ground (
      arith,
      append_assoc coded (t ∷ payload) trailer,
      parse_trailer-append (data_frame slot_id tag payload) t status hb,
      length-append (coded ++ (t ∷ payload)) trailer,
      length-append coded (t ∷ payload),
      parse_data-layout slot_id t tag t coded payload trailer,
      decode-encode (length payload + 1) (t ∷ (payload ++ trailer)),
    )
