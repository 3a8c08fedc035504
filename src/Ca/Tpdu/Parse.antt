-- ===== src/Ca/Tpdu/Parse.antt =====
-- What `parse` accepts, and that no input makes it panic.
use libdvb.Prelude.{
  ℕ, ◌+◌, ◌-◌, ◌≤◌, ◌≡◌, refl, ap, ◌∙◌, ◌≢◌, inl, inr, List, [], ◌∷◌, arith, length, drop,
  length-drop, get_or, ok, panic, index, slice_from, index_lem, Result-cases, slice_lem,
  slice_from_lem,
}
use libdvb.Ca.Asn1.{decode, decode-consumed, decode-ne-panic}
use libdvb.Ca.Tpdu.{parse, parse_trailer, parse_data, parse_fixed, parse_body}

four : (xs : List ℕ) → length xs ≡ 4 → (a b c d : ℕ) × (xs ≡ a ∷ b ∷ c ∷ d ∷ [])
four [] h = absurd (omega arith)
four (a ∷ []) h = absurd (omega arith)
four (a ∷ b ∷ []) h = absurd (omega arith)
four (a ∷ b ∷ c ∷ []) h = absurd (omega arith)
four (a ∷ b ∷ c ∷ d ∷ []) h = (a, b, c, d, refl)
four (a ∷ b ∷ c ∷ d ∷ e ∷ xs) h = absurd (omega arith)

last_four :
    (frame : List ℕ)
    → 4 ≤ length frame
    → (a b c d : ℕ) × (slice_from frame (length frame - 4) ≡ ok (a ∷ b ∷ c ∷ d ∷ []))
last_four frame h =
    let k = length frame - 4 in
    let (a, b, c, d, e) = four (drop k frame) (omega (arith, length-drop k frame)) in
    (a, b, c, d, slice_from_lem frame k (omega arith) ∙ ap ok e)

parse_trailer-ne-panic : (frame : List ℕ) (t : ℕ) → 4 ≤ length frame → parse_trailer frame t ≢ panic
unfolding parse_trailer index
parse_trailer-ne-panic frame t h e =
    let (a, b, c, d, cut) = last_four frame h in ground (arith, cut)

parse_data_read :
    (frame : List ℕ) (t v c : ℕ)
    → 4 ≤ length frame
    → decode (drop 3 frame) ≡ ok (v, c)
    → parse_data frame t ≢ panic
unfolding parse_data
parse_data_read frame t v c h d e = ground (
  arith,
  slice_from_lem frame 3,
  decode-consumed (drop 3 frame) v c d,
  length-drop 3 frame,
  index_lem frame (3 + c) 0,
  slice_lem frame (3 + c + 1) (3 + c + 1 + v - 1),
)

parse_data-ne-panic : (frame : List ℕ) (t : ℕ) → 4 ≤ length frame → parse_data frame t ≢ panic
unfolding parse_data
parse_data-ne-panic frame t h e = elim (Result-cases (decode (drop 3 frame))) [
  | inl ((v, c), d) ↦ parse_data_read frame t v c h d e
  | inr (inl (x, d)) ↦ ground (arith, slice_from_lem frame 3, d)
  | inr (inr d) ↦ decode-ne-panic (drop 3 frame) d
]

parse_fixed-ne-panic :
    (frame : List ℕ) (t size declared : ℕ)
    → 5 ≤ length frame
    → parse_fixed frame t size declared ≢ panic
unfolding parse_fixed
parse_fixed-ne-panic frame t size declared h e =
    ground (arith, index_lem frame 3 0, index_lem frame 4 0)

parse_body-ne-panic :
    (frame : List ℕ) (t tag : ℕ) → 5 ≤ length frame → parse_body frame t tag ≢ panic
unfolding parse_body
parse_body-ne-panic frame t tag h e = ground (
  arith,
  parse_data-ne-panic frame t,
  parse_fixed-ne-panic frame t 9 1,
  parse_fixed-ne-panic frame t 10 2,
)

-- No input makes `parse` panic: every index and slice that it takes is in range.
pub parse-ne-panic : (frame : List ℕ) (slots_num : ℕ) → parse frame slots_num ≢ panic
unfolding parse
parse-ne-panic frame slots_num e = ground (
  arith,
  index_lem frame 0 0,
  index_lem frame 1 0,
  index_lem frame 2 0,
  parse_trailer-ne-panic frame (get_or frame 1 0),
  parse_body-ne-panic frame (get_or frame 1 0) (get_or frame 2 0),
)
