-- ===== src/Ca/Resource/Mmi/Text.antt =====
-- `parse_text`: it ends on every input, and reads a chain of objects back.
use libdvb.Prelude.{
  ℕ, zero, suc, ◌+◌, ◌<◌, ◌≤◌, ◌≡◌, ◌⊎◌, inl, inr, refl, List, [], ◌∷◌, ◌++◌, append_assoc, arith,
  length, length-append, length-drop, drop, All, none, some, Option, ◌==◌, Bool-cases, Result, ok,
  slice_from_lem, slice_from-append,
}
use libdvb.Ca.Apdu.{build}
use libdvb.Ca.Apdu.Codec.{parse_at_cases, parse_at-build, build-layout}
use libdvb.Ca.Apdu.Tags.{text_last_tag, text_more_tag}
use libdvb.Ca.Resource.Mmi.{text_rounds, parse_text}

-- What was read in the loop: the text is shorter than its coding, which lies within the input.
abbrev Round : ℕ → List ℕ → List ℕ → Option (List ℕ × ℕ) → Type 0
Round offset text rest none = Unit
Round offset text rest (some (whole, size)) =
    (length whole + 4 + offset ≤ size + length text) × (size ≤ offset + length rest)

abbrev Ends : (Option (List ℕ × ℕ) → Type 0) → Result (Option (List ℕ × ℕ)) → Type 0
Ends P r = (found : Option (List ℕ × ℕ)) × (r ≡ ok found) × P found

Round-drop :
    (offset : ℕ) (text body rest : List ℕ) (size : ℕ) (found : Option (List ℕ × ℕ))
    → 4 + length body ≤ size
    → size ≤ length rest
    → Round (offset + size) (text ++ body) (drop size rest) found
    → Round offset text rest found
Round-drop offset text body rest size none lo fits r = tt
Round-drop offset text body rest size (some (whole, total)) lo fits r =
    (omega (arith, length-append text body), omega (arith, length-drop size rest))

text_rounds_total :
    (fuel : ℕ) (rest text : List ℕ) (offset : ℕ)
    → length rest < fuel
    → Ends (Round offset text rest) (text_rounds fuel rest text offset)
unfolding text_rounds
text_rounds_total zero rest text offset h = absurd (omega arith)
text_rounds_total (suc fuel) rest text offset h = elim (parse_at_cases rest) [
  | inr (e, p) ↦ (none, ground (arith, p), tt)
  | inl (apdu, size, p, lo, hi, fits) ↦ elim (Bool-cases (apdu.tag == text_last_tag)) [
    | inl last ↦ (
      some (text ++ apdu.body, offset + size),
      ground (arith, p, last),
      (omega (arith, length-append text apdu.body), omega arith),
    )
    | inr not_last ↦ elim (Bool-cases (apdu.tag == text_more_tag)) [
      | inr other ↦ (none, ground (arith, p, not_last, other), tt)
      | inl more ↦
          let (found, e, r) =
            text_rounds_total fuel (drop size rest) (text ++ apdu.body) (offset + size)
              (omega (arith, length-drop size rest)) in
          (
            found,
            ground (arith, p, not_last, more, slice_from_lem rest size fits, e),
            Round-drop offset text apdu.body rest size found (omega arith) fits r,
          )
    ]
  ]
]

-- `parse_text` returns on every input, and does not panic: either nothing, or a text whose coding
-- lies within the input and is at least four bytes longer than the text.
pub parse_text_cases :
    (bytes : List ℕ)
    → (parse_text bytes ≡ ok none)
      ⊎ ((text : List ℕ) × (size : ℕ) × (parse_text bytes ≡ ok (some (text, size)))
          × (length text + 4 ≤ size)
          × (size ≤ length bytes))
unfolding parse_text
parse_text_cases bytes =
    let (found, e, r) = text_rounds_total (suc (length bytes)) bytes [] 0 (omega arith) in
    split found e r
  where
    split :
        (found : Option (List ℕ × ℕ))
        → text_rounds (suc (length bytes)) bytes [] 0 ≡ ok found
        → Round 0 [] bytes found
        → (text_rounds (suc (length bytes)) bytes [] 0 ≡ ok none)
          ⊎ ((text : List ℕ) × (size : ℕ) × (text_rounds (suc (length bytes)) bytes [] 0
                ≡ ok (some (text, size)))
              × (length text + 4 ≤ size)
              × (size ≤ length bytes))
    split none e r = inl e
    split (some (text, size)) e r = inr (text, size, e, omega arith, omega arith)

-- The coding of a text: a chain of text_more objects, closed by a text_last object.
abbrev pub chain : List (List ℕ) → List ℕ → List ℕ
chain [] last = build [] text_last_tag last
chain (part ∷ parts) last = build [] text_more_tag part ++ chain parts last

abbrev pub joined : List (List ℕ) → List ℕ → List ℕ
joined [] last = last
joined (part ∷ parts) last = part ++ joined parts last

abbrev pub Short : List ℕ → Type 0
Short part = length part < 65536

length-build : (tag : ℕ) (body : List ℕ) → 0 < length (build [] tag body)
length-build tag body = ground (arith, build-layout [] tag body)

text_rounds-chain :
    (fuel : ℕ) (parts : List (List ℕ)) (last tail text : List ℕ) (offset : ℕ)
    → All Short parts
    → Short last
    → length parts < fuel
    → text_rounds fuel (chain parts last ++ tail) text offset
      ≡ ok (some (text ++ joined parts last, offset + length (chain parts last)))
unfolding text_rounds
text_rounds-chain zero parts last tail text offset h k m = absurd (omega arith)
text_rounds-chain (suc fuel) [] last tail text offset h k m =
    ground (arith, parse_at-build text_last_tag last tail (omega arith) k)
text_rounds-chain (suc fuel) (part ∷ parts) last tail text offset h k m =
    let first = build [] text_more_tag part in
    let rest = chain parts last in
    ground (
      arith,
      append_assoc first rest tail,
      parse_at-build text_more_tag part (rest ++ tail) (omega arith) h.0,
      slice_from-append first (rest ++ tail) (length first) refl,
      text_rounds-chain fuel parts last tail (text ++ part) (offset + length first) h.1 k
          (omega arith),
      append_assoc text part (joined parts last),
      length-append first rest,
    )

-- The loop needs no more rounds than there are bytes.
pub length-chain :
    (parts : List (List ℕ)) (last : List ℕ) → length parts < length (chain parts last)
length-chain [] last = omega (arith, length-build text_last_tag last)
length-chain (part ∷ parts) last = omega (
  arith,
  length-chain parts last,
  length-build text_more_tag part,
  length-append (build [] text_more_tag part) (chain parts last),
)

-- A chain of text_more objects closed by a text_last object is read back as the texts put together,
-- with the size of the chain, whatever follows.
pub parse_text-chain :
    (parts : List (List ℕ)) (last tail : List ℕ)
    → All Short parts
    → Short last
    → parse_text (chain parts last ++ tail)
      ≡ ok (some (joined parts last, length (chain parts last)))
unfolding parse_text
parse_text-chain parts last tail h k =
    let fuel = suc (length (chain parts last ++ tail)) in
    let enough : length parts < fuel =
      omega (arith, length-chain parts last, length-append (chain parts last) tail) in
    ground (arith, text_rounds-chain fuel parts last tail [] 0 h k enough)
