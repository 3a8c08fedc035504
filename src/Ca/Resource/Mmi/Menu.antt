-- ===== src/Ca/Resource/Mmi/Menu.antt =====
-- `parse_menu`: it ends on every body, and reads a menu back up to the first damaged text.
use libdvb.Prelude.{
  ℕ, zero, suc, ◌+◌, ◌<◌, ◌≤◌, ◌≡◌, refl, arith, List, [], ◌∷◌, ◌++◌, append_assoc, length,
  length-append, length-drop, drop, All, none, some, Option, ok, get_or, inl, inr, slice_from_lem,
  slice_from-append,
}
use libdvb.Ca.Resource.Context.{MmiMenu}
use libdvb.Ca.Resource.Mmi.{parse_text, parse_menu, read_header, read_items, menu_after, menu_of}
use libdvb.Ca.Resource.Mmi.Text.{
  parse_text_cases, chain, joined, Short, parse_text-chain, length-chain,
}

-- The bytes of some texts.
abbrev pub text_size : List (List ℕ) → ℕ
text_size [] = 0
text_size (text ∷ texts) = length text + text_size texts

abbrev pub left_size : Option (List ℕ) → ℕ
left_size none = 0
left_size (some rest) = length rest

read_header_total :
    (count : ℕ) (rest : List ℕ)
    → (texts : List (List ℕ)) × (left : Option (List ℕ)) × (read_header count rest
        ≡ ok (texts, left))
      × (text_size texts + left_size left ≤ length rest)
      × (length texts ≤ count)
unfolding read_header
read_header_total zero rest = ([], some rest, refl, omega arith, omega arith)
read_header_total (suc count) rest = elim (parse_text_cases rest) [
  | inl e ↦ ([], none, ground (arith, e), omega arith, omega arith)
  | inr (value, size, e, lo, fits_in) ↦
      let (texts, left, more, fits, few) = read_header_total count (drop size rest) in
      (
        value ∷ texts,
        left,
        ground (arith, e, slice_from_lem rest size fits_in, more),
        omega (arith, length-drop size rest),
        omega arith,
      )
]

read_items_total :
    (fuel : ℕ) (rest : List ℕ)
    → length rest < fuel
    → (items : List (List ℕ)) × (read_items fuel rest ≡ ok items) × (text_size items ≤ length rest)
unfolding read_items
read_items_total zero rest h = absurd (omega arith)
read_items_total (suc fuel) rest h = elim (parse_text_cases rest) [
  | inl e ↦ ([], ground (arith, e), omega arith)
  | inr (item, size, e, lo, fits_in) ↦
      let (items, more, fits) =
        read_items_total fuel (drop size rest) (omega (arith, length-drop size rest)) in
      (
        item ∷ items,
        ground (arith, e, slice_from_lem rest size fits_in, more),
        omega (arith, length-drop size rest),
      )
]

-- All the text of a menu.
abbrev pub menu_size : MmiMenu → ℕ
menu_size m = length m.title + length m.sub_title + length m.bottom + text_size m.items

-- `parse_menu` returns a menu for every body: its loops end, no slice that they take panics, and the
-- texts of the menu are no longer than the body.
pub parse_menu_total :
    (body : List ℕ)
    → (menu : MmiMenu) × (parse_menu body ≡ ok menu) × (menu_size menu ≤ length body)
unfolding parse_menu menu_after
parse_menu_total [] = (menu_of [] [], refl, omega arith)
parse_menu_total (choice_nb ∷ rest) =
    let (texts, left, e, fits, few) = read_header_total 3 rest in after texts left e fits few
  where
    header_size :
        (texts : List (List ℕ))
        → length texts ≤ 3
        → length (get_or texts 0 []) + length (get_or texts 1 []) + length (get_or texts 2 [])
          ≤ text_size texts
    header_size [] h = omega arith
    header_size (a ∷ []) h = omega arith
    header_size (a ∷ b ∷ []) h = omega arith
    header_size (a ∷ b ∷ c ∷ texts) h = omega arith

    after :
        (texts : List (List ℕ)) (left : Option (List ℕ))
        → read_header 3 rest ≡ ok (texts, left)
        → text_size texts + left_size left ≤ length rest
        → length texts ≤ 3
        → (menu : MmiMenu) × (parse_menu (choice_nb ∷ rest) ≡ ok menu)
          × (menu_size menu ≤ length (choice_nb ∷ rest))
    after texts none e fits few =
        (menu_of texts [], ground (arith, e), omega (arith, header_size texts few))
    after texts (some remains) e fits few =
        let (items, more, small) = read_items_total (suc (length remains)) remains (omega arith) in
        (menu_of texts items, ground (arith, e, more), omega (arith, header_size texts few))

-- A text as a module may code it: the texts of its text_more objects, and of the last one.
abbrev pub Coded : Type 0
Coded = List (List ℕ) × List ℕ

abbrev pub CodedShort : Coded → Type 0
CodedShort c = All Short c.0 × Short c.1

abbrev pub coding : Coded → List ℕ
coding c = chain c.0 c.1

abbrev pub codings : List Coded → List ℕ
codings [] = []
codings (c ∷ cs) = coding c ++ codings cs

abbrev pub texts_of : List Coded → List (List ℕ)
texts_of [] = []
texts_of (c ∷ cs) = joined c.0 c.1 ∷ texts_of cs

read_items-codings :
    (fuel : ℕ) (cs : List Coded) (damaged : List ℕ)
    → All CodedShort cs
    → parse_text damaged ≡ ok none
    → length cs < fuel
    → read_items fuel (codings cs ++ damaged) ≡ ok (texts_of cs)
unfolding read_items
read_items-codings zero cs damaged h d m = absurd (omega arith)
read_items-codings (suc fuel) [] damaged h d m = ground (arith, d)
read_items-codings (suc fuel) (c ∷ cs) damaged h d m =
    let rest = codings cs ++ damaged in
    ground (
      arith,
      append_assoc (coding c) (codings cs) damaged,
      parse_text-chain c.0 c.1 rest h.0.0 h.0.1,
      slice_from-append (coding c) rest (length (coding c)) refl,
      read_items-codings fuel cs damaged h.1 d (omega arith),
    )

length-codings : (cs : List Coded) → length cs ≤ length (codings cs)
length-codings [] = omega arith
length-codings (c ∷ cs) =
    omega (arith, length-chain c.0 c.1, length-append (coding c) (codings cs), length-codings cs)

header_step :
    (count : ℕ) (c : Coded) (rest : List ℕ) (texts : List (List ℕ)) (left : Option (List ℕ))
    → CodedShort c
    → read_header count rest ≡ ok (texts, left)
    → read_header (suc count) (coding c ++ rest) ≡ ok (joined c.0 c.1 ∷ texts, left)
unfolding read_header
header_step count c rest texts left h e = ground (
  arith,
  parse_text-chain c.0 c.1 rest h.0 h.1,
  slice_from-append (coding c) rest (length (coding c)) refl,
  e,
)

-- A menu whose texts are chains of text objects is read back text by text, whatever its first byte
-- says of the number of items, and up to the first bytes that are no complete text.
pub parse_menu-codings :
    (choice_nb : ℕ) (title sub_title bottom : Coded) (items : List Coded) (damaged : List ℕ)
    → All CodedShort (title ∷ sub_title ∷ bottom ∷ items)
    → parse_text damaged ≡ ok none
    → parse_menu (
        choice_nb
        ∷ (coding title ++ (coding sub_title ++ (coding bottom ++ (codings items ++ damaged)))))
      ≡ ok (record {
        title = joined title.0 title.1;
        sub_title = joined sub_title.0 sub_title.1;
        bottom = joined bottom.0 bottom.1;
        items = texts_of items;
      })
unfolding parse_menu menu_after
parse_menu-codings choice_nb title sub_title bottom items damaged h d =
    let rest = codings items ++ damaged in
    let texts =
      read_items-codings (suc (length rest)) items damaged h.1.1.1 d
        (omega (arith, length-codings items, length-append (codings items) damaged)) in
    let last = header_step 0 bottom rest [] (some rest) h.1.1.0 (unfold read_header in refl) in
    let both = header_step 1 sub_title (coding bottom ++ rest) _ (some rest) h.1.0 last in
    let all =
      header_step 2 title (coding sub_title ++ (coding bottom ++ rest)) _ (some rest) h.0 both in
    ground (arith, all, texts)

-- There is no text in no bytes.
pub parse_text-nil : parse_text [] ≡ ok none
parse_text-nil = elim (parse_text_cases []) [
  | inl e ↦ e
  | inr (text, size, e, lo, hi) ↦ absurd (omega arith)
]
