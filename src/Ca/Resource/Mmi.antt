-- ===== src/Ca/Resource/Mmi.antt =====
-- src/ca/resource/mmi.rs: the man-machine interface.
pub mod Text
pub mod Menu
pub mod Chains
mod Tests
use libdvb.Prelude.{
  ℕ, zero, suc, ◌+◌, Bool, true, false, not, List, [], ◌∷◌, ◌++◌, Option, none, some, ◌==◌, ltb,
  ◌||◌, if◌then◌else◌, length, get_elem?, get_or, drop, index, slice_from, bit_and, Result, ok, err,
  panic, ◌>>=◌, ◌>>◌, guard, invalid_data,
}
use libdvb.Ca.Apdu.{Apdu, parse_at}
use libdvb.Ca.Apdu.Tags.{
  close_mmi_tag, display_control_tag, display_reply_tag, text_last_tag, text_more_tag, enq_tag,
  menu_last_tag, menu_more_tag, list_last_tag, list_more_tag,
}
use libdvb.Ca.Transport.{CiTransport}
use libdvb.Ca.Session.{Called}
use libdvb.Ca.Resource.Table.{Table, find, remove, insert}
use libdvb.Ca.Resource.Context.{
  MmiMenu, ResourceEvent, mmi_close, mmi_text, mmi_menu, mmi_list, mmi_enq, reply, event, event_of,
  refuse, finish,
}

abbrev pub max_object_size : ℕ
max_object_size = 65536

-- The loop of `parse_text`; `rest` is `data[offset ..]`. A round takes bytes away, so one round more
-- than there are bytes is enough; `panic` is a loop that is not done then.
text_rounds : ℕ → List ℕ → List ℕ → ℕ → Result (Option (List ℕ × ℕ))
text_rounds zero rest text offset = panic
text_rounds (suc fuel) rest text offset = elim (parse_at rest) [
  | ok (apdu, size) ↦
      let more = (do
        rest' ← slice_from rest size
        text_rounds fuel rest' (text ++ apdu.body) (offset + size)) in
      if apdu.tag == text_last_tag
      then ok (some (text ++ apdu.body, offset + size))
      else if apdu.tag == text_more_tag
      then more
      else ok none
  | err e ↦ ok none
  | panic ↦ panic
]

pub parse_text : List ℕ → Result (Option (List ℕ × ℕ))
unfolding text_rounds
parse_text bytes = text_rounds (suc (length bytes)) bytes [] 0

-- The loop over the three header texts: those read, and what is left if all were.
read_header : ℕ → List ℕ → Result (List (List ℕ) × Option (List ℕ))
read_header zero rest = ok ([], some rest)
read_header (suc count) rest = do
  found ← parse_text rest
  elim found [
    | none ↦ ok ([], none)
    | some (value, size) ↦ do
      rest' ← slice_from rest size
      (values, left) ← read_header count rest'
      ok (value ∷ values, left)
  ]

-- The loop over the items, on the same fuel as `text_rounds`.
read_items : ℕ → List ℕ → Result (List (List ℕ))
read_items zero rest = panic
read_items (suc fuel) rest = do
  found ← parse_text rest
  elim found [
    | none ↦ ok []
    | some (item, size) ↦ do
      rest' ← slice_from rest size
      items ← read_items fuel rest'
      ok (item ∷ items)
  ]

-- A header text that was not reached is the empty default.
abbrev pub menu_of : List (List ℕ) → List (List ℕ) → MmiMenu
menu_of header items = record {
  title = get_or header 0 [];
  sub_title = get_or header 1 [];
  bottom = get_or header 2 [];
  items = items;
}

menu_after : List (List ℕ) × Option (List ℕ) → Result MmiMenu
unfolding read_items
menu_after (header, none) = ok (menu_of header [])
menu_after (header, some rest) = do
  items ← read_items (suc (length rest)) rest
  ok (menu_of header items)

pub parse_menu : List ℕ → Result MmiMenu
unfolding read_header menu_after
parse_menu [] = ok (menu_of [] [])
parse_menu (choice_nb ∷ rest) = do read ← read_header 3 rest; menu_after read

abbrev pub build_answ : Option (List ℕ) → List ℕ
build_answ none = 0x00 ∷ []
build_answ (some text) = 0x01 ∷ text

abbrev pub build_close : List ℕ
build_close = 0x00 ∷ []

-- The state is `fragments`.
abbrev pub MmiResource : Type 0
MmiResource = Table (List ℕ)

-- `entry(..).or_default()`
abbrev pub or_default : Option (List ℕ) → List ℕ
or_default none = []
or_default (some object) = object

-- `take_object` removes the chain and gives the object.
abbrev pub take_object : ℕ → List ℕ → MmiResource → List ℕ
take_object session_id last fragments = or_default (find session_id fragments) ++ last

more_fragment : ℕ → List ℕ → MmiResource → CiTransport → Called MmiResource ResourceEvent
more_fragment session_id body fragments t =
    let object = or_default (find session_id fragments) in
    if ltb max_object_size (length object + length body)
    then refuse (remove session_id fragments) t
    else finish (insert session_id (object ++ body) fragments) t (ok tt)

-- `delay`
abbrev pub close_delay : List ℕ → Option ℕ
close_delay [] = none
close_delay (command ∷ rest) = if command == 0x01 then get_elem? rest 0 else none

-- The `match` on the first two bytes.
abbrev pub mode_reply : List ℕ → List ℕ
mode_reply [] = 0xF0 ∷ []
mode_reply (command ∷ []) = if command == 0x01 then 0xF1 ∷ [] else 0xF0 ∷ []
mode_reply (command ∷ mode ∷ rest) =
    if command == 0x01 then if mode == 0x01 then 0x01 ∷ 0x01 ∷ [] else 0xF1 ∷ [] else 0xF0 ∷ []

enq_event : ℕ → ℕ → List ℕ → Result ResourceEvent
enq_event slot_id session_id body = do
  guard (not (ltb (length body) 2)) invalid_data
  flags ← index body 0
  answer_len ← index body 1
  text ← slice_from body 2
  ok (mmi_enq slot_id session_id (not (bit_and flags 0x01 == 0)) answer_len text)

menu_event : (MmiMenu → ResourceEvent) → List ℕ → Result ResourceEvent
menu_event made object = do menu ← parse_menu object; ok (made menu)

pub on_apdu : ℕ → ℕ → ℕ → List ℕ → MmiResource → CiTransport → Called MmiResource ResourceEvent
unfolding more_fragment enq_event menu_event
on_apdu slot_id session_id tag body fragments t =
    let object = take_object session_id body fragments in
    let others = remove session_id fragments in
    if tag == text_more_tag || tag == menu_more_tag || tag == list_more_tag
    then more_fragment session_id body fragments t
    else if tag == close_mmi_tag
    then record (event fragments t (mmi_close slot_id session_id (close_delay body))) {
      close_session = true;
    }
    else if tag == display_control_tag
    then reply fragments t slot_id session_id display_reply_tag (mode_reply body)
    else if tag == text_last_tag
    then event others t (mmi_text slot_id session_id object)
    else if tag == enq_tag
    then event_of fragments t (enq_event slot_id session_id body)
    else if tag == menu_last_tag
    then event_of others t (menu_event (mmi_menu slot_id session_id) object)
    else if tag == list_last_tag
    then event_of others t (menu_event (mmi_list slot_id session_id) object)
    else refuse fragments t

unfoldable pub on_close : ℕ → MmiResource → MmiResource
on_close session_id fragments = remove session_id fragments
