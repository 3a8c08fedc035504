-- ===== src/Ca/ConditionalAccess.antt =====
-- src/ca/resource/conditional_access.rs: conditional access support. A `BTreeMap` is a table in the
-- order of its keys.
pub mod Objects
pub mod Runs
pub mod Selected
use libdvb.Prelude.{
  ℕ, zero, suc, ◌+◌, ◌%◌, Bool, true, false, not, ◌&&◌, List, [], ◌∷◌, ◌++◌, Option, none, some,
  ◌==◌, ltb, if◌then◌else◌, length, Result, ok, err, panic, ◌>>=◌, ◌>>◌, guard, ok_or, invalid_data,
}
use libdvb.Prelude.Bits.{be16}
use libdvb.Ca.Apdu.Tags.{ca_info_enq_tag, ca_info_tag, ca_pmt_tag, ca_pmt_reply_tag, ca_update_tag}
use libdvb.Ca.Capmt.{
  Program, CaPmtListManagement, CaPmtCommand, only, add, update, ok_descrambling, not_selected,
  build_ca_pmt,
}
use libdvb.Ca.Capmt.Same.{same_program}
use libdvb.Ca.Transport.{CiTransport, send_apdu}
use libdvb.Ca.Session.{Called}
use libdvb.Ca.Resource.Table.{Table, find, remove, insert, insert_sorted, keys, sort, dedup}
use libdvb.Ca.Resource.Context.{ResourceEvent, ca_info, reply, event, refuse, finish}

pub record ConditionalAccessSession : Type 0 where
  pub slot_id : ℕ
  pub caids : Option (List ℕ)
  pub selected : Table Program

pub record ConditionalAccessResource : Type 0 where
  pub sessions : Table ConditionalAccessSession
  pub programs : Table Program

abbrev pub new : ConditionalAccessResource
new = record { sessions = []; programs = [] }

-- The exact chunks of two bytes, in a body of an even length.
abbrev pub words : List ℕ → List ℕ
words (a ∷ b ∷ rest) = be16 a b ∷ words rest
words rest = []

unfoldable pub parse_ca_info : List ℕ → Result (List ℕ)
parse_ca_info body = do guard (length body % 2 == 0) invalid_data; ok (words body)

-- `session_caids`
unfoldable pub session_caids : ℕ → ℕ → ConditionalAccessResource → Option (List ℕ)
session_caids slot_id session_id c = elim (find session_id c.sessions) [
  | none ↦ none
  | some session ↦ if session.slot_id == slot_id then session.caids else none
]

-- What a loop over the sessions does with one: the session and the transport after it, and whether
-- the slot is touched.
abbrev pub Visited : Type 0
Visited = ConditionalAccessSession × CiTransport × Result Bool

-- The session before and after a CA_PMT that is sent.
abbrev pub selected_after :
    ConditionalAccessSession → Table Program → CiTransport × Result (Unit {0}) → Visited
selected_after session selected (t, ok v) = (record session { selected = selected }, t, ok true)
selected_after session selected (t, err e) = (session, t, err e)
selected_after session selected (t, panic) = (session, t, panic)

abbrev pub list_management_for : Option Program → Table Program → CaPmtListManagement
list_management_for (some previous) selected = update
list_management_for none [] = only
list_management_for none (entry ∷ selected) = add

-- NOT_SELECTED for a program that was selected, with what `build_ca_pmt` returned.
withdrawn : ℕ → ℕ → Result (Option (List ℕ)) → ConditionalAccessSession → CiTransport → Visited
withdrawn number session_id (ok none) session t = (session, t, err invalid_data)
withdrawn number session_id (ok (some body)) session t =
    selected_after session (remove number session.selected)
      (send_apdu session.slot_id session_id ca_pmt_tag body t)
withdrawn number session_id (err e) session t = (session, t, err e)
withdrawn number session_id panic session t = (session, t, panic)

pub withdraw : ℕ → ℕ → Program → List ℕ → ConditionalAccessSession → CiTransport → Visited
unfolding withdrawn
withdraw number session_id previous caids =
    withdrawn number session_id (build_ca_pmt previous caids update not_selected)

-- `else if let Some(previous) = previous`
withdraw_previous :
    ℕ → ℕ → Option Program → List ℕ → ConditionalAccessSession → CiTransport → Visited
withdraw_previous number session_id none caids session t = (session, t, ok false)
withdraw_previous number session_id (some previous) caids session t =
    withdraw number session_id previous caids session t

-- What `build_ca_pmt` returned for the new program.
set_built :
    Program
    → ℕ
    → List ℕ
    → Result (Option (List ℕ))
    → ConditionalAccessSession
    → CiTransport
    → Visited
unfolding withdraw_previous
set_built program session_id caids (ok none) session t =
    let number = program.program_number in
    withdraw_previous number session_id (find number session.selected) caids session t
set_built program session_id caids (ok (some body)) session t =
    selected_after session (insert_sorted program.program_number program session.selected)
      (send_apdu session.slot_id session_id ca_pmt_tag body t)
set_built program session_id caids (err e) session t = (session, t, err e)
set_built program session_id caids panic session t = (session, t, panic)

set_confirmed : Program → ℕ → Option (List ℕ) → ConditionalAccessSession → CiTransport → Visited
unfolding set_built
set_confirmed program session_id none session t = (session, t, ok false)
set_confirmed program session_id (some caids) session t =
    let previous = find program.program_number session.selected in
    set_built program session_id caids
      (build_ca_pmt program caids (list_management_for previous session.selected) ok_descrambling)
      session t

-- The body of the loop of `set_program`.
pub set_session : Program → ℕ → ConditionalAccessSession → CiTransport → Visited
unfolding set_confirmed
set_session program session_id session = set_confirmed program session_id session.caids session

remove_selected :
    ℕ → ℕ → Program → Option (List ℕ) → ConditionalAccessSession → CiTransport → Visited
remove_selected number session_id program none session t = (session, t, err invalid_data)
remove_selected number session_id program (some caids) session t =
    withdraw number session_id program caids session t

remove_found : ℕ → ℕ → Option Program → ConditionalAccessSession → CiTransport → Visited
unfolding remove_selected
remove_found number session_id none session t = (session, t, ok false)
remove_found number session_id (some program) session t =
    remove_selected number session_id program session.caids session t

-- The body of the loop of `remove_program`.
pub remove_session : ℕ → ℕ → ConditionalAccessSession → CiTransport → Visited
unfolding remove_found
remove_session number session_id session =
    remove_found number session_id (find number session.selected) session

abbrev pub Outcome : Type 0
Outcome = ConditionalAccessResource × CiTransport × Result (List ℕ)

abbrev pub store :
    ConditionalAccessResource → ℕ → ConditionalAccessSession → ConditionalAccessResource
store c session_id session = record c { sessions = insert session_id session c.sessions }

abbrev pub touched_with : Bool → ℕ → List ℕ → List ℕ
touched_with false slot_id touched = touched
touched_with true slot_id touched = touched ++ (slot_id ∷ [])

-- What follows a visit, with `next` for the rest of the loop.
after_visit :
    ℕ
    → ℕ
    → List ℕ
    → ConditionalAccessResource
    → (List ℕ → ConditionalAccessResource → CiTransport → Outcome)
    → Visited
    → Outcome
after_visit session_id slot_id touched c next (session, t, ok touches) =
    next (touched_with touches slot_id touched) (store c session_id session) t
after_visit session_id slot_id touched c next (session, t, err e) =
    (store c session_id session, t, err e)
after_visit session_id slot_id touched c next (session, t, panic) =
    (store c session_id session, t, panic)

-- `self.sessions.get_mut(..).expect(..)`
visit_found :
    (ConditionalAccessSession → CiTransport → Visited)
    → ℕ
    → List ℕ
    → ConditionalAccessResource
    → CiTransport
    → (List ℕ → ConditionalAccessResource → CiTransport → Outcome)
    → Option ConditionalAccessSession
    → Outcome
unfolding after_visit
visit_found visit session_id touched c t next none = (c, t, panic)
visit_found visit session_id touched c t next (some session) =
    after_visit session_id session.slot_id touched c next (visit session t)

-- The loop over the sorted ids.
pub visit_all :
    (ℕ → ConditionalAccessSession → CiTransport → Visited)
    → List ℕ
    → List ℕ
    → ConditionalAccessResource
    → CiTransport
    → Outcome
unfolding visit_found
visit_all visit [] touched c t = (c, t, ok (dedup (sort touched)))
visit_all visit (session_id ∷ rest) touched c t =
    visit_found (visit session_id) session_id touched c t (visit_all visit rest)
      (find session_id c.sessions)

-- `self.programs.get(&program_number) == Some(&program)`
abbrev pub unchanged : Program → Option Program → Bool
unchanged program none = false
unchanged program (some held) = same_program held program

pub set_program : Program → ConditionalAccessResource → CiTransport → Outcome
set_program program c t =
    let visits =
      visit_all (set_session program) (sort (keys c.sessions)) []
        (record c { programs = insert_sorted program.program_number program c.programs }) t in
    if unchanged program (find program.program_number c.programs) then (c, t, ok []) else visits

pub remove_program : ℕ → ConditionalAccessResource → CiTransport → Outcome
remove_program number c t = elim (find number c.programs) [
  | none ↦ (c, t, ok [])
  | some program ↦
      visit_all (remove_session number) (sort (keys c.sessions)) []
        (record c { programs = remove number c.programs }) t
]
