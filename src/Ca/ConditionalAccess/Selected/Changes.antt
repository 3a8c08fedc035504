-- ===== src/Ca/ConditionalAccess/Selected/Changes.antt =====
-- A change of the desired programs that succeeds reaches every session.
use libdvb.Prelude.{
  ℕ, ◌≡◌, refl, sym, ◌∙◌, ap, false, Bool, List, none, some, Option, Result, ok, err, panic, inl,
  inr,
}
use libdvb.Ca.Transport.{CiTransport, send_apdu}
use libdvb.Ca.Apdu.Tags.{ca_pmt_tag}
use libdvb.Ca.Capmt.{Program, only, update, ok_descrambling, not_selected, build_ca_pmt}
use libdvb.Ca.Capmt.Command.{build_ca_pmt-SameShape, SameShape}
use libdvb.Ca.Pacer.{CaPmtChange, select, remove, program_number}
use libdvb.Ca.Resource.Table.{
  Table, find, insert_sorted, remove as remove_entry, find-remove_self, find-insert_sorted_self,
}
use libdvb.Ca.ConditionalAccess.{
  ConditionalAccessSession, ConditionalAccessResource, Outcome, selected_after, withdrawn, withdraw,
  withdraw_previous, set_built, set_confirmed, set_session, remove_session, unchanged,
  list_management_for, set_program, remove_program,
}
use libdvb.Ca.ConditionalAccess.Selected.{Held, set_session-Keeps, remove_session-Keeps}
use libdvb.Ca.ConditionalAccess.Selected.Removed.{remove_session-Removal}
use libdvb.Ca.ConditionalAccess.Selected.Visits.{AllHeld}
use libdvb.Ca.ConditionalAccess.Selected.Wanted.{visit_every-Achieved}

-- A program is wanted in a session whose CA systems are known and match: an object can be built.
abbrev pub wanted_if : Program → Result (Option (List ℕ)) → Option Program
wanted_if program (ok (some body)) = some program
wanted_if program (ok none) = none
wanted_if program (err e) = none
wanted_if program panic = none

abbrev pub wanted : Program → Option (List ℕ) → Option Program
wanted program none = none
wanted program (some caids) = wanted_if program (build_ca_pmt program caids only ok_descrambling)

-- The entry of the selection that a change wants.
abbrev pub desired : CaPmtChange → ConditionalAccessSession → Option Program
desired (select program) session = wanted program session.caids
desired (remove number) session = none

abbrev pub Achieves : CaPmtChange → ConditionalAccessSession → Type 0
Achieves change session = find (program_number change) session.selected ≡ desired change session

selected_after-cases :
    (session : ConditionalAccessSession) (selected : Table Program)
    (r : CiTransport × Result (Unit {0})) (touches : Bool)
    → (selected_after session selected r).2 ≡ ok touches
    → (selected_after session selected r).0 ≡ record session { selected = selected }
selected_after-cases session selected (t, ok v) touches e = refl
selected_after-cases session selected (t, err x) touches e = cc
selected_after-cases session selected (t, panic) touches e = cc

-- NOT_SELECTED takes the entry out.
withdrawn-find :
    (number session_id : ℕ) (r : Result (Option (List ℕ))) (session : ConditionalAccessSession)
    (t : CiTransport) (touches : Bool)
    → (withdrawn number session_id r session t).2 ≡ ok touches
    → find number (withdrawn number session_id r session t).0.selected ≡ none
unfolding withdrawn
withdrawn-find number session_id (ok none) session t touches e = cc
withdrawn-find number session_id (ok (some body)) session t touches e =
    let after = remove_entry number session.selected in
    let sent = send_apdu session.slot_id session_id ca_pmt_tag body t in
    ap (λ s. find number s.selected) (selected_after-cases session after sent touches e)
    ∙ find-remove_self number session.selected
withdrawn-find number session_id (err x) session t touches e = cc
withdrawn-find number session_id panic session t touches e = cc

withdrawn-caids :
    (number session_id : ℕ) (r : Result (Option (List ℕ))) (session : ConditionalAccessSession)
    (t : CiTransport) (touches : Bool)
    → (withdrawn number session_id r session t).2 ≡ ok touches
    → (withdrawn number session_id r session t).0.caids ≡ session.caids
unfolding withdrawn
withdrawn-caids number session_id (ok none) session t touches e = cc
withdrawn-caids number session_id (ok (some body)) session t touches e =
    let after = remove_entry number session.selected in
    let sent = send_apdu session.slot_id session_id ca_pmt_tag body t in
    ap (λ s. s.caids) (selected_after-cases session after sent touches e)
withdrawn-caids number session_id (err x) session t touches e = cc
withdrawn-caids number session_id panic session t touches e = cc

-- Nothing is left of a program for which no object is built.
previous-find :
    (number session_id : ℕ) (previous : Option Program) (caids : List ℕ)
    (session : ConditionalAccessSession) (t : CiTransport) (touches : Bool)
    → find number session.selected ≡ previous
    → (withdraw_previous number session_id previous caids session t).2 ≡ ok touches
    → (find number (withdraw_previous number session_id previous caids session t).0.selected ≡ none)
      × ((withdraw_previous number session_id previous caids session t).0.caids ≡ session.caids)
unfolding withdraw_previous withdraw
previous-find number session_id none caids session t touches f e = (f, refl)
previous-find number session_id (some previous) caids session t touches f e =
    let built = build_ca_pmt previous caids update not_selected in
    (
      withdrawn-find number session_id built session t touches e,
      withdrawn-caids number session_id built session t touches e,
    )

-- The list management plays no part in what is wanted.
wanted_if-same :
    (program : Program) (r r' : Result (Option (List ℕ)))
    → SameShape r r'
    → wanted_if program r ≡ wanted_if program r'
wanted_if-same program (ok none) r' h = sym (ap (wanted_if program) h)
wanted_if-same program (ok (some body)) r' (other, h, same) = sym (ap (wanted_if program) h)
wanted_if-same program (err e) r' h = sym (ap (wanted_if program) h)
wanted_if-same program panic r' h = sym (ap (wanted_if program) h)

set_built-Achieves :
    (program : Program) (session_id : ℕ) (caids : List ℕ) (r : Result (Option (List ℕ)))
    (session : ConditionalAccessSession) (t : CiTransport) (touches : Bool)
    → wanted program session.caids ≡ wanted_if program r
    → (set_built program session_id caids r session t).2 ≡ ok touches
    → Achieves (select program) (set_built program session_id caids r session t).0
unfolding set_built
set_built-Achieves program session_id caids (ok none) session t touches w e =
    let number = program.program_number in
    let (gone, same) =
      previous-find number session_id (find number session.selected) caids session t touches refl
        e in
    gone ∙ sym (ap (wanted program) same ∙ w)
set_built-Achieves program session_id caids (ok (some body)) session t touches w e =
    let number = program.program_number in
    let after = insert_sorted number program session.selected in
    let sent = send_apdu session.slot_id session_id ca_pmt_tag body t in
    let stored = selected_after-cases session after sent touches e in
    ap (λ s. find number s.selected) stored
    ∙ (find-insert_sorted_self number program session.selected
        ∙ sym (ap (λ s. wanted program s.caids) stored ∙ w))
set_built-Achieves program session_id caids (err x) session t touches w e = cc
set_built-Achieves program session_id caids panic session t touches w e = cc

set_confirmed-Achieves :
    (program : Program) (session_id : ℕ) (o : Option (List ℕ)) (session : ConditionalAccessSession)
    (t : CiTransport) (touches : Bool)
    → session.caids ≡ o
    → Held o session.selected
    → (set_confirmed program session_id o session t).2 ≡ ok touches
    → Achieves (select program) (set_confirmed program session_id o session t).0
unfolding set_confirmed find
set_confirmed-Achieves program session_id none session t touches known h e =
    ap (find program.program_number) h ∙ sym (ap (wanted program) known)
set_confirmed-Achieves program session_id (some caids) session t touches known h e =
    let management =
      list_management_for (find program.program_number session.selected) session.selected in
    set_built-Achieves program session_id caids
      (build_ca_pmt program caids management ok_descrambling) session t touches
      (ap (wanted program) known
        ∙ wanted_if-same program _ _
            (build_ca_pmt-SameShape program caids only management ok_descrambling ok_descrambling))
      e

set_session-Achieves :
    (program : Program) (session_id : ℕ) (session : ConditionalAccessSession) (t : CiTransport)
    (touches : Bool)
    → Held session.caids session.selected
    → (set_session program session_id session t).2 ≡ ok touches
    → Achieves (select program) (set_session program session_id session t).0
unfolding set_session
set_session-Achieves program session_id session t touches h e =
    set_confirmed-Achieves program session_id session.caids session t touches refl h e

remove_session-Achieves :
    (number session_id : ℕ) (session : ConditionalAccessSession) (t : CiTransport) (touches : Bool)
    → Held session.caids session.selected
    → (remove_session number session_id session t).2 ≡ ok touches
    → Achieves (remove number) (remove_session number session_id session t).0
remove_session-Achieves number session_id session t touches h e =
    elim (remove_session-Removal number session_id session t h) [
      | inl (absent, same) ↦ ap (λ v. find number v.0.selected) same ∙ absent
      | inr (program, body, found, same) ↦
          let after = remove_entry number session.selected in
          let sent = send_apdu session.slot_id session_id ca_pmt_tag body t in
          ap (λ v. find number v.0.selected) same
          ∙ (ap (λ s. find number s.selected)
                (selected_after-cases session after sent touches (sym (ap (λ v. v.2) same) ∙ e))
              ∙ find-remove_self number session.selected)
    ]

-- What the controller does with a change that is due.
abbrev pub apply : CaPmtChange → ConditionalAccessResource → CiTransport → Outcome
apply (select program) c t = set_program program c t
apply (remove number) c t = remove_program number c t

-- The change is not what the resource has already.
abbrev pub Effective : CaPmtChange → ConditionalAccessResource → Type 0
Effective (select program) c = unchanged program (find program.program_number c.programs) ≡ false
Effective (remove number) c = (program : Program) × (find number c.programs ≡ some program)

pub apply-Achieves :
    (change : CaPmtChange) (c : ConditionalAccessResource) (t : CiTransport) (slots : List ℕ)
    → AllHeld c
    → Effective change c
    → (apply change c t).2 ≡ ok slots
    → (id : ℕ) (session : ConditionalAccessSession)
    → find id (apply change c t).0.sessions ≡ some session
    → Achieves change session
unfolding set_program remove_program
apply-Achieves (select program) c t slots h new e id session f =
    visit_every-Achieved (Achieves (select program)) (set_session program)
      (set_session-Keeps program) (set_session-Achieves program)
      (record c { programs = insert_sorted program.program_number program c.programs }) t slots h
      (rw new at e) id session (rw new at f)
apply-Achieves (remove number) c t slots h (program, held) e id session f =
    visit_every-Achieved (Achieves (remove number)) (remove_session number)
      (remove_session-Keeps number) (remove_session-Achieves number)
      (record c { programs = remove_entry number c.programs }) t slots h
      (rw (held, remove_program) at e) id session (rw (held, remove_program) at f)
