-- ===== src/Ca/ConditionalAccess/Selected.antt =====
-- What a session has selected can be withdrawn: its CA systems are known, and an object is built.
pub mod Visits
pub mod Removed
pub mod Wanted
pub mod Changes
use mathlib.Core.Path.{subst}
use libdvb.Prelude.{
  ℕ, ◌≡◌, ◌⊎◌, inl, inr, refl, sym, ap, ◌∙◌, true, false, Bool, List, [], ◌∷◌, none, some, Option,
  ◌==◌, ltb, Bool-cases, Option-cases, if◌then◌else◌, All, Result, ok, err, panic, arith,
}
use libdvb.Ca.Capmt.{
  Program, CaPmtListManagement, CaPmtCommand, update, ok_descrambling, not_selected, build_ca_pmt,
}
use libdvb.Ca.Capmt.Command.{build_ca_pmt-SameShape, SameShape}
use libdvb.Ca.Apdu.Tags.{ca_info_tag, ca_pmt_tag, ca_pmt_reply_tag, ca_update_tag}
use libdvb.Ca.Transport.{CiTransport, send_apdu}
use libdvb.Ca.Resource.Table.{
  Table, find, remove, insert, insert_sorted, keys, sort, All-remove, All-insert, All-insert_sorted,
  All-find,
}
use libdvb.Ca.ConditionalAccess.{
  ConditionalAccessSession, ConditionalAccessResource, Visited, selected_after, withdrawn, withdraw,
  withdraw_previous, set_built, set_confirmed, set_session, remove_selected, remove_found,
  remove_session, store, visit_all, set_program, remove_program, list_management_for, unchanged,
  new,
}

-- An object is built to withdraw the program from a session with these CA systems.
abbrev pub Withdrawable : List ℕ → ℕ × Program → Type 0
Withdrawable caids entry =
    (body : List ℕ) × (build_ca_pmt entry.1 caids update not_selected ≡ ok (some body))

abbrev pub Held : Option (List ℕ) → Table Program → Type 0
Held none selected = selected ≡ []
Held (some caids) selected = All (Withdrawable caids) selected

abbrev pub SessionHeld : ℕ × ConditionalAccessSession → Type 0
SessionHeld entry = Held entry.1.caids entry.1.selected

-- A program for which an object was built to select it can be withdrawn.
pub built-Withdrawable :
    (number : ℕ) (program : Program) (caids : List ℕ) (list_management : CaPmtListManagement)
    (body : List ℕ)
    → build_ca_pmt program caids list_management ok_descrambling ≡ ok (some body)
    → Withdrawable caids (number, program)
built-Withdrawable number program caids list_management body e =
    let (other, f, same) =
      subst (λ r. SameShape r (build_ca_pmt program caids update not_selected)) e
        (build_ca_pmt-SameShape program caids list_management update ok_descrambling
          not_selected) in
    (other, f)

-- One visit keeps what a session holds withdrawable.
abbrev pub Keeps : (ConditionalAccessSession → CiTransport → Visited) → Type 0
Keeps visit =
    (session : ConditionalAccessSession) (t : CiTransport)
    → Held session.caids session.selected
    → Held (visit session t).0.caids (visit session t).0.selected

selected_after-Held :
    (session : ConditionalAccessSession) (selected : Table Program)
    (r : CiTransport × Result (Unit {0}))
    → Held session.caids session.selected
    → Held session.caids selected
    → Held
        (selected_after session selected r).0.caids
        (selected_after session selected r).0.selected
selected_after-Held session selected (t, ok v) h k = k
selected_after-Held session selected (t, err e) h k = h
selected_after-Held session selected (t, panic) h k = h

Held-remove :
    (number : ℕ) (caids : Option (List ℕ)) (selected : Table Program)
    → Held caids selected
    → Held caids (remove number selected)
Held-remove number none selected h = rw h (unfold remove in refl)
Held-remove number (some caids) selected h = All-remove (Withdrawable caids) number selected h

withdrawn-Held :
    (number session_id : ℕ) (r : Result (Option (List ℕ))) (session : ConditionalAccessSession)
    (t : CiTransport)
    → Held session.caids session.selected
    → Held
        (withdrawn number session_id r session t).0.caids
        (withdrawn number session_id r session t).0.selected
unfolding withdrawn
withdrawn-Held number session_id (ok none) session t h = h
withdrawn-Held number session_id (ok (some body)) session t h =
    selected_after-Held session (remove number session.selected)
      (send_apdu session.slot_id session_id ca_pmt_tag body t) h
      (Held-remove number session.caids session.selected h)
withdrawn-Held number session_id (err e) session t h = h
withdrawn-Held number session_id panic session t h = h

pub withdraw-Keeps :
    (number session_id : ℕ) (previous : Program) (caids : List ℕ)
    → Keeps (withdraw number session_id previous caids)
unfolding withdraw
withdraw-Keeps number session_id previous caids =
    withdrawn-Held number session_id (build_ca_pmt previous caids update not_selected)

withdraw_previous-Keeps :
    (number session_id : ℕ) (previous : Option Program) (caids : List ℕ)
    → Keeps (withdraw_previous number session_id previous caids)
unfolding withdraw_previous
withdraw_previous-Keeps number session_id none caids session t h = h
withdraw_previous-Keeps number session_id (some previous) caids session t h =
    withdraw-Keeps number session_id previous caids session t h

set_built-Held :
    (program : Program) (session_id : ℕ) (caids : List ℕ) (list_management : CaPmtListManagement)
    (r : Result (Option (List ℕ))) (session : ConditionalAccessSession) (t : CiTransport)
    → build_ca_pmt program caids list_management ok_descrambling ≡ r
    → session.caids ≡ some caids
    → Held session.caids session.selected
    → Held
        (set_built program session_id caids r session t).0.caids
        (set_built program session_id caids r session t).0.selected
unfolding set_built
set_built-Held program session_id caids list_management (ok none) session t e known h =
    withdraw_previous-Keeps program.program_number session_id
      (find program.program_number session.selected) caids session t h
set_built-Held program session_id caids list_management (ok (some body)) session t e known h =
    selected_after-Held session (insert_sorted program.program_number program session.selected)
      (send_apdu session.slot_id session_id ca_pmt_tag body t) h
      (subst (λ c. Held c (insert_sorted program.program_number program session.selected))
        (sym known)
        (All-insert_sorted (Withdrawable caids) program.program_number program session.selected
          (built-Withdrawable program.program_number program caids list_management body e)
          (subst (λ c. Held c session.selected) known h)))
set_built-Held program session_id caids list_management (err x) session t e known h = h
set_built-Held program session_id caids list_management panic session t e known h = h

set_confirmed-Held :
    (program : Program) (session_id : ℕ) (o : Option (List ℕ)) (session : ConditionalAccessSession)
    (t : CiTransport)
    → session.caids ≡ o
    → Held session.caids session.selected
    → Held
        (set_confirmed program session_id o session t).0.caids
        (set_confirmed program session_id o session t).0.selected
unfolding set_confirmed
set_confirmed-Held program session_id none session t known h = h
set_confirmed-Held program session_id (some caids) session t known h =
    let management =
      list_management_for (find program.program_number session.selected) session.selected in
    set_built-Held program session_id caids management
      (build_ca_pmt program caids management ok_descrambling) session t refl known h

pub set_session-Keeps :
    (program : Program) (session_id : ℕ) → Keeps (set_session program session_id)
unfolding set_session
set_session-Keeps program session_id session t h =
    set_confirmed-Held program session_id session.caids session t refl h

remove_selected-Keeps :
    (number session_id : ℕ) (program : Program) (o : Option (List ℕ))
    → Keeps (remove_selected number session_id program o)
unfolding remove_selected
remove_selected-Keeps number session_id program none session t h = h
remove_selected-Keeps number session_id program (some caids) session t h =
    withdraw-Keeps number session_id program caids session t h

remove_found-Keeps :
    (number session_id : ℕ) (o : Option Program) → Keeps (remove_found number session_id o)
unfolding remove_found
remove_found-Keeps number session_id none session t h = h
remove_found-Keeps number session_id (some program) session t h =
    remove_selected-Keeps number session_id program session.caids session t h

pub remove_session-Keeps : (number session_id : ℕ) → Keeps (remove_session number session_id)
unfolding remove_session
remove_session-Keeps number session_id session =
    remove_found-Keeps number session_id (find number session.selected) session
