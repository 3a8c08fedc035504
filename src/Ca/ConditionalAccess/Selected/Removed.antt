-- ===== src/Ca/ConditionalAccess/Selected/Removed.antt =====
-- Removing a program from a session that holds what it has selected.
use libdvb.Prelude.{ℕ, ◌≡◌, ◌⊎◌, inl, inr, refl, false, List, [], none, some, Option, ok}
use libdvb.Ca.Apdu.Tags.{ca_pmt_tag}
use libdvb.Ca.Capmt.{Program}
use libdvb.Ca.Transport.{CiTransport, send_apdu}
use libdvb.Ca.Resource.Table.{find, remove, All-find}
use libdvb.Ca.ConditionalAccess.{
  ConditionalAccessSession, selected_after, withdrawn, withdraw, remove_selected, remove_found,
  remove_session,
}
use libdvb.Ca.ConditionalAccess.Selected.{Held, Withdrawable}

-- The session is left alone, or a CA_PMT is sent and the program taken out of the selection.
abbrev pub Removal : ℕ → ℕ → ConditionalAccessSession → CiTransport → Type 0
Removal number session_id session t =
    ((find number session.selected ≡ none)
      × (remove_session number session_id session t ≡ (session, t, ok false)))
    ⊎ ((program : Program) × (body : List ℕ) × (find number session.selected ≡ some program)
        × (remove_session number session_id session t
            ≡ selected_after session (remove number session.selected)
                (send_apdu session.slot_id session_id ca_pmt_tag body t)))

removal :
    (number session_id : ℕ) (session : ConditionalAccessSession) (t : CiTransport)
    (found : Option Program) (caids : Option (List ℕ))
    → find number session.selected ≡ found
    → session.caids ≡ caids
    → Held caids session.selected
    → Removal number session_id session t
unfolding find remove_session remove_found remove_selected withdraw withdrawn
removal number session_id session t none caids e f h = inl (e, rw (e, remove_session) refl)
removal number session_id session t (some program) none e f h = absurd (nothing_found (rw h at e))
  where
    nothing_found : find number [] ≡ some program → ⊥
    nothing_found p = cc
removal number session_id session t (some program) (some caids) e f h =
    let (body, built) = All-find (Withdrawable caids) number session.selected h e in
    inr (program, body, e, rw (e, f, built, remove_session) refl)

pub remove_session-Removal :
    (number session_id : ℕ) (session : ConditionalAccessSession) (t : CiTransport)
    → Held session.caids session.selected
    → Removal number session_id session t
remove_session-Removal number session_id session t h =
    removal number session_id session t (find number session.selected) session.caids refl refl h
