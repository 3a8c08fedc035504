-- ===== src/Ca/ConditionalAccess/Objects/Confirmed.antt =====
-- What a session has selected after a CA_INFO can be withdrawn.
use mathlib.Core.Path.{subst}
use libdvb.Prelude.{
  ℕ, ◌≡◌, refl, List, [], ◌∷◌, none, some, Option, ◌==◌, All, Result, ok, err, panic, Bool-cases,
  inl, inr, ◌||◌,
}
use libdvb.Ca.Capmt.{Program, CaPmtListManagement, ok_descrambling, build_ca_pmt}
use libdvb.Ca.Apdu.Tags.{ca_info_tag, ca_pmt_tag, ca_pmt_reply_tag, ca_update_tag}
use libdvb.Ca.Transport.{CiTransport, M, continue, send_apdu}
use libdvb.Ca.Resource.Table.{Table, find, All-insert, All-insert_sorted, All-remove}
use libdvb.Ca.ConditionalAccess.{
  ConditionalAccessSession, ConditionalAccessResource, list_management_for, parse_ca_info,
}
use libdvb.Ca.ConditionalAccess.Selected.{Held, SessionHeld, Withdrawable, built-Withdrawable}
use libdvb.Ca.ConditionalAccess.Selected.Visits.{AllHeld}
use libdvb.Ca.ConditionalAccess.Objects.{
  select_built, select_all, withdraw_invalid, synchronized, selection, synchronize_session,
  confirmed, info_received, on_apdu, on_open, on_close,
}

-- A selection that is returned holds programs that can be withdrawn.
abbrev Selects : List ℕ → CiTransport × Result (Table Program) → Type 0
Selects caids r = All (Withdrawable caids) (selection r.1)

continue-Selects :
    {A : Type 0} (caids : List ℕ) (r : CiTransport × Result A) (f : A → M (Table Program))
    → ((a : A) (t : CiTransport) → r.1 ≡ ok a → Selects caids (f a t))
    → Selects caids (continue r f)
continue-Selects caids (t, ok a) f k = k a t refl
continue-Selects caids (t, err e) f k = tt
continue-Selects caids (t, panic) f k = tt

select_built-Selects :
    (slot_id session_id number : ℕ) (program : Program) (caids : List ℕ)
    (list_management : CaPmtListManagement) (r : Result (Option (List ℕ)))
    (selected : Table Program) (t : CiTransport)
    → build_ca_pmt program caids list_management ok_descrambling ≡ r
    → All (Withdrawable caids) selected
    → Selects caids (select_built slot_id session_id number program r selected t)
unfolding select_built
select_built-Selects slot_id session_id number program caids management (ok none) selected t e h = h
select_built-Selects slot_id session_id number program caids management (ok (some body)) selected t
      e h =
    continue-Selects caids (send_apdu slot_id session_id ca_pmt_tag body t) _ λ v t' sent.
      All-insert_sorted (Withdrawable caids) number program selected
        (built-Withdrawable number program caids management body e) h
select_built-Selects slot_id session_id number program caids management (err x) selected t e h = tt
select_built-Selects slot_id session_id number program caids management panic selected t e h = tt

select_all-Selects :
    (slot_id session_id : ℕ) (caids : List ℕ) (programs selected : Table Program) (t : CiTransport)
    → All (Withdrawable caids) selected
    → Selects caids (select_all slot_id session_id caids programs selected t)
unfolding select_all
select_all-Selects slot_id session_id caids [] selected t h = h
select_all-Selects slot_id session_id caids ((number, program) ∷ rest) selected t h =
    let management = list_management_for none selected in
    let built = build_ca_pmt program caids management ok_descrambling in
    let first = select_built slot_id session_id number program built selected t in
    let kept =
      select_built-Selects slot_id session_id number program caids management built selected t refl
        h in
    continue-Selects caids first (select_all slot_id session_id caids rest) λ selected' t' e.
      select_all-Selects slot_id session_id caids rest selected' t'
        (subst (λ r. All (Withdrawable caids) (selection r)) e kept)

synchronized-Selects :
    (programs : Table Program) (slot_id session_id : ℕ) (caids : List ℕ)
    (session : ConditionalAccessSession) (t : CiTransport)
    → Selects caids (synchronized programs slot_id session_id caids session t)
unfolding synchronized
synchronized-Selects programs slot_id session_id caids session t =
    let chosen = select_all-Selects slot_id session_id caids programs [] t tt in
    continue-Selects caids (select_all slot_id session_id caids programs [] t) _ λ selected t' e.
      continue-Selects caids
        (withdraw_invalid slot_id session_id selected session.caids session.selected t') _
        λ v t'' f. subst (λ r. All (Withdrawable caids) (selection r)) e chosen

confirmed-Held :
    (slot_id session_id : ℕ) (caids : List ℕ)
    (r : ConditionalAccessSession × CiTransport × Result (Unit {0})) (c : ConditionalAccessResource)
    → Held r.0.caids r.0.selected
    → AllHeld c
    → AllHeld (confirmed slot_id session_id caids r c).registry
unfolding confirmed
confirmed-Held slot_id session_id caids (session, t, ok v) c k h =
    All-insert SessionHeld session_id session c.sessions k h
confirmed-Held slot_id session_id caids (session, t, err e) c k h =
    All-insert SessionHeld session_id session c.sessions k h
confirmed-Held slot_id session_id caids (session, t, panic) c k h =
    All-insert SessionHeld session_id session c.sessions k h

info_found-Held :
    (slot_id session_id : ℕ) (caids : List ℕ) (o : Option ConditionalAccessSession)
    (c : ConditionalAccessResource) (t : CiTransport)
    → find session_id c.sessions ≡ o
    → AllHeld c
    → AllHeld (info_received slot_id session_id (ok caids) c t).registry
unfolding info_received synchronize_session
info_found-Held slot_id session_id caids none c t e h = rw (e, info_received) h
info_found-Held slot_id session_id caids (some session) c t e h =
    rw (e, info_received)
      (confirmed-Held slot_id session_id caids
        (synchronize_session c.programs slot_id session_id caids session t) c
        (synchronized-Selects c.programs slot_id session_id caids session t) h)

info_received-Held :
    (slot_id session_id : ℕ) (r : Result (List ℕ)) (c : ConditionalAccessResource) (t : CiTransport)
    → AllHeld c
    → AllHeld (info_received slot_id session_id r c t).registry
unfolding info_received
info_received-Held slot_id session_id (ok caids) c t h =
    info_found-Held slot_id session_id caids (find session_id c.sessions) c t refl h
info_received-Held slot_id session_id (err e) c t h = h
info_received-Held slot_id session_id panic c t h = h

pub on_apdu-Held :
    (slot_id session_id tag : ℕ) (body : List ℕ) (c : ConditionalAccessResource) (t : CiTransport)
    → AllHeld c
    → AllHeld (on_apdu slot_id session_id tag body c t).registry
unfolding on_apdu
on_apdu-Held slot_id session_id tag body c t h = elim (Bool-cases (tag == ca_info_tag)) [
  | inl e ↦ rw e (info_received-Held slot_id session_id (parse_ca_info body) c t h)
  | inr e ↦ elim (Bool-cases (tag == ca_pmt_reply_tag || tag == ca_update_tag)) [
    | inl f ↦ rw (e, f) h
    | inr f ↦ rw (e, f) h
  ]
]

pub on_open-Held :
    (slot_id session_id : ℕ) (c : ConditionalAccessResource) (t : CiTransport)
    → AllHeld c
    → AllHeld (on_open slot_id session_id c t).registry
unfolding on_open
on_open-Held slot_id session_id c t h =
    All-insert SessionHeld session_id (record { slot_id = slot_id; caids = none; selected = [] })
      c.sessions refl h

pub on_close-Held :
    (session_id : ℕ) (c : ConditionalAccessResource) → AllHeld c → AllHeld (on_close session_id c)
unfolding on_close
on_close-Held session_id c h = All-remove SessionHeld session_id c.sessions h
