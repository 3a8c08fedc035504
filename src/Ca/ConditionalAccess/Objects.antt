-- ===== src/Ca/ConditionalAccess/Objects.antt =====
-- src/ca/resource/conditional_access.rs: the callbacks, and the selection of all programs once a
-- session confirms its CA systems.
pub mod Confirmed
mod Tests
use libdvb.Prelude.{
  ℕ, Bool, true, false, List, [], ◌∷◌, ◌++◌, Option, none, some, ◌==◌, ◌||◌, if◌then◌else◌, Result,
  ok, err, panic,
}
use libdvb.Ca.Apdu.Tags.{ca_info_enq_tag, ca_info_tag, ca_pmt_tag, ca_pmt_reply_tag, ca_update_tag}
use libdvb.Ca.Capmt.{
  Program, CaPmtListManagement, only, add, update, ok_descrambling, not_selected, build_ca_pmt,
}
use libdvb.Ca.Transport.{CiTransport, M, ◌>>=◌, ◌>>◌, lift, send_apdu}
use libdvb.Ca.Session.{Called}
use libdvb.Ca.Resource.Table.{Table, find, remove, insert, insert_sorted}
use libdvb.Ca.Resource.Context.{ResourceEvent, ca_info, reply, event, refuse, finish}
use libdvb.Ca.ConditionalAccess.{
  ConditionalAccessSession, ConditionalAccessResource, list_management_for, store, parse_ca_info,
}

-- What `build_ca_pmt` returned for one of the desired programs: it is sent, and selected.
select_built : ℕ → ℕ → ℕ → Program → Result (Option (List ℕ)) → Table Program → M (Table Program)
select_built slot_id session_id number program (ok none) selected = lift (ok selected)
select_built slot_id session_id number program (ok (some body)) selected = do
  send_apdu slot_id session_id ca_pmt_tag body
  lift (ok (insert_sorted number program selected))
select_built slot_id session_id number program (err e) selected = lift (err e)
select_built slot_id session_id number program panic selected = lift panic

-- The loop over the desired programs, each under its own number.
select_all : ℕ → ℕ → List ℕ → Table Program → Table Program → M (Table Program)
unfolding select_built
select_all slot_id session_id caids [] selected = lift (ok selected)
select_all slot_id session_id caids ((number, program) ∷ rest) selected = do
  selected' ←
      select_built slot_id session_id number program
        (build_ca_pmt program caids (list_management_for none selected) ok_descrambling) selected
  select_all slot_id session_id caids rest selected'

withdraw_built : ℕ → ℕ → Result (Option (List ℕ)) → M (Unit {0})
withdraw_built slot_id session_id (ok none) = lift (ok tt)
withdraw_built slot_id session_id (ok (some body)) = send_apdu slot_id session_id ca_pmt_tag body
withdraw_built slot_id session_id (err e) = lift (err e)
withdraw_built slot_id session_id panic = lift panic

-- The loop over what was selected before.
withdraw_all : ℕ → ℕ → List ℕ → Table Program → M (Unit {0})
unfolding withdraw_built
withdraw_all slot_id session_id old_caids [] = lift (ok tt)
withdraw_all slot_id session_id old_caids ((number, program) ∷ rest) = do
  withdraw_built slot_id session_id (build_ca_pmt program old_caids update not_selected)
  withdraw_all slot_id session_id old_caids rest

-- `if selected.is_empty() && let Some(old_caids) = old_caids`
withdraw_invalid : ℕ → ℕ → Table Program → Option (List ℕ) → Table Program → M (Unit {0})
unfolding withdraw_all
withdraw_invalid slot_id session_id [] (some old_caids) previous =
    withdraw_all slot_id session_id old_caids previous
withdraw_invalid slot_id session_id selected old_caids previous = lift (ok tt)

-- `synchronize_session`, up to the new selection. An early return leaves `session.selected` empty.
synchronized : Table Program → ℕ → ℕ → List ℕ → ConditionalAccessSession → M (Table Program)
unfolding select_all withdraw_invalid
synchronized programs slot_id session_id caids session = do
  selected ← select_all slot_id session_id caids programs []
  withdraw_invalid slot_id session_id selected session.caids session.selected
  lift (ok selected)

abbrev pub selection : Result (Table Program) → Table Program
selection (ok selected) = selected
selection (err e) = []
selection panic = []

abbrev pub unit_of : Result (Table Program) → Result (Unit {0})
unit_of (ok selected) = ok tt
unit_of (err e) = err e
unit_of panic = panic

pub synchronize_session :
    Table Program
    → ℕ
    → ℕ
    → List ℕ
    → ConditionalAccessSession
    → CiTransport
    → ConditionalAccessSession × CiTransport × Result (Unit {0})
unfolding synchronized
synchronize_session programs slot_id session_id caids session t =
    let (t', r) = synchronized programs slot_id session_id caids session t in
    (record session { caids = some caids; selected = selection r }, t', unit_of r)

unfoldable pub on_open :
    ℕ → ℕ → ConditionalAccessResource → CiTransport → Called ConditionalAccessResource ResourceEvent
on_open slot_id session_id c t =
    reply (store c session_id (record { slot_id = slot_id; caids = none; selected = [] })) t slot_id
      session_id ca_info_enq_tag []

-- `Self::synchronize_session(..)?`, and the event.
confirmed :
    ℕ
    → ℕ
    → List ℕ
    → ConditionalAccessSession × CiTransport × Result (Unit {0})
    → ConditionalAccessResource
    → Called ConditionalAccessResource ResourceEvent
confirmed slot_id session_id caids (session, t, ok v) c =
    event (store c session_id session) t (ca_info slot_id session_id caids)
confirmed slot_id session_id caids (session, t, err e) c =
    finish (store c session_id session) t (err e)
confirmed slot_id session_id caids (session, t, panic) c =
    finish (store c session_id session) t panic

info_received :
    ℕ
    → ℕ
    → Result (List ℕ)
    → ConditionalAccessResource
    → CiTransport
    → Called ConditionalAccessResource ResourceEvent
unfolding confirmed
info_received slot_id session_id (ok caids) c t = elim (find session_id c.sessions) [
  | none ↦ refuse c t
  | some session ↦
      confirmed slot_id session_id caids
        (synchronize_session c.programs slot_id session_id caids session t) c
]
info_received slot_id session_id (err e) c t = finish c t (err e)
info_received slot_id session_id panic c t = finish c t panic

pub on_apdu :
    ℕ
    → ℕ
    → ℕ
    → List ℕ
    → ConditionalAccessResource
    → CiTransport
    → Called ConditionalAccessResource ResourceEvent
unfolding info_received
on_apdu slot_id session_id tag body c t =
    if tag == ca_info_tag
    then info_received slot_id session_id (parse_ca_info body) c t
    else if tag == ca_pmt_reply_tag || tag == ca_update_tag
    then finish c t (ok tt)
    else refuse c t

unfoldable pub on_close : ℕ → ConditionalAccessResource → ConditionalAccessResource
on_close session_id c = record c { sessions = remove session_id c.sessions }
