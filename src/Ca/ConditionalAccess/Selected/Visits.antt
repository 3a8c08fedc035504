-- ===== src/Ca/ConditionalAccess/Selected/Visits.antt =====
-- The loops over the sessions keep what every session holds withdrawable.
use libdvb.Prelude.{
  ℕ, ◌≡◌, refl, List, [], ◌∷◌, none, some, Option, All, ok, err, panic, Bool-cases, inl, inr,
}
use libdvb.Ca.Capmt.{Program}
use libdvb.Ca.Transport.{CiTransport}
use libdvb.Ca.Resource.Table.{find, remove, insert_sorted, keys, sort, All-insert, All-find}
use libdvb.Ca.ConditionalAccess.{
  ConditionalAccessSession, ConditionalAccessResource, Visited, Outcome, touched_with, store,
  after_visit, visit_found, visit_all, set_program, remove_program, set_session, remove_session,
  unchanged,
}
use libdvb.Ca.ConditionalAccess.Selected.{
  Held, SessionHeld, Keeps, set_session-Keeps, remove_session-Keeps,
}

-- All the sessions of the resource.
abbrev pub AllHeld : ConditionalAccessResource → Type 0
AllHeld c = All SessionHeld c.sessions

abbrev Next : Type 0
Next = List ℕ → ConditionalAccessResource → CiTransport → Outcome

abbrev NextHeld : Next → Type 0
NextHeld next =
    (touched : List ℕ) (c : ConditionalAccessResource) (t : CiTransport)
    → AllHeld c
    → AllHeld (next touched c t).0

after_visit-Held :
    (session_id slot_id : ℕ) (touched : List ℕ) (c : ConditionalAccessResource) (next : Next)
    (v : Visited)
    → NextHeld next
    → AllHeld c
    → Held v.0.caids v.0.selected
    → AllHeld (after_visit session_id slot_id touched c next v).0
unfolding after_visit
after_visit-Held session_id slot_id touched c next (session, t, ok touches) n h k =
    n (touched_with touches slot_id touched) (store c session_id session) t
      (All-insert SessionHeld session_id session c.sessions k h)
after_visit-Held session_id slot_id touched c next (session, t, err e) n h k =
    All-insert SessionHeld session_id session c.sessions k h
after_visit-Held session_id slot_id touched c next (session, t, panic) n h k =
    All-insert SessionHeld session_id session c.sessions k h

visit_found-Held :
    (visit : ConditionalAccessSession → CiTransport → Visited) (session_id : ℕ) (touched : List ℕ)
    (c : ConditionalAccessResource) (t : CiTransport) (next : Next)
    (o : Option ConditionalAccessSession)
    → Keeps visit
    → NextHeld next
    → AllHeld c
    → find session_id c.sessions ≡ o
    → AllHeld (visit_found visit session_id touched c t next o).0
unfolding visit_found
visit_found-Held visit session_id touched c t next none k n h e = h
visit_found-Held visit session_id touched c t next (some session) k n h e =
    after_visit-Held session_id session.slot_id touched c next (visit session t) n h
      (k session t (All-find SessionHeld session_id c.sessions h e))

visit_all-Held :
    (visit : ℕ → ConditionalAccessSession → CiTransport → Visited) (ids : List ℕ)
    → ((session_id : ℕ) → Keeps (visit session_id))
    → NextHeld (visit_all visit ids)
unfolding visit_all
visit_all-Held visit [] k touched c t h = h
visit_all-Held visit (session_id ∷ rest) k touched c t h =
    visit_found-Held (visit session_id) session_id touched c t (visit_all visit rest)
      (find session_id c.sessions) (k session_id) (visit_all-Held visit rest k) h refl

pub set_program-Held :
    (program : Program) (c : ConditionalAccessResource) (t : CiTransport)
    → AllHeld c
    → AllHeld (set_program program c t).0
unfolding set_program
set_program-Held program c t h =
    let changed = record c { programs = insert_sorted program.program_number program c.programs } in
    let visited =
      visit_all-Held (set_session program) (sort (keys c.sessions)) (set_session-Keeps program) []
        changed t h in
    elim (Bool-cases (unchanged program (find program.program_number c.programs))) [
      | inl e ↦ rw e h
      | inr e ↦ rw e visited
    ]

removed-Held :
    (number : ℕ) (o : Option Program) (c : ConditionalAccessResource) (t : CiTransport)
    → find number c.programs ≡ o
    → AllHeld c
    → AllHeld (remove_program number c t).0
unfolding remove_program
removed-Held number none c t e h = rw (e, remove_program) h
removed-Held number (some program) c t e h =
    rw (e, remove_program)
      (visit_all-Held (remove_session number) (sort (keys c.sessions)) (remove_session-Keeps number)
        [] (record c { programs = remove number c.programs }) t h)

pub remove_program-Held :
    (number : ℕ) (c : ConditionalAccessResource) (t : CiTransport)
    → AllHeld c
    → AllHeld (remove_program number c t).0
remove_program-Held number c t h = removed-Held number (find number c.programs) c t refl h
