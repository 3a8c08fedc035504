-- ===== src/Ca/ConditionalAccess/Selected/Wanted.antt =====
-- What a call that succeeds leaves selected in every session.
use mathlib.Core.Path.{subst}
use mathlib.Core.Option.{some-injective}
use libdvb.Prelude.{
  ℕ, ◌≡◌, ◌≢◌, inl, inr, refl, sym, ◌∙◌, true, false, Bool, List, [], ◌∷◌, none, some, Option,
  Error, ok, err, panic, ◌==◌, Bool-cases, ==→eq, arith,
}
use libdvb.Ca.Transport.{CiTransport}
use libdvb.Ca.Capmt.{contains}
use libdvb.Ca.Resource.Table.{
  Table, find, insert, keys, sort, All-find, All-insert, find-insert_self, find-insert_ne,
}
use libdvb.Ca.Resource.Table.Sorted.{contains-sort, contains-keys}
use libdvb.Ca.ConditionalAccess.{
  ConditionalAccessSession, ConditionalAccessResource, Visited, Outcome, touched_with, store,
  after_visit, visit_found, visit_all,
}
use libdvb.Ca.ConditionalAccess.Selected.{Held, SessionHeld, Keeps}
use libdvb.Ca.ConditionalAccess.Selected.Visits.{AllHeld}

err≢ok : {A : Type 0} {e : Error} {a : A} → err e ≡ ok a → ⊥
err≢ok p = cc

panic≢ok : {A : Type 0} {a : A} → panic ≡ ok a → ⊥
panic≢ok p = cc

true≢false : true ≡ false → ⊥
true≢false p = cc

abbrev Sessions : Type 0
Sessions = Table ConditionalAccessSession

module _ (Q : ConditionalAccessSession → Type 0)
    (visit : ℕ → ConditionalAccessSession → CiTransport → Visited)
    (keeps : (session_id : ℕ) → Keeps (visit session_id))
    (achieves : (session_id : ℕ) (session : ConditionalAccessSession) (t : CiTransport)
        (touches : Bool)
      → Held session.caids session.selected
      → (visit session_id session t).2 ≡ ok touches
      → Q (visit session_id session t).0) where
  -- `Q` for every session of the table but those of the ids.
  abbrev Achieved : List ℕ → Sessions → Type 0
  Achieved ids sessions =
      (id : ℕ) (session : ConditionalAccessSession)
      → contains ids id ≡ false
      → find id sessions ≡ some session
      → Q session

  Achieved-insert :
      (session_id : ℕ) (rest : List ℕ) (session : ConditionalAccessSession) (sessions : Sessions)
      → Q session
      → Achieved (session_id ∷ rest) sessions
      → Achieved rest (insert session_id session sessions)
  Achieved-insert session_id rest session sessions q h id other unseen e =
      elim (Bool-cases (session_id == id)) [
        | inl same ↦
            let key : session_id ≡ id = ==→eq session_id id same in
            let found : find id (insert id session sessions) ≡ some other =
              subst (λ k. find id (insert k session sessions) ≡ some other) key e in
            subst Q (some-injective _ _ (sym (find-insert_self id session sessions) ∙ found)) q
        | inr differ ↦
            let apart : id ≢ session_id = ground arith in
            h id other (rw (differ, unseen) refl)
              (sym (find-insert_ne id session_id session sessions apart) ∙ e)
      ]

  after_visit-Achieved :
      (session_id slot_id : ℕ) (rest touched : List ℕ) (c : ConditionalAccessResource)
      (next : List ℕ → ConditionalAccessResource → CiTransport → Outcome) (v : Visited)
      (slots : List ℕ)
      → ((touches : Bool) → v.2 ≡ ok touches → Q v.0)
      → ((touched : List ℕ) (c : ConditionalAccessResource) (t : CiTransport)
          → AllHeld c
          → Achieved rest c.sessions
          → (next touched c t).2 ≡ ok slots
          → Achieved [] (next touched c t).0.sessions)
      → AllHeld c
      → Held v.0.caids v.0.selected
      → Achieved (session_id ∷ rest) c.sessions
      → (after_visit session_id slot_id touched c next v).2 ≡ ok slots
      → Achieved [] (after_visit session_id slot_id touched c next v).0.sessions
  unfolding after_visit
  after_visit-Achieved session_id slot_id rest touched c next (session, t, ok touches) slots q n h k
        d e =
      n (touched_with touches slot_id touched) (store c session_id session) t
        (All-insert SessionHeld session_id session c.sessions k h)
        (Achieved-insert session_id rest session c.sessions (q touches refl) d) e
  after_visit-Achieved session_id slot_id rest touched c next (session, t, err x) slots q n h k d
        e =
      absurd (err≢ok e)
  after_visit-Achieved session_id slot_id rest touched c next (session, t, panic) slots q n h k d
        e =
      absurd (panic≢ok e)

  visit_found-Achieved :
      (session_id : ℕ) (rest touched : List ℕ) (c : ConditionalAccessResource) (t : CiTransport)
      (next : List ℕ → ConditionalAccessResource → CiTransport → Outcome)
      (o : Option ConditionalAccessSession) (slots : List ℕ)
      → find session_id c.sessions ≡ o
      → ((touched : List ℕ) (c : ConditionalAccessResource) (t : CiTransport)
          → AllHeld c
          → Achieved rest c.sessions
          → (next touched c t).2 ≡ ok slots
          → Achieved [] (next touched c t).0.sessions)
      → AllHeld c
      → Achieved (session_id ∷ rest) c.sessions
      → (visit_found (visit session_id) session_id touched c t next o).2 ≡ ok slots
      → Achieved [] (visit_found (visit session_id) session_id touched c t next o).0.sessions
  unfolding visit_found
  visit_found-Achieved session_id rest touched c t next none slots f n h d e = absurd (panic≢ok e)
  visit_found-Achieved session_id rest touched c t next (some session) slots f n h d e =
      let held = All-find SessionHeld session_id c.sessions h f in
      after_visit-Achieved session_id session.slot_id rest touched c next
        (visit session_id session t) slots
        (λ touches r. achieves session_id session t touches held r) n h
        (keeps session_id session t held) d e

  visit_all-Achieved :
      (ids touched : List ℕ) (c : ConditionalAccessResource) (t : CiTransport) (slots : List ℕ)
      → AllHeld c
      → Achieved ids c.sessions
      → (visit_all visit ids touched c t).2 ≡ ok slots
      → Achieved [] (visit_all visit ids touched c t).0.sessions
  unfolding visit_all
  visit_all-Achieved [] touched c t slots h d e = d
  visit_all-Achieved (session_id ∷ rest) touched c t slots h d e =
      visit_found-Achieved session_id rest touched c t (visit_all visit rest)
        (find session_id c.sessions) slots refl
        (λ touched' c' t'. visit_all-Achieved rest touched' c' t' slots) h d e

  all_keys : (sessions : Sessions) → Achieved (sort (keys sessions)) sessions
  all_keys sessions id session unseen e = absurd (
      true≢false
        (sym (contains-sort (keys sessions) id ∙ contains-keys id session sessions e) ∙ unseen))

  -- Once the loop over all the sessions has succeeded, every session is as a visit leaves it.
  pub visit_every-Achieved :
      (c : ConditionalAccessResource) (t : CiTransport) (slots : List ℕ)
      → AllHeld c
      → (visit_all visit (sort (keys c.sessions)) [] c t).2 ≡ ok slots
      → (id : ℕ) (session : ConditionalAccessSession)
      → find id (visit_all visit (sort (keys c.sessions)) [] c t).0.sessions ≡ some session
      → Q session
  visit_every-Achieved c t slots h e id session f =
      visit_all-Achieved (sort (keys c.sessions)) [] c t slots h (all_keys c.sessions) e id session
        refl f
