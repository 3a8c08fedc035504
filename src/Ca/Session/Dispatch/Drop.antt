-- ===== src/Ca/Session/Dispatch/Drop.antt =====
-- A dropped slot has no sessions left.
use libdvb.Prelude.{
  u16, ◌≤◌, ℕ, zero, suc, ◌+◌, ◌≡◌, inl, inr, refl, ◌∙◌, arith, true, Bool-cases, Option, none,
  some, length, length-set, set, take, ok, err, panic, Result,
}
use mathlib.Core.Path.{subst}
use libdvb.Ca.Transport.{clear_slot}
use libdvb.Ca.Session.{
  Session, Resources, CiSession, S, proceed, session_at, is_of, freed, free_session, in_use, ◌>>=◌,
}
use libdvb.Ca.Session.Table.Clear.{in_use-pass, in_use-free, take-length, in_use-start}
use libdvb.Ca.Session.Dispatch.{drop_from, drop_slot}

module _ {R E : Type 0} (calls : Resources R E) where
  -- Freeing an entry that is in use empties it, and does not fail.
  free_session-owned :
      (slot_id index : ℕ) (s : CiSession R E)
      → is_of slot_id (session_at s.sessions (suc index)) ≡ true
      → ((free_session calls (suc index) s).0.sessions ≡ set s.sessions index none)
        × ((free_session calls (suc index) s).1 ≡ ok tt)
  unfolding free_session freed
  free_session-owned slot_id index s mine = go (session_at s.sessions (suc index)) mine
    where
      go :
          (o : Option Session)
          → is_of slot_id o ≡ true
          → ((freed calls index o s).0.sessions ≡ set s.sessions index none)
            × ((freed calls index o s).1 ≡ ok tt)
      go none m = cc
      go (some session) m = (refl, refl)

  bind-done :
      {A : Type 0} (m : S R E (Unit {0})) (f : Unit {0} → S R E A) (s : CiSession R E)
      → (m s).1 ≡ ok tt
      → (m >>= f) s ≡ f tt (m s).0
  bind-done {A} m f s e = go (m s) e
    where
      go :
          (r : CiSession R E × Result (Unit {0}))
          → r.1 ≡ ok tt
          → proceed {R = R} {E = E} {A = Unit {0}} {B = A} r f ≡ f tt r.0
      go (s', ok u) e = refl
      go (s', err x) e = cc
      go (s', panic) e = cc

  drop_from-clears :
      (slot_id index n : ℕ) (s : CiSession R E)
      → in_use slot_id (take index s.sessions) ≡ 0
      → index + n ≡ length s.sessions
      → length s.sessions ≤ 65535
      → in_use slot_id (drop_from calls slot_id index n s).0.sessions ≡ 0
  unfolding drop_from
  drop_from-clears slot_id index zero s clear e few =
      subst (λ l. in_use slot_id l ≡ 0) (take-length s.sessions)
        (subst (λ k. in_use slot_id (take k s.sessions) ≡ 0) (omega arith) clear)
  drop_from-clears slot_id index (suc n) s clear e few =
      elim (Bool-cases (is_of slot_id (session_at s.sessions (suc index)))) [
        | inl mine ↦
            let s' = (free_session calls (suc index) s).0 in
            let (emptied, fine) = free_session-owned slot_id index s mine in
            let whole : u16 (suc index) ≡ suc index = omega arith in
            rw
              (
                mine,
                whole,
                bind-done (free_session calls (suc index))
                    (λ _. drop_from calls slot_id (suc index) n) s fine,
              )
              (drop_from-clears slot_id (suc index) n s'
                (rw emptied (in_use-free slot_id s.sessions index ∙ clear))
                (rw emptied (omega (arith, e, length-set s.sessions index none)))
                (rw emptied (omega (arith, few, length-set s.sessions index none))))
        | inr other ↦ rw other (
            drop_from-clears slot_id (suc index) n s
              (in_use-pass slot_id s.sessions index other ∙ clear) (omega arith) few)
      ]

  -- In a table of at most 65535 entries, as many as there are session numbers of 16 bits, the slot
  -- has no sessions after `drop_slot`, in whatever state they were.
  pub drop_slot-clears :
      (slot_id : ℕ) (s : CiSession R E)
      → length s.sessions ≤ 65535
      → in_use slot_id (drop_slot calls slot_id s).0.sessions ≡ 0
  unfolding drop_slot
  drop_slot-clears slot_id s few =
      drop_from-clears slot_id 0 (length s.sessions)
        (record s { transport = clear_slot s.transport slot_id }) (in_use-start slot_id s.sessions)
        (omega arith) few
