-- ===== src/Ca/Pacer/Queue.antt =====
-- What the queue holds of each program, after any calls.
use libdvb.Prelude.{
  ℕ, ◌≡◌, inl, inr, refl, sym, ◌∙◌, Bool, true, false, not, ◌&&◌, List, [], ◌∷◌, ◌++◌, append-nil,
  retain, retain-append, retain-retain, ==_refl, ==→eq, ◌==◌, Bool-cases, arith, none, drop,
  if◌then◌else◌,
}
use mathlib.Core.Path.{subst}
use libdvb.Ca.Capmt.{Program}
use libdvb.Ca.Pacer.Calls.{
  Call, sets, removes, sets_interval, hears_application_info, hears_ca_info, resets, polls, step,
  run,
}
use libdvb.Ca.Pacer.{
  CaPmtPacer, CaPmtChange, select, remove, program_number, selects, push_set, push_remove, poll,
  poll_gate, pass, pop_front, new, Instant, Duration, Gate, not_ready, armed, ready_since, gated,
  checked_add, set_interval, arm_application_info, arm_ca_info, reset_gate,
}

-- The queued changes of one program, in order.
abbrev pub changes_of : ℕ → List CaPmtChange → List CaPmtChange
changes_of number queue = retain (λ change. program_number change == number) queue

-- Nothing, a select, a remove, or a remove and then a select.
pub data IsPending (number : ℕ) : List CaPmtChange → Type 0 where
  nothing : IsPending number []
  selected : (p : Program) → p.program_number ≡ number → IsPending number (select p ∷ [])
  removed : IsPending number (remove number ∷ [])
  replaced :
      (p : Program) → p.program_number ≡ number → IsPending number (remove number ∷ select p ∷ [])

abbrev pub Deduplicated : List CaPmtChange → Type 0
Deduplicated queue = (number : ℕ) → IsPending number (changes_of number queue)

-- The queue's changes of another program stay as they are under a `retain` that keeps them.
changes_of-retain :
    (number : ℕ) (keep : CaPmtChange → Bool) (queue : List CaPmtChange)
    → ((c : CaPmtChange) → (keep c && (program_number c == number)) ≡ (program_number c == number))
    → changes_of number (retain keep queue) ≡ changes_of number queue
changes_of-retain number keep queue h =
    retain-retain keep (λ c. program_number c == number) _ queue h

and_comm : (a b : Bool) → (a && b) ≡ (b && a)
and_comm true true = refl
and_comm true false = refl
and_comm false true = refl
and_comm false false = refl

-- A retain after `changes_of` is one before.
swapped :
    (number : ℕ) (keep : CaPmtChange → Bool) (queue : List CaPmtChange)
    → changes_of number (retain keep queue) ≡ retain keep (changes_of number queue)
swapped number keep queue =
    retain-retain keep (λ c. program_number c == number)
      (λ c. keep c && (program_number c == number)) queue (λ c. refl)
    ∙ sym (
        retain-retain (λ c. program_number c == number) keep
          (λ c. keep c && (program_number c == number)) queue
          (λ c. and_comm (program_number c == number) (keep c)))

push_set-IsPending :
    (p : Program) (changes : List CaPmtChange)
    → IsPending p.program_number changes
    → IsPending p.program_number
        (retain (λ c. not (selects p.program_number c)) changes ++ (select p ∷ []))
unfolding retain
push_set-IsPending p changes nothing = selected p refl
push_set-IsPending p changes (selected q e) = rw (e, ==_refl p.program_number) (selected p refl)
push_set-IsPending p changes removed = replaced p refl
push_set-IsPending p changes (replaced q e) = rw (e, ==_refl p.program_number) (replaced p refl)

-- `c` at the end, if it is of this program.
changes_of-push :
    (number : ℕ) (queue : List CaPmtChange) (c : CaPmtChange)
    → changes_of number (queue ++ (c ∷ []))
      ≡ changes_of number queue ++ (if program_number c == number then c ∷ [] else [])
unfolding retain
changes_of-push number queue c = retain-append (λ c'. program_number c' == number) queue (c ∷ [])

-- A change of another program at the end.
push_other :
    (number : ℕ) (queue : List CaPmtChange) (c : CaPmtChange)
    → (program_number c == number) ≡ false
    → IsPending number (changes_of number queue)
    → IsPending number (changes_of number (queue ++ (c ∷ [])))
push_other number queue c other h =
    rw (changes_of-push number queue c, other, append-nil (changes_of number queue)) h

-- A change of the program itself at the end.
push_same :
    (number : ℕ) (queue : List CaPmtChange) (c : CaPmtChange)
    → (program_number c == number) ≡ true
    → IsPending number (changes_of number queue ++ (c ∷ []))
    → IsPending number (changes_of number (queue ++ (c ∷ [])))
push_same number queue c same h = rw (changes_of-push number queue c, same) h

push_set-Deduplicated :
    (p : CaPmtPacer) (program : Program)
    → Deduplicated p.queue
    → Deduplicated (push_set p program).queue
unfolding push_set
push_set-Deduplicated p program h number = elim (Bool-cases (program.program_number == number)) [
  | inl same ↦ push_same number _ (select program) same (
      subst
        (λ n. IsPending n (
          changes_of n (retain (λ c. not (selects program.program_number c)) p.queue)
          ++ (select program ∷ [])))
        (==→eq _ _ same)
        (rw (swapped program.program_number (λ c. not (selects program.program_number c)) p.queue)
          (push_set-IsPending program _ (h program.program_number))))
  | inr other ↦ push_other number _ (select program) other (
      rw
        (changes_of-retain number (λ c. not (selects program.program_number c)) p.queue
          (kept other))
        (h number))
]
  where
    kept :
        (program.program_number == number) ≡ false
        → (c : CaPmtChange)
        → (not (selects program.program_number c) && (program_number c == number))
          ≡ (program_number c == number)
    kept other (select q) = ground arith
    kept other (remove n) = refl

retain_none : (queue : List CaPmtChange) → retain (λ c. false) queue ≡ []
unfolding retain
retain_none [] = refl
retain_none (c ∷ queue) = retain_none queue

push_remove-Deduplicated :
    (p : CaPmtPacer) (removing : ℕ)
    → Deduplicated p.queue
    → Deduplicated (push_remove p removing).queue
unfolding push_remove
push_remove-Deduplicated p removing h number = elim (Bool-cases (removing == number)) [
  | inl same ↦ push_same number _ (remove removing) same (
      subst
        (λ n. IsPending n (
          changes_of n (retain (λ c. not (program_number c == removing)) p.queue)
          ++ (remove removing ∷ [])))
        (==→eq _ _ same) (rw (dropped, retain_none p.queue) removed))
  | inr other ↦ push_other number _ (remove removing) other (
      rw (changes_of-retain number (λ c. not (program_number c == removing)) p.queue (kept other))
        (h number))
]
  where
    dropped :
        changes_of removing (retain (λ c. not (program_number c == removing)) p.queue)
        ≡ retain (λ c. false) p.queue
    dropped = retain-retain _ _ (λ c. false) p.queue λ c. ground arith

    kept :
        (removing == number) ≡ false
        → (c : CaPmtChange)
        → (not (program_number c == removing) && (program_number c == number))
          ≡ (program_number c == number)
    kept other c = ground arith

tail-IsPending :
    (number : ℕ) (changes : List CaPmtChange)
    → IsPending number changes
    → IsPending number (drop 1 changes)
tail-IsPending number changes nothing = nothing
tail-IsPending number changes (selected p e) = nothing
tail-IsPending number changes removed = nothing
tail-IsPending number changes (replaced p e) = selected p e

tail-Deduplicated :
    (c : CaPmtChange) (queue : List CaPmtChange) → Deduplicated (c ∷ queue) → Deduplicated queue
unfolding retain
tail-Deduplicated c queue h number =
    go (program_number c == number) (changes_of number queue) (h number)
  where
    go :
        (b : Bool) (changes : List CaPmtChange)
        → IsPending number (if b then c ∷ changes else changes)
        → IsPending number changes
    go false changes k = k
    go true changes k = tail-IsPending number (c ∷ changes) k

pop_front-Deduplicated :
    (p : CaPmtPacer) (queue : List CaPmtChange)
    → p.queue ≡ queue
    → Deduplicated queue
    → Deduplicated (pop_front p queue).0.queue
unfolding pop_front
pop_front-Deduplicated p [] e h = rw e h
pop_front-Deduplicated p (c ∷ queue) e h = tail-Deduplicated c queue h

pass-Deduplicated :
    (p : CaPmtPacer) (was_open : Bool) (stamp now : Instant)
    → Deduplicated p.queue
    → Deduplicated (pass p was_open stamp now).0.queue
unfolding pass
pass-Deduplicated p was_open stamp now h =
    elim (Bool-cases (gated (checked_add stamp p.interval) now)) [
      | inl closed ↦ rw closed h
      | inr due ↦ rw due (released was_open)
    ]
  where
    released :
        (b : Bool)
        → Deduplicated
            (if b
              then pop_front (record p { gate = ready_since now }) p.queue
              else (record p { gate = ready_since now }, none)).0.queue
    released false = h
    released true = pop_front-Deduplicated (record p { gate = ready_since now }) p.queue refl h

poll_gate-Deduplicated :
    (p : CaPmtPacer) (gate : Gate) (now : Instant)
    → Deduplicated p.queue
    → Deduplicated (poll_gate p gate now).0.queue
unfolding poll_gate
poll_gate-Deduplicated p not_ready now h = h
poll_gate-Deduplicated p (armed stamp) now h = pass-Deduplicated p false stamp now h
poll_gate-Deduplicated p (ready_since stamp) now h = pass-Deduplicated p true stamp now h

step-Deduplicated :
    (p : CaPmtPacer) (c : Call) → Deduplicated p.queue → Deduplicated (step p c).0.queue
unfolding step set_interval arm_application_info arm_ca_info reset_gate poll
step-Deduplicated p (sets program) h = push_set-Deduplicated p program h
step-Deduplicated p (removes number) h = push_remove-Deduplicated p number h
step-Deduplicated p (sets_interval interval) h = h
step-Deduplicated p (hears_application_info now) h = h
step-Deduplicated p (hears_ca_info now) h = h
step-Deduplicated p resets h = h
step-Deduplicated p (polls now) h = poll_gate-Deduplicated p p.gate now h

run_from-Deduplicated :
    (p : CaPmtPacer) (calls : List Call) → Deduplicated p.queue → Deduplicated (run p calls).queue
unfolding run
run_from-Deduplicated p [] h = h
run_from-Deduplicated p (c ∷ calls) h =
    run_from-Deduplicated (step p c).0 calls (step-Deduplicated p c h)

-- After any calls on a new pacer, the queue holds for each program nothing, one select, one remove,
-- or one remove that is ahead of one select.
pub run-Deduplicated :
    (interval settle : Duration) (calls : List Call)
    → Deduplicated (run (new interval settle) calls).queue
unfolding new retain
run-Deduplicated interval settle calls =
    run_from-Deduplicated (new interval settle) calls λ number. nothing
