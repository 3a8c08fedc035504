-- ===== src/Ca/Controller/Poll/Fuel.antt =====
-- src/ca/controller.rs: the fuel of `poll_event`.
use libdvb.Prelude.{
  arith, if◌then◌else◌, true, false, ℕ, zero, suc, ◌+◌, ◌∙◌, sym, ap, ◌≢◌, ◌≡◌, refl, Option, none,
  some, Result, ok, err, panic,
}
use libdvb.Ca.Controller.{ControlEvent, CiController, K, next_step, ◌>>=◌, collect_session_events}
use libdvb.Ca.Controller.Poll.{
  receive, frame_received, event_or, poll_received, poll_rounds, poll_link, poll_event, pop_front,
}

-- Where `next` does not run out of fuel, `more` does the same.
record Extends (next more : K (Option ControlEvent)) : Type 0 where
  same : (c : CiController) → (next c).1 ≢ panic → more c ≡ next c

next_step-Extends :
    {A : Type 0} (r : CiController × Result A) (f g : A → K (Option ControlEvent))
    → ((v : A) → Extends (f v) (g v))
    → (next_step r f).1 ≢ panic
    → next_step r g ≡ next_step r f
next_step-Extends (c, ok v) f g h done = (h v).same c done
next_step-Extends (c, err e) f g h done = refl
next_step-Extends (c, panic) f g h done = refl

event_or-Extends :
    (next more : K (Option ControlEvent))
    → Extends next more
    → (event : Option ControlEvent) → Extends (event_or next event) (event_or more event)
unfolding event_or
event_or-Extends next more h none = h
event_or-Extends next more h (some event) = record { same = λ c done. refl }

poll_received-Extends :
    (next more : K (Option ControlEvent))
    → Extends next more
    → (received : Option ℕ) → Extends (poll_received next received) (poll_received more received)
unfolding poll_received
poll_received-Extends next more h none = record { same = λ c done. refl }
poll_received-Extends next more h (some slot_id) = record {
  same = λ c done.
      next_step-Extends (frame_received slot_id c) (λ v. pop_front >>= event_or next)
        (λ v. pop_front >>= event_or more)
        (λ v. record {
          same = λ d.
              next_step-Extends (pop_front d) (event_or next) (event_or more)
                (event_or-Extends next more h);
        })
        done;
}

poll_rounds-Extends : (fuel : ℕ) → Extends (poll_rounds fuel) (poll_rounds (suc fuel))
unfolding poll_rounds
poll_rounds-Extends zero = record { same = λ c done. absurd (done refl) }
poll_rounds-Extends (suc fuel) = record {
  same = λ c.
      next_step-Extends (receive c) (poll_received (poll_rounds fuel))
        (poll_received (poll_rounds (suc fuel)))
        (poll_received-Extends (poll_rounds fuel) (poll_rounds (suc fuel))
          (poll_rounds-Extends fuel));
}

poll_link-Extends : (fuel : ℕ) → Extends (poll_link fuel) (poll_link (suc fuel))
unfolding poll_link
poll_link-Extends fuel = record {
  same = λ c.
      elim c.link_suspended
        as (λ b.
          (if b then (c, ok none) else poll_rounds fuel c).1 ≢ panic
          → (if b then (c, ok none) else poll_rounds (suc fuel) c)
            ≡ (if b then (c, ok none) else poll_rounds fuel c)) [
              | true ↦ λ done. refl
              | false ↦ (poll_rounds-Extends fuel).same c
            ];
}

poll_event-Extends : (fuel : ℕ) → Extends (poll_event fuel) (poll_event (suc fuel))
unfolding poll_event
poll_event-Extends fuel = record {
  same = λ c.
      next_step-Extends (collect_session_events c) (λ v. pop_front >>= event_or (poll_link fuel))
        (λ v. pop_front >>= event_or (poll_link (suc fuel)))
        (λ v. record {
          same = λ d.
              next_step-Extends (pop_front d) (event_or (poll_link fuel))
                (event_or (poll_link (suc fuel)))
                (event_or-Extends (poll_link fuel) (poll_link (suc fuel)) (poll_link-Extends fuel));
        });
}

-- Where `poll_event` does not run out of fuel, more fuel changes nothing: what it does is then what
-- the loop of the source does.
pub poll_event-fuel :
    (more fuel : ℕ) (c : CiController)
    → (poll_event fuel c).1 ≢ panic
    → poll_event (more + fuel) c ≡ poll_event fuel c
poll_event-fuel zero fuel c done =
    let none_more : 0 + fuel ≡ fuel = omega arith in ap (λ n. poll_event n c) none_more
poll_event-fuel (suc more) fuel c done =
    let one_more : suc more + fuel ≡ suc (more + fuel) = omega arith in
    let same = poll_event-fuel more fuel c done in
    ap (λ n. poll_event n c) one_more
    ∙ (poll_event-Extends (more + fuel)).same c (λ e. done (sym (ap (λ r. r.1) same) ∙ e))
    ∙ same
