-- ===== src/Ca/Controller/Runs.antt =====
-- Calls of the controller in any order.
use libdvb.Prelude.{ℕ, ◌≡◌, refl, List, [], ◌∷◌, Option, replicate, zero, suc, Result}
use libdvb.Ca.Capmt.{PmtSectionRef}
use libdvb.Ca.Host.{HostSession, H}
use libdvb.Ca.Pacer.{Duration}
use libdvb.Ca.Transport.{slots_num}
use libdvb.Ca.Controller.{
  absent, CiControllerConfig, ControllerIo, new_slot, ControlEvent, CiController,
}
use libdvb.Ca.Controller.Tracked.{View, statuses, Tracks, Tracks-Closed}
use libdvb.Ca.Controller.Make.{from_parts}
use libdvb.Ca.Controller.Recover.{reset}
use libdvb.Ca.Controller.Recover.Kept.{reset-Keeps}
use libdvb.Ca.Controller.Tick.{tick}
use libdvb.Ca.Controller.Tick.Kept.{tick-Keeps}
use libdvb.Ca.Controller.Poll.{poll_event}
use libdvb.Ca.Controller.Poll.Tracked.{seen_result, poll_event-Polled}
use libdvb.Ca.Controller.Commands.{slot_command, set_program, remove_program, set_ca_pmt_interval}
use libdvb.Ca.Controller.Commands.Kept.{slot_command-Keeps, set_program-Keeps, remove_program-Keeps}

-- `commands` stands for the six calls that go to one session: each is `slot_command` of a call.
pub data ControllerCall : Type 0 where
  ticks : (now : ℕ) → ControllerCall
  polls : (fuel : ℕ) → ControllerCall
  resets : ControllerCall
  commands : (slot_id : ℕ) (call : H (Unit {0})) → ControllerCall
  sets :
      (try_from : List ℕ → Option PmtSectionRef) (ca_descriptor_tag : ℕ) (pmt_section : List ℕ)
      → ControllerCall
  removes : (number : ℕ) → ControllerCall
  sets_interval : (interval : Duration) → ControllerCall

-- The controller, and the statuses that the application has been told.
abbrev pub Watched : Type 0
Watched = View × CiController

abbrev pub watch : View → CiController × Result (Option ControlEvent) → Watched
watch v x = (seen_result v x.1, x.0)

unfoldable pub step : Watched → ControllerCall → Watched
step (v, c) (ticks now) = (v, (tick now c).0)
step (v, c) (polls fuel) = watch v (poll_event fuel c)
step (v, c) resets = (v, (reset c).0)
step (v, c) (commands slot_id call) = (v, (slot_command slot_id call c).0)
step (v, c) (sets try_from ca_descriptor_tag pmt_section) =
    (v, (set_program try_from ca_descriptor_tag pmt_section c).0)
step (v, c) (removes number) = (v, (remove_program number c).0)
step (v, c) (sets_interval interval) = (v, set_ca_pmt_interval interval c)

unfoldable pub run : Watched → List ControllerCall → Watched
run w [] = w
run w (call ∷ calls) = run (step w call) calls

step-Tracks :
    (w : Watched) (call : ControllerCall) → Tracks w.0 w.1 → Tracks (step w call).0 (step w call).1
unfolding step set_ca_pmt_interval
step-Tracks (v, c) (ticks now) p = (tick-Keeps (Tracks-Closed v) now).kept c p
step-Tracks (v, c) (polls fuel) p = poll_event-Polled v fuel c p
step-Tracks (v, c) resets p = (reset-Keeps (Tracks-Closed v)).kept c p
step-Tracks (v, c) (commands slot_id call) p =
    (slot_command-Keeps (Tracks-Closed v) slot_id call).kept c p
step-Tracks (v, c) (sets try_from ca_descriptor_tag pmt_section) p =
    (set_program-Keeps (Tracks-Closed v) try_from ca_descriptor_tag pmt_section).kept c p
step-Tracks (v, c) (removes number) p = (remove_program-Keeps (Tracks-Closed v) number).kept c p
step-Tracks (v, c) (sets_interval interval) p = p

run-Follows :
    (w : Watched) (calls : List ControllerCall)
    → Tracks w.0 w.1
    → Tracks (run w calls).0 (run w calls).1
unfolding run
run-Follows w [] p = p
run-Follows w (call ∷ calls) p = run-Follows (step w call) calls (step-Tracks w call p)

-- Nothing is told of a new controller, and all its slots are absent.
abbrev pub started : HostSession → CiControllerConfig → ControllerIo → Watched
started session config control = (λ s. absent, from_parts session config control)

new_statuses : (n s : ℕ) → absent ≡ statuses (replicate n new_slot) s
new_statuses zero s = refl
new_statuses (suc n) zero = refl
new_statuses (suc n) (suc s) = new_statuses n s

-- After any calls, with any answers of the link and of the control plane, errors included: the events
-- that `poll_event` has returned and those still queued tell every change of a slot's status, in
-- order, each from the status that was told before to a different one. So an application that keeps
-- the last status of each slot is at most the queued events behind the controller.
pub run-Tracks :
    (session : HostSession) (config : CiControllerConfig) (control : ControllerIo)
    (calls : List ControllerCall)
    → Tracks
        (run (started session config control) calls).0
        (run (started session config control) calls).1
unfolding from_parts
run-Tracks session config control calls =
    run-Follows (started session config control) calls (new_statuses (slots_num session.transport))
