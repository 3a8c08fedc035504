-- ===== src/Ca/Pacer/Calls.antt =====
-- Sequences of calls on a pacer.
use libdvb.Prelude.{ℕ, List, [], ◌∷◌, Option, none}
use libdvb.Ca.Capmt.{Program}
use libdvb.Ca.Pacer.{
  CaPmtPacer, CaPmtChange, Instant, Duration, push_set, push_remove, set_interval,
  arm_application_info, arm_ca_info, reset_gate, poll,
}

-- The calls that change a pacer, with their arguments.
pub data Call : Type 0 where
  sets : (program : Program) → Call
  removes : (number : ℕ) → Call
  sets_interval : (interval : Duration) → Call
  hears_application_info : (now : Instant) → Call
  hears_ca_info : (now : Instant) → Call
  resets : Call
  polls : (now : Instant) → Call

-- The pacer after a call, and the change that it released.
unfoldable pub step : CaPmtPacer → Call → CaPmtPacer × Option CaPmtChange
step p (sets program) = (push_set p program, none)
step p (removes number) = (push_remove p number, none)
step p (sets_interval interval) = (set_interval p interval, none)
step p (hears_application_info now) = (arm_application_info p now, none)
step p (hears_ca_info now) = (arm_ca_info p now, none)
step p resets = (reset_gate p, none)
step p (polls now) = poll p now

unfoldable pub run : CaPmtPacer → List Call → CaPmtPacer
unfolding step
run p [] = p
run p (c ∷ cs) = run (step p c).0 cs
