-- ===== src/Ca/Pacer.antt =====
-- src/ca/pacer.rs: the queue of program changes behind the readiness gate. An `Instant` is a number of
-- nanoseconds below a limit, a `Duration` a number of nanoseconds.
pub mod Queue
pub mod Pace
pub mod Calls
mod Tests
use libdvb.Prelude.{
  ℕ, ◌+◌, ◌*◌, Bool, true, false, not, ◌&&◌, List, [], ◌∷◌, ◌++◌, ltb, leb, ◌==◌, if◌then◌else◌,
  retain, Option, none, some,
}
use libdvb.Ca.Capmt.{Program}

abbrev pub Instant : Type 0
Instant = ℕ

abbrev pub Duration : Type 0
Duration = ℕ

-- `Instant::checked_add`: the seconds are an `i64`.
abbrev pub instant_limit : ℕ
instant_limit = 9223372036854775808 * 1000000000

abbrev pub checked_add : Instant → Duration → Option Instant
checked_add a b = if ltb (a + b) instant_limit then some (a + b) else none

pub data CaPmtChange : Type 0 where
  select : (program : Program) → CaPmtChange
  remove : (number : ℕ) → CaPmtChange

abbrev pub program_number : CaPmtChange → ℕ
program_number (select program) = program.program_number
program_number (remove number) = number

pub data Gate : Type 0 where
  not_ready : Gate
  armed : (stamp : Instant) → Gate
  ready_since : (stamp : Instant) → Gate

pub record CaPmtPacer : Type 0 where
  pub interval : Duration
  pub settle : Duration
  pub gate : Gate
  pub queue : List CaPmtChange

pub new : Duration → Duration → CaPmtPacer
new interval settle = record { interval = interval; settle = settle; gate = not_ready; queue = [] }

pub set_interval : CaPmtPacer → Duration → CaPmtPacer
set_interval p interval = record p { interval = interval }

abbrev pub is_ready : Gate → Bool
is_ready not_ready = false
is_ready (armed stamp) = false
is_ready (ready_since stamp) = true

-- `ready`
pub ready : CaPmtPacer → Bool
ready p = is_ready p.gate

-- `matches!(change, CaPmtChange::Set(queued) if queued.program_number() == program_number)`
abbrev pub selects : ℕ → CaPmtChange → Bool
selects number (select queued) = queued.program_number == number
selects number (remove other) = false

pub push_set : CaPmtPacer → Program → CaPmtPacer
push_set p program = record p {
  queue =
      retain (λ change. not (selects program.program_number change)) p.queue
      ++ (select program ∷ []);
}

pub push_remove : CaPmtPacer → ℕ → CaPmtPacer
push_remove p number = record p {
  queue = retain (λ change. not (program_number change == number)) p.queue ++ (remove number ∷ []);
}

-- `unwrap_or(now)`
abbrev or_now : Option Instant → Instant → Instant
or_now none now = now
or_now (some stamp) now = stamp

pub arm_application_info : CaPmtPacer → Instant → CaPmtPacer
arm_application_info p now = record p { gate = armed (or_now (checked_add now p.settle) now) }

pub arm_ca_info : CaPmtPacer → Instant → CaPmtPacer
arm_ca_info p now = record p { gate = armed now }

pub reset_gate : CaPmtPacer → CaPmtPacer
reset_gate p = record p { gate = not_ready }

-- `is_none_or(|deadline| now <= deadline)`
abbrev pub gated : Option Instant → Instant → Bool
gated none now = true
gated (some deadline) now = leb now deadline

-- `pop_front`
pop_front : CaPmtPacer → List CaPmtChange → CaPmtPacer × Option CaPmtChange
pop_front p [] = (p, none)
pop_front p (change ∷ rest) = (record p { queue = rest }, some change)

-- What follows the `match` on the gate, which gives `stamp` and whether the gate is `Ready`.
pass : CaPmtPacer → Bool → Instant → Instant → CaPmtPacer × Option CaPmtChange
unfolding pop_front
pass p was_open stamp now =
    if gated (checked_add stamp p.interval) now
    then (p, none)
    else let opened : CaPmtPacer = record p { gate = ready_since now } in
      if was_open then pop_front opened opened.queue else (opened, none)

-- The `match` on the gate.
poll_gate : CaPmtPacer → Gate → Instant → CaPmtPacer × Option CaPmtChange
unfolding pass
poll_gate p not_ready now = (p, none)
poll_gate p (armed stamp) now = pass p false stamp now
poll_gate p (ready_since stamp) now = pass p true stamp now

pub poll : CaPmtPacer → Instant → CaPmtPacer × Option CaPmtChange
unfolding poll_gate
poll p now = poll_gate p p.gate now
