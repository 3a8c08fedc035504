-- ===== src/Ca/Pacer/Pace.antt =====
-- When the pacer releases changes.
use libdvb.Prelude.{
  ◌+◌, ◌≤◌, ◌<◌, ◌≡◌, refl, Bool, true, false, List, [], ◌∷◌, Option, none, some, arith, All,
  if◌then◌else◌,
}
use libdvb.Ca.Pacer.Calls.{
  Call, sets, removes, sets_interval, hears_application_info, hears_ca_info, resets, polls, step,
}
use libdvb.Ca.Pacer.{
  CaPmtPacer, CaPmtChange, new, or_now, push_set, push_remove, poll, poll_gate, pass, pop_front,
  Instant, Duration, Gate, not_ready, armed, ready_since, gated, checked_add, set_interval,
  arm_application_info, arm_ca_info, reset_gate,
}

-- The gate's stamp, if it has one, is `last` or later.
abbrev pub Since : Instant → Gate → Type 0
Since last not_ready = Unit
Since last (armed stamp) = last ≤ stamp
Since last (ready_since stamp) = last ≤ stamp

-- What a poll does, if the gate's stamp is `last` or later and it is `now` after that.
abbrev Polled : Instant → Instant → CaPmtPacer → CaPmtPacer × Option CaPmtChange → Type 0
Polled last now p (p', none) = Since last p'.gate × (p'.interval ≡ p.interval)
Polled last now p (p', some change) =
    Since now p'.gate × (last + p.interval < now) × (p'.interval ≡ p.interval)

pop_front-Polled :
    (last now : Instant) (p : CaPmtPacer) (queue : List CaPmtChange)
    → last ≤ now
    → p.gate ≡ ready_since now
    → last + p.interval < now
    → Polled last now p (pop_front p queue)
unfolding pop_front
pop_front-Polled last now p [] l g d = (rw g l, refl)
pop_front-Polled last now p (c ∷ queue) l g d = (rw g (omega arith), d, refl)

gated-due :
    (stamp now : Instant) (interval : Duration)
    → gated (checked_add stamp interval) now ≡ false
    → stamp + interval < now
gated-due stamp now interval h = ground arith

pass-Polled :
    (last now : Instant) (p : CaPmtPacer) (was_open : Bool) (stamp : Instant)
    → Since last p.gate
    → last ≤ stamp
    → Polled last now p (pass p was_open stamp now)
unfolding pass
pass-Polled last now p was_open stamp h l =
    go (gated (checked_add stamp p.interval) now) (gated-due stamp now p.interval) was_open
  where
    go :
        (closed : Bool)
        → (closed ≡ false → stamp + p.interval < now)
        → (b : Bool)
        → Polled last now p (
            if closed
            then (p, none)
            else if b
            then pop_front (record p { gate = ready_since now }) p.queue
            else (record p { gate = ready_since now }, none))
    go true d b = (h, refl)
    go false d true =
        let late = d refl in
        pop_front-Polled last now (record p { gate = ready_since now }) p.queue (omega arith) refl
          (omega arith)
    go false d false = let late = d refl in (omega arith, refl)

poll-Polled :
    (last now : Instant) (p : CaPmtPacer) (gate : Gate)
    → p.gate ≡ gate
    → Since last gate
    → Polled last now p (poll_gate p gate now)
unfolding poll_gate
poll-Polled last now p not_ready e h = (rw e tt, refl)
poll-Polled last now p (armed stamp) e h = pass-Polled last now p false stamp (rw e h) h
poll-Polled last now p (ready_since stamp) e h = pass-Polled last now p true stamp (rw e h) h

-- The clock after a call.
abbrev pub clock : Instant → Call → Instant
clock t (polls now) = now
clock t (hears_application_info now) = now
clock t (hears_ca_info now) = now
clock t (sets program) = t
clock t (removes number) = t
clock t (sets_interval interval) = t
clock t resets = t

-- The clock does not go back.
abbrev pub Ordered : Instant → List Call → Type 0
Ordered t [] = Unit
Ordered t (c ∷ calls) = (t ≤ clock t c) × Ordered (clock t c) calls

-- No call makes the interval shorter than `gap`.
abbrev pub Slow : Duration → Call → Type 0
Slow gap (sets_interval interval) = gap ≤ interval
Slow gap (polls now) = Unit
Slow gap (hears_application_info now) = Unit
Slow gap (hears_ca_info now) = Unit
Slow gap (sets program) = Unit
Slow gap (removes number) = Unit
Slow gap resets = Unit

-- The time of a call, if it releases a change.
abbrev noted : Instant → Option CaPmtChange → List Instant → List Instant
noted t none later = later
noted t (some change) later = t ∷ later

-- The times at which calls release changes, from a clock that shows `t`.
unfoldable pub releases : Instant → CaPmtPacer → List Call → List Instant
releases t p [] = []
releases t p (c ∷ calls) = noted (clock t c) (step p c).1 (releases (clock t c) (step p c).0 calls)

-- Each time is later than the one before it by more than `gap`.
abbrev pub Spaced : Duration → Instant → List Instant → Type 0
Spaced gap last [] = Unit
Spaced gap last (t ∷ later) = (last + gap < t) × Spaced gap t later

-- What a call does, for an interval of `gap` at least.
abbrev Stepped : Duration → Instant → Instant → CaPmtPacer × Option CaPmtChange → Type 0
Stepped gap last now (p', none) = Since last p'.gate × (gap ≤ p'.interval)
Stepped gap last now (p', some change) =
    Since now p'.gate × (last + gap < now) × (gap ≤ p'.interval)

Polled-Stepped :
    (gap : Duration) (last now : Instant) (p : CaPmtPacer) (r : CaPmtPacer × Option CaPmtChange)
    → gap ≤ p.interval
    → Polled last now p r
    → Stepped gap last now r
Polled-Stepped gap last now p (p', none) g h = (h.0, omega (arith, h.1))
Polled-Stepped gap last now p (p', some change) g (s, d, e) = (s, omega arith, omega arith)

or_now_late : (now : Instant) (settle : Duration) → now ≤ or_now (checked_add now settle) now
or_now_late now settle = ground arith

step-Stepped :
    (gap : Duration) (last t : Instant) (p : CaPmtPacer) (c : Call)
    → gap ≤ p.interval
    → Slow gap c
    → last ≤ t
    → t ≤ clock t c
    → Since last p.gate
    → Stepped gap last (clock t c) (step p c)
unfolding step set_interval arm_application_info arm_ca_info reset_gate poll push_set push_remove
step-Stepped gap last t p (sets program) g s l o h = (h, g)
step-Stepped gap last t p (removes number) g s l o h = (h, g)
step-Stepped gap last t p (sets_interval interval) g s l o h = (h, s)
step-Stepped gap last t p (hears_application_info now) g s l o h =
    (omega (arith, or_now_late now p.settle), g)
step-Stepped gap last t p (hears_ca_info now) g s l o h = (omega arith, g)
step-Stepped gap last t p resets g s l o h = (tt, g)
step-Stepped gap last t p (polls now) g s l o h =
    Polled-Stepped gap last now p (poll p now) g (poll-Polled last now p p.gate refl h)

releases-Spaced :
    (gap : Duration) (last t : Instant) (p : CaPmtPacer) (calls : List Call)
    → gap ≤ p.interval
    → All (Slow gap) calls
    → last ≤ t
    → Ordered t calls
    → Since last p.gate
    → Spaced gap last (releases t p calls)
unfolding releases
releases-Spaced gap last t p [] g s l o h = tt
releases-Spaced gap last t p (c ∷ calls) g s l o h =
    go (step p c) (step-Stepped gap last t p c g s.0 l o.0 h)
      λ last' p' g' l' h'. releases-Spaced gap last' (clock t c) p' calls g' s.1 l' o.1 h'
  where
    go :
        (r : CaPmtPacer × Option CaPmtChange)
        → Stepped gap last (clock t c) r
        → ((last' : Instant) (p' : CaPmtPacer)
            → gap ≤ p'.interval
            → last' ≤ clock t c
            → Since last' p'.gate
            → Spaced gap last' (releases (clock t c) p' calls))
        → Spaced gap last (noted (clock t c) r.1 (releases (clock t c) r.0 calls))
    go (p', none) (since, slow) again = again last p' slow (omega (arith, l, o.0)) since
    go (p', some change) (since, late, slow) again =
        (late, again (clock t c) p' slow (omega arith) since)

-- Let the clock not go back, and let no call make the interval shorter than `gap`. Then whatever is
-- queued, armed or reset in between, a new pacer releases no change until more than `gap` has passed,
-- and no two changes with `gap` or less between them.
pub new-Spaced :
    (gap interval settle : Duration) (t : Instant) (calls : List Call)
    → gap ≤ interval
    → All (Slow gap) calls
    → Ordered t calls
    → Spaced gap t (releases t (new interval settle) calls)
unfolding new
new-Spaced gap interval settle t calls g s o =
    releases-Spaced gap t t (new interval settle) calls g s (omega arith) o tt
