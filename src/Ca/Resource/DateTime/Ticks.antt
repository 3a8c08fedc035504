-- ===== src/Ca/Resource/DateTime/Ticks.antt =====
-- A tick: what it sends, and the sessions after it.
use libdvb.Prelude.{
  ℕ, suc, ◌+◌, ◌-◌, ◌*◌, ◌≡◌, inl, inr, refl, ap, true, false, arith, [], ◌∷◌, Option, none, some,
  All, Result, ok, err, panic, ◌==◌, ltb, length, Bool-cases, ==→eq,
}
use mathlib.Core.List.{map}
use libdvb.Ca.Apdu.Tags.{date_time_tag}
use libdvb.Ca.Transport.{CiTransport, send_apdu}
use libdvb.Ca.Resource.Table.{Table}
use libdvb.Ca.Resource.DateTime.Objects.{Fresh, is_over, is_unstarted, objects, send_all, restarted}
use libdvb.Ca.Resource.DateTime.{
  DateTimeSession, DateTimeResource, Due, skip, anchor, send, due, due_since, tick_sessions,
  after_send, tick_one, Ticked, on_tick, date_time_body,
}

-- What a round does is what the interval and the last object ask for.
data Decided (now : ℕ) (session : DateTimeSession) : Due → Type 0 where
  skips :
      is_over now session.interval session.sent ≡ false
      → is_unstarted session.interval session.sent ≡ false
      → ((session_id : ℕ) → Fresh now (session_id, session))
      → Decided now session skip
  anchors :
      is_over now session.interval session.sent ≡ false
      → is_unstarted session.interval session.sent ≡ true
      → Decided now session anchor
  sends : is_over now session.interval session.sent ≡ true → Decided now session send

due_since-Decided :
    (now : ℕ) (session : DateTimeSession) (sent : Option ℕ)
    → session.sent ≡ sent
    → (session.interval == 0) ≡ false
    → Decided now session (due_since now session.interval sent)
due_since-Decided now session none e on = anchors (rw e refl) (rw e (ground arith))
due_since-Decided now session (some sent) e on =
    elim (Bool-cases (ltb (now - sent) (session.interval * 1000000000))) [
      | inl early ↦
          rw early
            (skips (rw e (ground arith)) (rw e refl) λ session_id. inr (sent, e, ground arith))
      | inr late ↦ rw late (sends (rw e (ground arith)))
    ]

due-Decided : (now : ℕ) (session : DateTimeSession) → Decided now session (due now session)
due-Decided now session = elim (Bool-cases (session.interval == 0)) [
  | inl off ↦ rw off (
      skips (off_over session.sent off) (off_unstarted session.sent off)
        λ session_id. inl (==→eq session.interval 0 off))
  | inr on ↦ rw on (due_since-Decided now session session.sent refl on)
]
  where
    off_over :
        (sent : Option ℕ)
        → (session.interval == 0) ≡ true
        → is_over now session.interval sent ≡ false
    off_over none off = refl
    off_over (some sent) off = ground arith

    off_unstarted :
        (sent : Option ℕ)
        → (session.interval == 0) ≡ true
        → is_unstarted session.interval sent ≡ false
    off_unstarted none off = ground arith
    off_unstarted (some sent) off = refl

-- An interval that starts anew is not over.
stamped-Fresh :
    (now session_id : ℕ) (session : DateTimeSession)
    → Fresh now (session_id, record session { sent = some now })
stamped-Fresh now session_id session = elim (Bool-cases (session.interval == 0)) [
  | inl off ↦ inl (==→eq session.interval 0 off)
  | inr on ↦ inr (now, refl, ground arith)
]

-- What the loop has done if it succeeds.
record Served (clock : ℕ → ℕ) (now : ℕ) (sessions : Table DateTimeSession) (readings : ℕ)
    (t : CiTransport) (r : Ticked) : Type 0 where
  table : r.0 ≡ map (restarted now) sessions
  fresh : All (Fresh now) r.0
  told : send_all (objects clock now sessions readings) t ≡ (r.2, ok tt)
  count : r.1 ≡ readings + length (objects clock now sessions readings)

module _ (clock : ℕ → ℕ) (now : ℕ) where
  NextServed : Table DateTimeSession → (ℕ → CiTransport → Ticked) → Type 0
  NextServed rest next =
      (readings : ℕ) (t : CiTransport)
      → (next readings t).3 ≡ ok tt
      → Served clock now rest readings t (next readings t)

  after_send-Served :
      (session_id : ℕ) (session : DateTimeSession) (rest : Table DateTimeSession) (readings : ℕ)
      (t : CiTransport) (next : ℕ → CiTransport → Ticked) (r : CiTransport × Result (Unit {0}))
      → is_over now session.interval session.sent ≡ true
      → send_apdu session.slot_id session_id date_time_tag (date_time_body (clock readings)) t ≡ r
      → NextServed rest next
      → (after_send now (session_id, session) rest readings next r).3 ≡ ok tt
      → Served clock now
          ((session_id, session) ∷ rest)
          readings
          t
          (after_send now (session_id, session) rest readings next r)
  unfolding after_send NextServed objects send_all
  after_send-Served session_id session rest readings t next (t', ok v) over s n e =
      let h = n (suc readings) t' e in
      record {
        table = rw over (ap (λ l. (session_id, record session { sent = some now }) ∷ l) h.table);
        fresh = (stamped-Fresh now session_id session, h.fresh);
        told = rw over (rw s h.told);
        count = rw over (omega (arith, h.count));
      }
  after_send-Served session_id session rest readings t next (t', err x) over s n e = cc
  after_send-Served session_id session rest readings t next (t', panic) over s n e = cc

  tick_one-Served :
      (session_id : ℕ) (session : DateTimeSession) (rest : Table DateTimeSession) (readings : ℕ)
      (t : CiTransport) (next : ℕ → CiTransport → Ticked) (d : Due)
      → Decided now session d
      → NextServed rest next
      → (tick_one clock now (session_id, session) rest readings t next d).3 ≡ ok tt
      → Served clock now
          ((session_id, session) ∷ rest)
          readings
          t
          (tick_one clock now (session_id, session) rest readings t next d)
  unfolding tick_one NextServed objects
  tick_one-Served session_id session rest readings t next skip (skips over unstarted fresh) n e =
      let h = n readings t e in
      record {
        table = rw (over, unstarted) (ap (λ l. (session_id, session) ∷ l) h.table);
        fresh = (fresh session_id, h.fresh);
        told = rw over h.told;
        count = rw over h.count;
      }
  tick_one-Served session_id session rest readings t next anchor (anchors over unstarted) n e =
      let h = n readings t e in
      record {
        table =
            rw (over, unstarted)
              (ap (λ l. (session_id, record session { sent = some now }) ∷ l) h.table);
        fresh = (stamped-Fresh now session_id session, h.fresh);
        told = rw over h.told;
        count = rw over h.count;
      }
  tick_one-Served session_id session rest readings t next send (sends over) n e =
      after_send-Served session_id session rest readings t next _ over refl n e

  tick_sessions-Served :
      (sessions : Table DateTimeSession) → NextServed sessions (tick_sessions clock now sessions)
  unfolding tick_sessions NextServed objects send_all
  tick_sessions-Served [] readings t e = record {
    table = refl;
    fresh = tt;
    told = refl;
    count = omega arith;
  }
  tick_sessions-Served ((session_id, session) ∷ rest) readings t e =
      tick_one-Served session_id session rest readings t (tick_sessions clock now rest)
        (due now session) (due-Decided now session) (tick_sessions-Served rest) e

-- A tick that succeeds has sent the date_time objects that are due, and nothing else: one for each
-- session whose interval since its last object is over, in order, with the time that the clock then
-- read, and it has read the clock no more often. Exactly the intervals that were over or had not
-- started yet start anew, all else of the sessions is as before, and no session is overdue.
pub on_tick-Fresh :
    (now : ℕ) (d : DateTimeResource) (t : CiTransport)
    → (on_tick now d t).2 ≡ ok tt
    → (send_all (objects d.clock now d.sessions d.readings) t ≡ ((on_tick now d t).1, ok tt))
      × ((on_tick now d t).0.readings
          ≡ d.readings + length (objects d.clock now d.sessions d.readings))
      × ((on_tick now d t).0.sessions ≡ map (restarted now) d.sessions)
      × All (Fresh now) (on_tick now d t).0.sessions
unfolding on_tick NextServed
on_tick-Fresh now d t e =
    let h = tick_sessions-Served d.clock now d.sessions d.readings t e in
    (h.told, h.count, h.table, h.fresh)
