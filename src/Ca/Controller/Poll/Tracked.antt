-- ===== src/Ca/Controller/Poll/Tracked.antt =====
-- The event that `poll_event` returns, and what the application has seen with it.
use libdvb.Prelude.{
  ℕ, zero, suc, List, [], ◌∷◌, Option, none, some, Result, ok, err, panic, Bool, true, false,
  if◌then◌else◌,
}
use libdvb.Ca.Controller.{
  ControlEvent, slot_status_changed, cam_status_changed, slot_failed, passed, CiController, K,
  next_step, collect_session_events,
}
use libdvb.Ca.Controller.Kept.{collect_session_events-Keeps}
use libdvb.Ca.Controller.Tracked.{View, seen, Tracks, Tracks-Closed}
use libdvb.Ca.Controller.Poll.{
  popped, pop_front, receive, frame_received, event_or, poll_received, poll_rounds, poll_link,
  poll_event,
}
use libdvb.Ca.Controller.Poll.Kept.{receive-Keeps, frame_received-Keeps}

-- The application's view after what a call returned.
abbrev pub seen_result : View → Result (Option ControlEvent) → View
seen_result v (ok none) = v
seen_result v (ok (some event)) = seen v event
seen_result v (err e) = v
seen_result v panic = v

abbrev Polled : View → CiController × Result (Option ControlEvent) → Type 0
Polled v x = Tracks (seen_result v x.1) x.0

popped-Polled :
    (v : View) (c : CiController) (events : List ControlEvent)
    → Tracks v (record c { events = events })
    → Tracks v c
    → Polled v ((popped c events).0, ok (popped c events).1)
popped-Polled v c [] p q = q
popped-Polled v c (slot_status_changed a b d ∷ rest) p q = p.2
popped-Polled v c (cam_status_changed a b d ∷ rest) p q = p
popped-Polled v c (slot_failed a b ∷ rest) p q = p
popped-Polled v c (passed a ∷ rest) p q = p

pop_front-Polled : (v : View) (c : CiController) → Tracks v c → Polled v (pop_front c)
pop_front-Polled v c p = popped-Polled v c c.events p p

-- What comes before the event is taken.
before-Polled :
    {A : Type 0} (v : View) (x : CiController × Result A) (f : A → K (Option ControlEvent))
    → Tracks v x.0
    → ((a : A) (c : CiController) → Tracks v c → Polled v (f a c))
    → Polled v (next_step x f)
before-Polled v (c, ok a) f p k = k a c p
before-Polled v (c, err e) f p k = p
before-Polled v (c, panic) f p k = p

-- What the loop is to do with what follows.
abbrev NextPolled : View → K (Option ControlEvent) → Type 0
NextPolled v next = (c : CiController) → Tracks v c → Polled v (next c)

-- Taking an event, or going on without one.
event_or-Polled :
    (v : View) (c : CiController) (next : K (Option ControlEvent)) (events : List ControlEvent)
    → NextPolled v next
    → Tracks v (record c { events = events })
    → Tracks v c
    → Polled v (event_or next (popped c events).1 (popped c events).0)
unfolding event_or
event_or-Polled v c next [] k p q = k c q
event_or-Polled v c next (slot_status_changed a b d ∷ rest) k p q = p.2
event_or-Polled v c next (cam_status_changed a b d ∷ rest) k p q = p
event_or-Polled v c next (slot_failed a b ∷ rest) k p q = p
event_or-Polled v c next (passed a ∷ rest) k p q = p

poll_received-Polled :
    (v : View) (next : K (Option ControlEvent)) (received : Option ℕ)
    → NextPolled v next
    → NextPolled v (poll_received next received)
unfolding poll_received
poll_received-Polled v next none k c p = pop_front-Polled v c p
poll_received-Polled v next (some slot_id) k c p =
    before-Polled v (frame_received slot_id c) _
      ((frame_received-Keeps (Tracks-Closed v) slot_id).kept c p)
      λ a d q. event_or-Polled v d next d.events k q q

poll_rounds-Polled : (v : View) (fuel : ℕ) → NextPolled v (poll_rounds fuel)
unfolding poll_rounds
poll_rounds-Polled v zero c p = p
poll_rounds-Polled v (suc fuel) c p =
    before-Polled v (receive c) (poll_received (poll_rounds fuel))
      ((receive-Keeps (Tracks-Closed v)).kept c p)
      λ received. poll_received-Polled v (poll_rounds fuel) received (poll_rounds-Polled v fuel)

if-Polled :
    (v : View) (b : Bool) (x y : CiController × Result (Option ControlEvent))
    → Polled v x
    → Polled v y
    → Polled v (if b then x else y)
if-Polled v true x y p q = p
if-Polled v false x y p q = q

poll_link-Polled : (v : View) (fuel : ℕ) → NextPolled v (poll_link fuel)
unfolding poll_link
poll_link-Polled v fuel c p =
    if-Polled v c.link_suspended (c, ok none) (poll_rounds fuel c) p (poll_rounds-Polled v fuel c p)

pub poll_event-Polled :
    (v : View) (fuel : ℕ) (c : CiController)
    → Tracks v c
    → Tracks (seen_result v (poll_event fuel c).1) (poll_event fuel c).0
unfolding poll_event
poll_event-Polled v fuel c p =
    before-Polled v (collect_session_events c) _
      ((collect_session_events-Keeps (Tracks-Closed v)).kept c p)
      λ a d q. event_or-Polled v d (poll_link fuel) d.events (poll_link-Polled v fuel) q q
