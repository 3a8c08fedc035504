-- ===== src/Ca/Controller/Poll.antt =====
-- src/ca/controller.rs: reading frames until there is an event for the application.
mod Fuel
pub mod Kept
pub mod Tracked
use libdvb.Prelude.{
  ℕ, zero, suc, Bool, true, false, not, ◌&&◌, List, [], ◌∷◌, Option, none, some, if◌then◌else◌,
  get_elem?, Result, ok, err, panic, Error, invalid_property,
}
use libdvb.Ca.Pacer.{Instant}
use libdvb.Ca.Transport.{take_data_pending, CiTransport}
use libdvb.Ca.Session.Dispatch.{recv_filtered}
use libdvb.Ca.Resource.Registry.{registry_calls}
use libdvb.Ca.Controller.{
  CaSlotStatus, active, CaSlotFailure, link_failed, ControllerSlot, ControlEvent, CiController, K,
  next_step, ◌>>=◌, ◌>>◌, give, attempt, modify, slot_at, on_session, update,
  collect_session_events, slot_has, is_status, mark_outstanding,
}
use libdvb.Ca.Controller.Recover.{recover_all}
use libdvb.Ca.Controller.Drive.{flush_receive_pending, no_command}

abbrev pub popped : CiController → List ControlEvent → CiController × Option ControlEvent
popped c [] = (c, none)
popped c (event ∷ rest) = (record c { events = rest }, some event)

-- `self.events.pop_front()`
abbrev pub pop_front : K (Option ControlEvent)
pop_front c = let (c', event) = popped c c.events in (c', ok event)

abbrev pub put_transport : CiController → CiTransport × Bool → CiController × Result Bool
put_transport c (t, pending) =
    (record c { session = record c.session { transport = t } }, ok pending)

-- `self.session.transport_mut().take_data_pending(slot_id)`
abbrev pub take_pending : ℕ → K Bool
take_pending slot_id c = put_transport c (take_data_pending c.session.transport slot_id)

abbrev pub command_answered : ControllerSlot → ControllerSlot
command_answered slot = if is_status slot.status active then no_command slot else slot

abbrev pub receive_wanted : ControllerSlot → ControllerSlot
receive_wanted slot = record slot { receive_pending = true }

-- The link failed while a frame was read.
read_failed : Error → Option Instant → K (Option ℕ)
read_failed e (some now) = do attempt (recover_all none link_failed now); give (err e)
read_failed e none = do modify (λ c. record c { deferred_link_failure = true }); give (err e)

-- `recv_controller`, with the slots that are active before.
pub receive : K (Option ℕ)
unfolding read_failed
receive c =
    (do
      r ← attempt (on_session (recv_filtered registry_calls λ slot_id. slot_has c slot_id active))
      elim r [
        | ok received ↦ give (ok received)
        | err e ↦ λ c. read_failed e c.last_tick c
        | panic ↦ give panic
      ])
      c

-- What follows a frame, once there is a time.
settle : ℕ → Option Instant → K (Unit {0})
settle slot_id none = give (ok tt)
settle slot_id (some now) = do
  r ← attempt (flush_receive_pending slot_id now)
  elim r [
    | ok v ↦ mark_outstanding slot_id now
    | err e ↦ do attempt (recover_all (some slot_id) link_failed now); give (err e)
    | panic ↦ give panic
  ]

-- A frame was read for the slot.
pub frame_received : ℕ → K (Unit {0})
unfolding settle
frame_received slot_id = do
  update slot_id command_answered
  data_pending ← take_pending slot_id
  collect_session_events
  slot ← slot_at slot_id
  (if data_pending && is_status slot.status active
      then update slot_id receive_wanted
      else give (ok tt))
  λ c. settle slot_id c.last_tick c

-- `next` is what follows if there is no event.
event_or : K (Option ControlEvent) → Option ControlEvent → K (Option ControlEvent)
event_or next none c = next c
event_or next (some event) c = (c, ok (some event))

-- What follows a read; `next` is the rest of the loop.
poll_received : K (Option ControlEvent) → Option ℕ → K (Option ControlEvent)
unfolding frame_received event_or
poll_received next none c = pop_front c
poll_received next (some slot_id) c =
    (do frame_received slot_id; event ← pop_front; event_or next event) c

-- The loop goes on as long as frames come that are no event for the application, and ends when the
-- link has none: `fuel` bounds the frames that are read, and `panic` is a loop that is not done then.
poll_rounds : ℕ → K (Option ControlEvent)
unfolding receive poll_received
poll_rounds zero = give panic
poll_rounds (suc fuel) = do received ← receive; poll_received (poll_rounds fuel) received

-- What follows the events that are there at once.
poll_link : ℕ → K (Option ControlEvent)
unfolding poll_rounds
poll_link fuel c = if c.link_suspended then (c, ok none) else poll_rounds fuel c

pub poll_event : (fuel : ℕ) → K (Option ControlEvent)
unfolding poll_link event_or
poll_event fuel = do collect_session_events; event ← pop_front; event_or (poll_link fuel) event
