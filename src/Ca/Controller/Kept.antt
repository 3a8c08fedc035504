-- ===== src/Ca/Controller/Kept.antt =====
-- What every operation of the controller keeps, if the few changes of the slots and events do.
use libdvb.Prelude.{
  ℕ, arith, ◌≡◌, refl, Bool, true, false, List, [], ◌∷◌, if◌then◌else◌, Result, ok, err, panic,
}
use libdvb.Ca.Pacer.{CaPmtPacer}
use libdvb.Ca.Session.{
  CaEvent, transport_ready, malformed_data, session_opened, session_refused, session_closed,
  reported,
}
use libdvb.Ca.Resource.Context.{
  ResourceEvent, application_info, ca_info, mmi_close, mmi_text, mmi_menu, mmi_list, mmi_enq, tune,
  replace, clear_replace,
}
use libdvb.Ca.Host.{H}
use libdvb.Ca.Controller.{
  CaSlotStatus, absent, present, failed, creating_tc, active, CamStatus, CaSlotFailure,
  ControllerSlot, slot_failed, passed, CiController, K, next_step, ◌>>=◌, ◌>>◌, give, attempted,
  attempt, modify, slot_at, push, on_session, for_each, update, set_slot_status, set_cam_status,
  clear_slot_timers, cleared, recompute_cam_status, connected, transport_is_ready, confirmed_event,
  handle_reported, handle, collect, collect_session_events, mark_outstanding, marked_as,
}

pub record Keeps (P : CiController → Type 0) {A : Type 0} (m : K A) : Type 0 where
  pub kept : (c : CiController) → P c → P (m c).0

-- The slots' two statuses are kept.
abbrev pub SameStatus : (ControllerSlot → ControllerSlot) → Type 0
SameStatus f =
    (slot : ControllerSlot)
    → ((f slot).status ≡ slot.status) × ((f slot).cam_status ≡ slot.cam_status)

-- What a property of the state has to be kept by. The events are those that tell no change of a
-- slot's status.
pub record Closed (P : CiController → Type 0) : Type 0 where
  pub same : (c d : CiController) → d.slots ≡ c.slots → d.events ≡ c.events → P c → P d
  pub updated :
      (slot_id : ℕ) (f : ControllerSlot → ControllerSlot)
      → SameStatus f
      → Keeps P (update slot_id f)
  pub event_passed : (event : CaEvent ResourceEvent) → Keeps P (push (passed event))
  pub failure_told :
      (slot_id : ℕ) (reason : CaSlotFailure) → Keeps P (push (slot_failed slot_id reason))
  pub status_set : (slot_id : ℕ) (status : CaSlotStatus) → Keeps P (set_slot_status slot_id status)
  pub cam_set : (slot_id : ℕ) (status : CamStatus) → Keeps P (set_cam_status slot_id status)

module _ (P : CiController → Type 0) where
  kept_attempted : {A : Type 0} (x : CiController × Result A) → P x.0 → P (attempted x).0
  kept_attempted (d, ok a) q = q
  kept_attempted (d, err e) q = q
  kept_attempted (d, panic) q = q

  kept_if :
      {A : Type 0} (b : Bool) (x y : CiController × Result A)
      → P x.0
      → P y.0
      → P (if b then x else y).0
  kept_if true x y p q = p
  kept_if false x y p q = q

module _ {P : CiController → Type 0} where
  kept_next :
      {A B : Type 0} (x : CiController × Result A) (f : A → K B)
      → P x.0
      → ((a : A) → Keeps P (f a))
      → P (next_step x f).0
  kept_next (d, ok a) f q k = (k a).kept d q
  kept_next (d, err e) f q k = q
  kept_next (d, panic) f q k = q

  pub Keeps-bind :
      {A B : Type 0} {m : K A} {f : A → K B}
      → Keeps P m
      → ((a : A) → Keeps P (f a))
      → Keeps P (m >>= f)
  Keeps-bind {m = m} {f = f} h k = record { kept = λ c p. kept_next (m c) f (h.kept c p) k }

  pub Keeps-then : {A B : Type 0} {m : K A} {k : K B} → Keeps P m → Keeps P k → Keeps P (m >> k)
  Keeps-then h k = Keeps-bind h λ v. k

  pub Keeps-attempt : {A : Type 0} {m : K A} → Keeps P m → Keeps P (attempt m)
  Keeps-attempt {m = m} h = record { kept = λ c p. kept_attempted P (m c) (h.kept c p) }

  pub Keeps-give : {A : Type 0} {r : Result A} → Keeps P (give r)
  Keeps-give = record { kept = λ c p. p }

  pub Keeps-slot_at : {slot_id : ℕ} → Keeps P (slot_at slot_id)
  Keeps-slot_at = record { kept = λ c p. p }

  -- A test of the state.
  pub Keeps-test :
      {A : Type 0} (b : CiController → Bool) {m k : K A}
      → Keeps P m
      → Keeps P k
      → Keeps P (λ c. if b c then m c else k c)
  Keeps-test b {m = m} {k = k} h j = record {
    kept = λ c p. kept_if P (b c) (m c) (k c) (h.kept c p) (j.kept c p);
  }

  pub Keeps-if :
      {A : Type 0} (b : Bool) {m k : K A} → Keeps P m → Keeps P k → Keeps P (if b then m else k)
  Keeps-if true h j = h
  Keeps-if false h j = j

  -- A call that takes arguments from the state.
  pub Keeps-reads :
      {A : Type 0} {f : CiController → K A}
      → ((d : CiController) → Keeps P (f d))
      → Keeps P (λ c. f c c)
  Keeps-reads h = record { kept = λ c p. (h c).kept c p }

  pub Keeps-for_each :
      (ids : List ℕ) {body : ℕ → K (Unit {0})}
      → ((slot_id : ℕ) → Keeps P (body slot_id))
      → Keeps P (for_each ids body)
  unfolding for_each
  Keeps-for_each [] h = Keeps-give
  Keeps-for_each (slot_id ∷ rest) h = Keeps-then (h slot_id) (Keeps-for_each rest h)

module _ {P : CiController → Type 0} (closed : Closed P) where
  pub Keeps-on_session : {A : Type 0} (m : H A) → Keeps P (on_session m)
  Keeps-on_session m = record { kept = λ c p. closed.same c (on_session m c).0 refl refl p }

  -- An assignment to fields that are neither the slots nor the events.
  pub Keeps-modify :
      (f : CiController → CiController)
      → ((c : CiController) → ((f c).slots ≡ c.slots) × ((f c).events ≡ c.events))
      → Keeps P (modify f)
  Keeps-modify f h = record { kept = λ c p. closed.same c (f c) (h c).0 (h c).1 p }

  pub recompute-Keeps : (slot_id : ℕ) → Keeps P (recompute_cam_status slot_id)
  unfolding recompute_cam_status
  recompute-Keeps slot_id = Keeps-reads λ d. closed.cam_set slot_id _

  pub clear-Keeps : (slot_id : ℕ) → Keeps P (clear_slot_timers slot_id)
  unfolding clear_slot_timers
  clear-Keeps slot_id = closed.updated slot_id cleared λ slot. (refl, refl)

  transport_is_ready-Keeps : (slot_id : ℕ) → Keeps P (transport_is_ready slot_id)
  unfolding transport_is_ready
  transport_is_ready-Keeps slot_id =
      Keeps-test _
        (Keeps-then (closed.updated slot_id connected λ slot. (refl, refl)) (
          Keeps-then (closed.status_set slot_id active)
            (closed.event_passed (transport_ready slot_id))))
        (closed.event_passed (malformed_data slot_id))

  confirmed_event-Keeps :
      (slot_id : ℕ) (event : ResourceEvent) (armed : CiController → CaPmtPacer)
      → Keeps P (confirmed_event slot_id event armed)
  unfolding confirmed_event
  confirmed_event-Keeps slot_id event armed =
      Keeps-test _
        (Keeps-then (Keeps-modify (λ c. record c { pacer = armed c }) λ c. (refl, refl))
          (Keeps-then (recompute-Keeps slot_id) (closed.event_passed (reported event))))
        (closed.event_passed (malformed_data slot_id))

  handle_reported-Keeps : (event : ResourceEvent) → Keeps P (handle_reported event)
  unfolding handle_reported
  handle_reported-Keeps (application_info slot_id info) = confirmed_event-Keeps slot_id _ _
  handle_reported-Keeps (ca_info slot_id session_id caids) = confirmed_event-Keeps slot_id _ _
  handle_reported-Keeps (mmi_close a b d) = closed.event_passed _
  handle_reported-Keeps (mmi_text a b d) = closed.event_passed _
  handle_reported-Keeps (mmi_menu a b d) = closed.event_passed _
  handle_reported-Keeps (mmi_list a b d) = closed.event_passed _
  handle_reported-Keeps (mmi_enq a b d e f) = closed.event_passed _
  handle_reported-Keeps (tune a b d e f) = closed.event_passed _
  handle_reported-Keeps (replace a b d e) = closed.event_passed _
  handle_reported-Keeps (clear_replace a b) = closed.event_passed _

  handle-Keeps : (event : CaEvent ResourceEvent) → Keeps P (handle event)
  unfolding handle
  handle-Keeps (transport_ready slot_id) = transport_is_ready-Keeps slot_id
  handle-Keeps (reported event) = handle_reported-Keeps event
  handle-Keeps (session_closed slot_id session_id resource_id) =
      Keeps-if _ (Keeps-then (recompute-Keeps slot_id) (closed.event_passed _))
        (closed.event_passed _)
  handle-Keeps (malformed_data a) = closed.event_passed _
  handle-Keeps (session_opened a b d) = closed.event_passed _
  handle-Keeps (session_refused a b d) = closed.event_passed _

  collect-Keeps : (events : List (CaEvent ResourceEvent)) → Keeps P (collect events)
  unfolding collect
  collect-Keeps [] = Keeps-give
  collect-Keeps (event ∷ rest) =
      Keeps-then
        (Keeps-modify (λ c. record c { session = record c.session { events = rest } })
          λ c. (refl, refl))
        (Keeps-then (handle-Keeps event) (collect-Keeps rest))

  pub collect_session_events-Keeps : Keeps P collect_session_events
  unfolding collect_session_events
  collect_session_events-Keeps = Keeps-reads λ d. collect-Keeps d.session.events

  marked_as-SameStatus :
      (status : CaSlotStatus) (busy queued : Bool) (now : ℕ) (slot : ControllerSlot)
      → ((marked_as status busy queued now slot).status ≡ slot.status)
        × ((marked_as status busy queued now slot).cam_status ≡ slot.cam_status)
  marked_as-SameStatus absent busy queued now slot = (refl, refl)
  marked_as-SameStatus present busy queued now slot = (refl, refl)
  marked_as-SameStatus failed busy queued now slot = (refl, refl)
  marked_as-SameStatus active busy queued now slot = (ground arith, ground arith)
  marked_as-SameStatus creating_tc busy queued now slot = (ground arith, ground arith)

  pub mark-Keeps : (slot_id now : ℕ) → Keeps P (mark_outstanding slot_id now)
  unfolding mark_outstanding
  mark-Keeps slot_id now =
      Keeps-reads
        λ d. closed.updated slot_id _ λ slot. marked_as-SameStatus slot.status _ _ now slot
