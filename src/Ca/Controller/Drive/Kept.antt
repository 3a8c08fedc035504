-- ===== src/Ca/Controller/Drive/Kept.antt =====
-- The state machine of a slot keeps what every change of the controller keeps.
use libdvb.Prelude.{
  ℕ, suc, refl, Bool, not, ◌&&◌, ◌||◌, List, [], ◌∷◌, none, some, Result, ok, err, panic,
}
use libdvb.Ca.Transport.{send_tpdu, flush}
use libdvb.Ca.Tpdu.{rcv, create_tc, data_last}
use libdvb.Ca.Session.{on_transport}
use libdvb.Ca.Session.Dispatch.{drop_slot}
use libdvb.Ca.Resource.Registry.{registry_calls}
use libdvb.Ca.Controller.{
  CaSlotStatus, absent, present, creating_tc, active, failed, no_cam, CaSlotInfo, slot_info_failed,
  unsupported_interface, ControllerSlot, CiController, K, ◌>>=◌, ◌>>◌, give, attempt, slot_ids,
  deadline, is_status, is_some, none_or_reached, reached, slot_busy, slot_queued,
}
use libdvb.Ca.Controller.Recover.{recover_all}
use libdvb.Ca.Controller.Recover.Kept.{recover_all-Keeps}
use libdvb.Ca.Controller.Kept.{
  Keeps, Closed, Keeps-bind, Keeps-then, Keeps-attempt, Keeps-give, Keeps-slot_at, Keeps-test,
  Keeps-if, Keeps-reads, Keeps-on_session, clear-Keeps, mark-Keeps, collect_session_events-Keeps,
}
use libdvb.Ca.Controller.Drive.{
  send_frame, flush_slot, receive_done, send_receive, flush_receive_pending, slot_info, detach,
  module_flags, has_module, has_link, module_ready, linked, slot_told, apply_slot_info, read_infos,
  apply_infos, refresh_slot_info, drive_present, drive_creating, command_started, active_pending,
  no_command, polled, poll_slot, active_idle, drive_active, drive_status, retry_failed, drive_slot,
}

module _ {P : CiController → Type 0} (closed : Closed P) where
  send_frame-Keeps : (slot_id tag : ℕ) → Keeps P (send_frame slot_id tag)
  send_frame-Keeps slot_id tag = Keeps-on_session closed (on_transport (send_tpdu slot_id tag []))

  flush_slot-Keeps : (slot_id : ℕ) → Keeps P (flush_slot slot_id)
  flush_slot-Keeps slot_id = Keeps-on_session closed (on_transport (flush slot_id))

  send_receive-Keeps : (slot_id now : ℕ) → Keeps P (send_receive slot_id now)
  unfolding send_receive
  send_receive-Keeps slot_id now = Keeps-then (send_frame-Keeps slot_id rcv) (
      Keeps-then (closed.updated slot_id receive_done λ slot. (refl, refl))
        (mark-Keeps closed slot_id now))

  pub flush_receive_pending-Keeps : (slot_id now : ℕ) → Keeps P (flush_receive_pending slot_id now)
  unfolding flush_receive_pending
  flush_receive_pending-Keeps slot_id now =
      Keeps-bind Keeps-slot_at λ slot. Keeps-test _ Keeps-give (send_receive-Keeps slot_id now)

  slot_info-Keeps : (slot_id : ℕ) → Keeps P (slot_info slot_id)
  slot_info-Keeps slot_id = record {
    kept = λ c p. closed.same c (slot_info slot_id c).0 refl refl p;
  }

  detach-Keeps :
      (slot_id : ℕ) (status : CaSlotStatus) (event : K (Unit {0}))
      → Keeps P event
      → Keeps P (detach slot_id status event)
  unfolding detach
  detach-Keeps slot_id status event h =
      Keeps-then (Keeps-on_session closed (drop_slot registry_calls slot_id)) (
        Keeps-then (collect_session_events-Keeps closed) (
          Keeps-then (clear-Keeps closed slot_id) (
            Keeps-then h
              (Keeps-then (closed.cam_set slot_id no_cam) (closed.status_set slot_id status)))))

  linked-Keeps :
      (slot_id : ℕ) (ready : Bool) (status : CaSlotStatus) → Keeps P (linked slot_id ready status)
  unfolding linked
  linked-Keeps slot_id ready absent = closed.status_set slot_id present
  linked-Keeps slot_id ready creating_tc =
      Keeps-if ready Keeps-give (detach-Keeps slot_id present (give (ok tt)) Keeps-give)
  linked-Keeps slot_id ready active =
      Keeps-if ready Keeps-give (detach-Keeps slot_id present (give (ok tt)) Keeps-give)
  linked-Keeps slot_id ready present = Keeps-give
  linked-Keeps slot_id ready failed = Keeps-give

  slot_told-Keeps :
      (slot_id : ℕ) (info : CaSlotInfo) (slot : ControllerSlot)
      → Keeps P (slot_told slot_id info slot)
  unfolding slot_told
  slot_told-Keeps slot_id info slot =
      Keeps-if (not (has_module info))
        (Keeps-if (is_status slot.status absent) Keeps-give
          (detach-Keeps slot_id absent (give (ok tt)) Keeps-give))
        (Keeps-if (not (has_link info))
          (Keeps-if (is_status slot.status failed && not (is_some slot.retry_at)) Keeps-give (
            detach-Keeps slot_id failed _
              (closed.failure_told slot_id (unsupported_interface info.slot_type))))
          (linked-Keeps slot_id (module_ready info) slot.status))

  apply_slot_info-Keeps : (slot_id : ℕ) (info : CaSlotInfo) → Keeps P (apply_slot_info slot_id info)
  unfolding apply_slot_info
  apply_slot_info-Keeps slot_id info =
      Keeps-then
        (closed.updated slot_id (module_flags (has_module info) (module_ready info))
          λ slot. (refl, refl))
        (Keeps-bind Keeps-slot_at λ slot. slot_told-Keeps slot_id info slot)

  read_infos-Keeps : (ids : List ℕ) (now : ℕ) → Keeps P (read_infos ids now)
  unfolding read_infos
  read_infos-Keeps [] now = Keeps-give
  read_infos-Keeps (slot_id ∷ rest) now =
      Keeps-bind (Keeps-attempt (slot_info-Keeps slot_id)) (read_one (read_infos-Keeps rest now))
    where
      read_one :
          Keeps P (read_infos rest now)
          → (r : Result CaSlotInfo)
          → Keeps P (elim r [
            | ok info ↦ read_infos rest now >>= λ infos. give (ok (info ∷ infos))
            | err e ↦ attempt (recover_all (some slot_id) slot_info_failed now) >> give (err e)
            | panic ↦ give panic
          ])
      read_one h (ok info) = Keeps-bind h λ infos. Keeps-give
      read_one h (err e) =
          Keeps-then (Keeps-attempt (recover_all-Keeps closed (some slot_id) slot_info_failed now))
            Keeps-give
      read_one h panic = Keeps-give

  apply_infos-Keeps : (slot_id : ℕ) (infos : List CaSlotInfo) → Keeps P (apply_infos slot_id infos)
  unfolding apply_infos
  apply_infos-Keeps slot_id [] = Keeps-give
  apply_infos-Keeps slot_id (info ∷ rest) =
      Keeps-then (apply_slot_info-Keeps slot_id info) (apply_infos-Keeps (suc slot_id) rest)

  pub refresh_slot_info-Keeps : (now : ℕ) → Keeps P (refresh_slot_info now)
  unfolding refresh_slot_info
  refresh_slot_info-Keeps now =
      Keeps-reads λ d. Keeps-bind (read_infos-Keeps (slot_ids d) now) (apply_infos-Keeps 0)

  drive_present-Keeps :
      (slot_id now : ℕ) (slot : ControllerSlot) → Keeps P (drive_present slot_id now slot)
  unfolding drive_present
  drive_present-Keeps slot_id now slot =
      Keeps-if slot.is_ready
        (Keeps-then (send_frame-Keeps slot_id create_tc) (
          Keeps-then (closed.updated slot_id receive_done λ slot. (refl, refl)) (
            Keeps-then (closed.status_set slot_id creating_tc)
              (Keeps-then (mark-Keeps closed slot_id now) Keeps-give))))
        Keeps-give

  drive_creating-Keeps : (slot_id now : ℕ) → Keeps P (drive_creating slot_id now)
  unfolding drive_creating
  drive_creating-Keeps slot_id now = Keeps-then (flush_slot-Keeps slot_id) (
      Keeps-then (mark-Keeps closed slot_id now)
        (Keeps-bind Keeps-slot_at λ slot. record { kept = λ c p. p }))

  active_pending-Keeps : (slot_id now : ℕ) (busy : Bool) → Keeps P (active_pending slot_id now busy)
  unfolding active_pending
  active_pending-Keeps slot_id now busy =
      Keeps-then (closed.updated slot_id (command_started now) λ slot. (refl, refl))
        (Keeps-bind Keeps-slot_at λ slot. record { kept = λ c p. p })

  poll_slot-Keeps : (slot_id now : ℕ) → Keeps P (poll_slot slot_id now)
  unfolding poll_slot
  poll_slot-Keeps slot_id now = Keeps-then (send_frame-Keeps slot_id data_last) (
      Keeps-reads λ d.
        closed.updated slot_id (polled now (deadline now d.config.transport_poll_interval))
          λ slot. (refl, refl))

  active_idle-Keeps : (slot_id now : ℕ) → Keeps P (active_idle slot_id now)
  unfolding active_idle
  active_idle-Keeps slot_id now =
      Keeps-then (closed.updated slot_id no_command λ slot. (refl, refl)) (
        Keeps-bind Keeps-slot_at λ slot.
          Keeps-then
            (Keeps-if slot.receive_pending (flush_receive_pending-Keeps slot_id now) (
              Keeps-if (none_or_reached slot.next_poll now) (poll_slot-Keeps slot_id now)
                Keeps-give))
            Keeps-give)

  drive_active-Keeps : (slot_id now : ℕ) → Keeps P (drive_active slot_id now)
  unfolding drive_active
  drive_active-Keeps slot_id now = Keeps-then (flush_slot-Keeps slot_id) (
      Keeps-reads λ d.
        Keeps-if (slot_busy d slot_id || slot_queued d slot_id)
          (active_pending-Keeps slot_id now (slot_busy d slot_id)) (active_idle-Keeps slot_id now))

  drive_status-Keeps :
      (slot_id now : ℕ) (slot : ControllerSlot) (status : CaSlotStatus)
      → Keeps P (drive_status slot_id now slot status)
  unfolding drive_status
  drive_status-Keeps slot_id now slot absent = Keeps-give
  drive_status-Keeps slot_id now slot failed = Keeps-give
  drive_status-Keeps slot_id now slot present = drive_present-Keeps slot_id now slot
  drive_status-Keeps slot_id now slot creating_tc = drive_creating-Keeps slot_id now
  drive_status-Keeps slot_id now slot active = drive_active-Keeps slot_id now

  retry_failed-Keeps :
      (slot_id now : ℕ) (slot : ControllerSlot) → Keeps P (retry_failed slot_id now slot)
  unfolding retry_failed
  retry_failed-Keeps slot_id now slot =
      Keeps-if (is_status slot.status failed && reached slot.retry_at now)
        (Keeps-then
          (closed.updated slot_id (λ s. record s { retry_at = none }) λ slot. (refl, refl))
          (closed.status_set slot_id present))
        Keeps-give

  pub drive_slot-Keeps : (slot_id now : ℕ) → Keeps P (drive_slot slot_id now)
  unfolding drive_slot
  drive_slot-Keeps slot_id now = Keeps-bind Keeps-slot_at λ before.
      Keeps-then (retry_failed-Keeps slot_id now before)
        (Keeps-bind Keeps-slot_at λ slot. drive_status-Keeps slot_id now slot slot.status)
