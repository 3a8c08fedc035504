-- ===== src/Ca/Controller/Commands/Kept.antt =====
-- The commands keep what every change of the controller keeps.
use libdvb.Prelude.{ℕ, refl, Option, none, some, Result, ok, err, panic, ◌==◌}
use libdvb.Ca.Host.{H}
use libdvb.Ca.Pacer.{push_remove}
use libdvb.Ca.Capmt.{PmtSectionRef, parse}
use libdvb.Prelude.{List}
use libdvb.Ca.Controller.{CiController, is_status, active}
use libdvb.Ca.Controller.Tick.Kept.{recover_link-Keeps}
use libdvb.Ca.Controller.Kept.{
  Keeps, Closed, Keeps-bind, Keeps-then, Keeps-attempt, Keeps-give, Keeps-if, Keeps-reads,
  Keeps-on_session, Keeps-modify, mark-Keeps,
}
use libdvb.Ca.Controller.Commands.{
  find_slot, status_of, require_active, mark_command, finish_slot_command, slot_command,
  queue_program, set_program, remove_program,
}

module _ {P : CiController → Type 0} (closed : Closed P) where
  require_active-Keeps : (slot_id : ℕ) → Keeps P (require_active slot_id)
  unfolding require_active status_of
  require_active-Keeps slot_id =
      Keeps-bind
        (Keeps-bind {m = find_slot slot_id} (record { kept = λ c p. p }) λ slot. Keeps-give)
        λ status. Keeps-if (is_status status active) Keeps-give Keeps-give

  mark_command-Keeps :
      (slot_id : ℕ) (last_tick : Option ℕ) → Keeps P (mark_command slot_id last_tick)
  unfolding mark_command
  mark_command-Keeps slot_id none = Keeps-give
  mark_command-Keeps slot_id (some now) = mark-Keeps closed slot_id now

  finish_slot_command-Keeps :
      (slot_id : ℕ) (r : Result (Unit {0})) → Keeps P (finish_slot_command slot_id r)
  unfolding finish_slot_command
  finish_slot_command-Keeps slot_id (ok v) = Keeps-reads λ d. mark_command-Keeps slot_id d.last_tick
  finish_slot_command-Keeps slot_id (err e) =
      Keeps-reads
        λ d. Keeps-then (recover_link-Keeps closed (some slot_id) e d.last_tick) Keeps-give
  finish_slot_command-Keeps slot_id panic = Keeps-give

  pub slot_command-Keeps : (slot_id : ℕ) (call : H (Unit {0})) → Keeps P (slot_command slot_id call)
  unfolding slot_command
  slot_command-Keeps slot_id call = Keeps-then (require_active-Keeps slot_id) (
      Keeps-bind (Keeps-attempt (Keeps-on_session closed call)) (finish_slot_command-Keeps slot_id))

  pub remove_program-Keeps : (number : ℕ) → Keeps P (remove_program number)
  unfolding remove_program
  remove_program-Keeps number =
      Keeps-if (number == 0) Keeps-give (
        Keeps-modify closed (λ c. record c { pacer = push_remove c.pacer number })
          λ c. (refl, refl))

  pub set_program-Keeps :
      (try_from : List ℕ → Option PmtSectionRef) (ca_descriptor_tag : ℕ) (pmt_section : List ℕ)
      → Keeps P (set_program try_from ca_descriptor_tag pmt_section)
  unfolding set_program
  set_program-Keeps try_from ca_descriptor_tag pmt_section =
      Keeps-bind (Keeps-give {r = parse try_from ca_descriptor_tag pmt_section}) λ program.
        Keeps-then (Keeps-modify closed (queue_program program) λ c. (refl, refl)) Keeps-give
