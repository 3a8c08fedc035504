-- ===== src/Ca/ConditionalAccess/Runs.antt =====
-- Calls of the resource in any order, with the transport as it is at each call.
use libdvb.Prelude.{ℕ, ◌≡◌, List, [], ◌∷◌, some, ok}
use libdvb.Ca.Capmt.{Program}
use libdvb.Ca.Transport.{CiTransport}
use libdvb.Ca.Resource.Table.{find, All-find}
use libdvb.Ca.ConditionalAccess.{
  ConditionalAccessSession, ConditionalAccessResource, set_program, remove_program, new,
}
use libdvb.Ca.ConditionalAccess.Objects.{on_open, on_apdu, on_close}
use libdvb.Ca.ConditionalAccess.Objects.Confirmed.{on_open-Held, on_apdu-Held, on_close-Held}
use libdvb.Ca.ConditionalAccess.Selected.{SessionHeld}
use libdvb.Ca.ConditionalAccess.Selected.Visits.{AllHeld, set_program-Held, remove_program-Held}
use libdvb.Ca.Pacer.{CaPmtChange}
use libdvb.Ca.ConditionalAccess.Selected.Changes.{apply, Effective, Achieves, apply-Achieves}
use libdvb.Ca.ConditionalAccess.Selected.Removed.{Removal, remove_session-Removal}

pub data CaCall : Type 0 where
  opens : (slot_id session_id : ℕ) (transport : CiTransport) → CaCall
  receives : (slot_id session_id tag : ℕ) (body : List ℕ) (transport : CiTransport) → CaCall
  closes : (session_id : ℕ) → CaCall
  sets : (program : Program) (transport : CiTransport) → CaCall
  removes : (number : ℕ) (transport : CiTransport) → CaCall

-- What a call returns plays no part: the calls go on after an error.
unfoldable pub step : ConditionalAccessResource → CaCall → ConditionalAccessResource
step c (opens slot_id session_id transport) = (on_open slot_id session_id c transport).registry
step c (receives slot_id session_id tag body transport) =
    (on_apdu slot_id session_id tag body c transport).registry
step c (closes session_id) = on_close session_id c
step c (sets program transport) = (set_program program c transport).0
step c (removes number transport) = (remove_program number c transport).0

unfoldable pub run : ConditionalAccessResource → List CaCall → ConditionalAccessResource
run c [] = c
run c (call ∷ calls) = run (step c call) calls

step-Held : (c : ConditionalAccessResource) (call : CaCall) → AllHeld c → AllHeld (step c call)
unfolding step
step-Held c (opens slot_id session_id transport) h = on_open-Held slot_id session_id c transport h
step-Held c (receives slot_id session_id tag body transport) h =
    on_apdu-Held slot_id session_id tag body c transport h
step-Held c (closes session_id) h = on_close-Held session_id c h
step-Held c (sets program transport) h = set_program-Held program c transport h
step-Held c (removes number transport) h = remove_program-Held number c transport h

run-Held : (c : ConditionalAccessResource) (calls : List CaCall) → AllHeld c → AllHeld (run c calls)
unfolding run
run-Held c [] h = h
run-Held c (call ∷ calls) h = run-Held (step c call) calls (step-Held c call h)

-- After any calls, with any results of the sends, `remove_program` does with each session one of two
-- things: the session has not selected the program and stays as it is, or a CA_PMT is built and sent,
-- and only that send may fail. The two errors that the code raises itself, for a session without
-- CA_INFO and for a program without a matching descriptor, are never reached.
pub run-Removal :
    (calls : List CaCall) (number session_id : ℕ) (session : ConditionalAccessSession)
    (t : CiTransport)
    → find session_id (run new calls).sessions ≡ some session
    → Removal number session_id session t
run-Removal calls number session_id session t e =
    remove_session-Removal number session_id session t
      (All-find SessionHeld session_id (run new calls).sessions (run-Held new calls tt) e)

-- After any calls, a change of the desired programs that the resource does not have already and that
-- succeeds reaches every session: a program that is set is selected in exactly the sessions whose
-- confirmed CA systems it has a descriptor for, so that an object can be built, and in the others no
-- older program of its number is left; a program that is removed is selected nowhere.
pub run-Achieves :
    (calls : List CaCall) (change : CaPmtChange) (t : CiTransport) (slots : List ℕ)
    → Effective change (run new calls)
    → (apply change (run new calls) t).2 ≡ ok slots
    → (session_id : ℕ) (session : ConditionalAccessSession)
    → find session_id (apply change (run new calls) t).0.sessions ≡ some session
    → Achieves change session
run-Achieves calls change t slots =
    apply-Achieves change (run new calls) t slots (run-Held new calls tt)
