-- ===== src/Ca/Transport/Runs.antt =====
-- Any calls, in any order, on a transport that `new` made.
use libdvb.Prelude.{ℕ, ◌≤◌, List, [], ◌∷◌}
use libdvb.Ca.Device.{CaDevice}
use libdvb.Ca.Transport.{
  CiTransport, new, send_tpdu, send_spdu, send_apdu, flush, recv_apdu, take_data_pending,
  clear_slot,
}
use libdvb.Ca.Transport.Invariant.{Inv}
use libdvb.Ca.Transport.Invariant.Send.{
  flush-Keeps, send_tpdu-Keeps, send_spdu-Keeps, send_apdu-Keeps,
}
use libdvb.Ca.Transport.Invariant.Receive.{
  recv_apdu-Keeps, take_data_pending-Inv, clear_slot-Inv, new-Inv,
}

-- The calls that change a transport, with their arguments.
pub data Call : Type 0 where
  tpdu : (slot_id tag : ℕ) (payload : List ℕ) → Call
  spdu : (slot_id : ℕ) (bytes : List ℕ) → Call
  apdu : (slot_id session_id tag : ℕ) (body : List ℕ) → Call
  flushes : (slot_id : ℕ) → Call
  receives : Call
  takes_pending : (slot_id : ℕ) → Call
  clears : (slot_id : ℕ) → Call

-- A call's result plays no part: the caller may go on after an error.
pub step : CiTransport → Call → CiTransport
step t (tpdu i tag payload) = (send_tpdu i tag payload t).0
step t (spdu i bytes) = (send_spdu i bytes t).0
step t (apdu i session_id tag body) = (send_apdu i session_id tag body t).0
step t (flushes i) = (flush i t).0
step t receives = (recv_apdu t).0
step t (takes_pending i) = (take_data_pending t i).0
step t (clears i) = clear_slot t i

pub run : CiTransport → List Call → CiTransport
run t [] = t
run t (c ∷ cs) = run (step t c) cs

step-Inv : (t : CiTransport) (c : Call) → Inv t → Inv (step t c)
unfolding step
step-Inv t (tpdu i tag payload) v = send_tpdu-Keeps i tag payload t v
step-Inv t (spdu i bytes) v = send_spdu-Keeps i bytes t v
step-Inv t (apdu i session_id tag body) v = send_apdu-Keeps i session_id tag body t v
step-Inv t (flushes i) v = flush-Keeps i t v
step-Inv t receives v = recv_apdu-Keeps t v
step-Inv t (takes_pending i) v = take_data_pending-Inv t i v
step-Inv t (clears i) v = clear_slot-Inv t i v

run_from-Inv : (t : CiTransport) (cs : List Call) → Inv t → Inv (run t cs)
unfolding run
run_from-Inv t [] v = v
run_from-Inv t (c ∷ cs) v = run_from-Inv (step t c) cs (step-Inv t c v)

-- After any calls, on any link, with any errors: no reassembly buffer is larger than
-- `MAX_TPDU_SIZE`, and every queued frame fits the link and is addressed to the slot in whose queue
-- it stands.
pub run-Inv :
    (link : CaDevice) (slots_num : ℕ) (calls : List Call)
    → slots_num ≤ 255
    → Inv (run (new link slots_num) calls)
run-Inv link slots_num calls h = run_from-Inv _ calls (new-Inv link slots_num h)
