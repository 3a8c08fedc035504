-- ===== src/Ca/Transport/Invariant/Send.antt =====
-- The sending operations keep the invariant.
use libdvb.Prelude.{
  ℕ, zero, suc, ◌≡◌, inl, inr, List, [], ◌∷◌, Option-cases, Result, ok, Result-cases, Bool-cases,
  length, All, All-append, get_elem?, ltb, drop,
}
use mathlib.Core.Path.{subst}
use libdvb.Ca.Device.{CaDevice}
use libdvb.Ca.Tpdu
use libdvb.Ca.Tpdu.{RTpdu, max_tpdu_size, max_tpdu_data}
use libdvb.Ca.Tpdu.Build.{length-build}
use libdvb.Ca.Transport.{
  TransportSlot, ◌>>=◌, lift, slot_at, modify_slot, push_back, put_flushed, flush_slot, flush,
  check_slot, send_tpdu, send_rounds, send_spdu, send_apdu,
}
use libdvb.Ca.Transport.Flush.{
  Flushed, waiting, idle, sent, kept, short, failed, flush_slot-Flushed,
}
use libdvb.Ca.Transport.Invariant.{
  IsFrameOf, SlotInv, put-Inv, Keeps, Keeps-bind, Keeps-modify_slot,
}

Flushed-SlotInv :
    (i : ℕ) (s : TransportSlot) (link : CaDevice) (r : TransportSlot × CaDevice × Result (Unit {0}))
    → SlotInv i s
    → Flushed s link r
    → SlotInv i r.0
Flushed-SlotInv i s link r h (waiting b) = h
Flushed-SlotInv i s link r h (idle b q) = h
Flushed-SlotInv i s link r h (kept f rest kind b q w t) = h
Flushed-SlotInv i s link r h (sent f rest b q w) = record {
  bounded = h.bounded;
  framed = (subst (All (IsFrameOf i)) q h.framed).1;
}
Flushed-SlotInv i s link r h (short f rest n b q w m) = record {
  bounded = h.bounded;
  framed = (subst (All (IsFrameOf i)) q h.framed).1;
}
Flushed-SlotInv i s link r h (failed f rest kind b q w t) = record {
  bounded = h.bounded;
  framed = (subst (All (IsFrameOf i)) q h.framed).1;
}

pub flush-Keeps : (i : ℕ) → Keeps (flush i)
unfolding flush check_slot put_flushed
flush-Keeps i = Keeps-bind (check_slot i) _ (λ t v. v) (λ _. put)
  where
    put : Keeps (slot_at i >>= λ slot t. put_flushed i t (flush_slot slot t.link))
    put t v = elim (Option-cases (get_elem? t.slots i)) [
      | inl e ↦ rw e v
      | inr (s, e) ↦ rw e (
          put-Inv t _ i _ v
            (Flushed-SlotInv i s t.link _ (v.each i s e) (flush_slot-Flushed s t.link)))
    ]

push_back-SlotInv :
    (i tag : ℕ) (payload frame : List ℕ) (s : TransportSlot)
    → Tpdu.build i tag payload ≡ ok frame
    → SlotInv i s
    → SlotInv i (push_back frame s)
unfolding push_back
push_back-SlotInv i tag payload frame s e h =
    let (fits, a, b, c) = length-build i tag payload frame e in
    record {
      bounded = h.bounded;
      framed = All-append (IsFrameOf i) s.queue (frame ∷ []) h.framed ((fits, a, b), tt);
    }

pub send_tpdu-Keeps : (i tag : ℕ) (payload : List ℕ) → Keeps (send_tpdu i tag payload)
unfolding send_tpdu check_slot
send_tpdu-Keeps i tag payload = Keeps-bind (check_slot i) _ (λ t v. v) (λ _. built)
  where
    built : Keeps (
        lift (Tpdu.build i tag payload) >>= λ frame.
        modify_slot i (push_back frame) >>= λ _. flush i)
    built t v = elim (Result-cases (Tpdu.build i tag payload)) [
      | inl (frame, e) ↦ rw e (
          Keeps-bind (modify_slot i (push_back frame)) (λ _. flush i)
            (Keeps-modify_slot i (push_back frame) (λ s. push_back-SlotInv i tag payload frame s e))
            (λ _. flush-Keeps i) t v)
      | inr (inl (x, e)) ↦ rw e v
      | inr (inr e) ↦ rw e v
    ]

send_rounds-Keeps : (fuel i : ℕ) (rest : List ℕ) → Keeps (send_rounds fuel i rest)
unfolding send_rounds
send_rounds-Keeps zero i rest t v = v
send_rounds-Keeps (suc fuel) i rest t v = elim (Bool-cases (ltb max_tpdu_data (length rest))) [
  | inl more ↦ rw more (
      Keeps-bind (send_tpdu i _ _) _ (send_tpdu-Keeps i _ _)
        (λ _. send_rounds-Keeps fuel i (drop max_tpdu_data rest)) t v)
  | inr done ↦ rw done (send_tpdu-Keeps i _ rest t v)
]

pub send_spdu-Keeps : (i : ℕ) (bytes : List ℕ) → Keeps (send_spdu i bytes)
unfolding send_spdu check_slot
send_spdu-Keeps i bytes =
    Keeps-bind (check_slot i) _ (λ t v. v) (λ _. send_rounds-Keeps (suc (length bytes)) i bytes)

pub send_apdu-Keeps :
    (i session_id tag : ℕ) (body : List ℕ) → Keeps (send_apdu i session_id tag body)
unfolding send_apdu
send_apdu-Keeps i session_id tag body = elim (Bool-cases (ltb 65535 (length body))) [
  | inl large ↦ rw large (λ t v. v)
  | inr fits ↦ rw fits (send_spdu-Keeps i _)
]
