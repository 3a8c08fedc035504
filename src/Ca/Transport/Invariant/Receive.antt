-- ===== src/Ca/Transport/Invariant/Receive.antt =====
-- The other operations keep the invariant.
use libdvb.Prelude.{
  ℕ, zero, suc, ◌≤◌, ◌≡◌, inl, inr, sym, false, List, [], ◌∷◌, Option, none, some, Option-cases,
  Result, ok, err, panic, invalid_data, arith, length-append, get_elem?, length-replicate,
  replicate,
}
use mathlib.Core.Path.{subst}
use libdvb.Ca.Device.{CaDevice, recv_msg}
use libdvb.Ca.Tpdu
use libdvb.Ca.Tpdu.{RTpdu, max_tpdu_size, max_tpdu_data}
use libdvb.Ca.Transport.{
  slots_num, TransportSlot, CiTransport, new_slot, new, accept, accept_data, recv_apdu,
  handle_parsed, handle_frame, put_link, clear_busy, set_busy, take_data_pending, clear_slot,
}
use libdvb.Ca.Transport.Invariant.{SlotInv, Inv, put-Inv, Keeps, Keeps-bind, Keeps-modify_slot}

accept-SlotInv : (i : ℕ) (p : RTpdu) (s : TransportSlot) → SlotInv i s → SlotInv i (accept p s).0
unfolding accept accept_data
accept-SlotInv i p s h = record {
  bounded = ground (arith, length-append s.rx_buffer p.body);
  framed = ground (arith, h.framed);
}

handle_parsed-Keeps : (o : Option ℕ) (r : Result RTpdu) → Keeps (handle_parsed o r)
unfolding handle_parsed
handle_parsed-Keeps o (ok p) t v = elim (Option-cases (get_elem? t.slots p.slot_id)) [
  | inl e ↦ rw e v
  | inr (s, e) ↦
      rw e (put-Inv t t.link p.slot_id _ v (accept-SlotInv p.slot_id p s (v.each p.slot_id s e)))
]
handle_parsed-Keeps (some i) (err invalid_data) t v = v
handle_parsed-Keeps none (err invalid_data) t v = v
handle_parsed-Keeps o (err e) t v = v
handle_parsed-Keeps o panic t v = v

clear_busy-Keeps : (o : Option ℕ) → Keeps (clear_busy o)
unfolding clear_busy
clear_busy-Keeps none t v = v
clear_busy-Keeps (some i) t v =
    Keeps-modify_slot i (set_busy false) (λ s h. record { bounded = h.bounded; framed = h.framed })
      t v

handle_frame-Keeps : (o : Option (List ℕ)) → Keeps (handle_frame o)
unfolding handle_frame
handle_frame-Keeps none t v = v
handle_frame-Keeps (some []) t v = v
handle_frame-Keeps (some (b ∷ bytes)) t v =
    let n = slots_num t in
    let o = Tpdu.frame_slot_id (b ∷ bytes) n in
    let r = Tpdu.parse (b ∷ bytes) n in
    Keeps-bind (clear_busy o) (λ _. handle_parsed o r) (clear_busy-Keeps o)
      (λ _. handle_parsed-Keeps o r) t v

pub recv_apdu-Keeps : Keeps recv_apdu
unfolding recv_apdu
recv_apdu-Keeps =
    Keeps-bind (λ t. put_link t (recv_msg t.link max_tpdu_size)) handle_frame
      (λ t v. record { few = v.few; each = v.each }) handle_frame-Keeps

pub take_data_pending-Inv : (t : CiTransport) (i : ℕ) → Inv t → Inv (take_data_pending t i).0
unfolding take_data_pending
take_data_pending-Inv t i v = elim (Option-cases (get_elem? t.slots i)) [
  | inl e ↦ rw e v
  | inr (s, e) ↦ rw e (
      put-Inv t t.link i _ v
        (record { bounded = (v.each i s e).bounded; framed = (v.each i s e).framed }))
]

pub clear_slot-Inv : (t : CiTransport) (i : ℕ) → Inv t → Inv (clear_slot t i)
unfolding clear_slot
clear_slot-Inv t i v = elim (Option-cases (get_elem? t.slots i)) [
  | inl e ↦ rw e v
  | inr (s, e) ↦ rw e (put-Inv t t.link i _ v (record { bounded = omega arith; framed = tt }))
]

new_slot-each :
    (n i : ℕ) (s : TransportSlot) → get_elem? (replicate n new_slot) i ≡ some s → s ≡ new_slot
new_slot-each zero i s e = cc
new_slot-each (suc n) zero s e = cc
new_slot-each (suc n) (suc i) s e = new_slot-each n i s e

pub new-Inv : (link : CaDevice) (slots_num : ℕ) → slots_num ≤ 255 → Inv (new link slots_num)
unfolding new
new-Inv link n h = record {
  few = omega (arith, length-replicate n new_slot);
  each = λ i s e.
      subst (SlotInv i) (sym (new_slot-each n i s e))
        (record { bounded = omega arith; framed = tt });
}
