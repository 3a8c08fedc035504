-- ===== src/Ca/Transport/Steps.antt =====
-- Each operation on a slot that exists, as an equation, and what it does on one that does not.
use libdvb.Prelude.{
  ℕ, ◌≡◌, refl, ◌∙◌, true, List, length, get_elem?, set, get_elem?-lt, get_elem?-set_self, set-set,
  some, lt→ltb, ok,
}
use libdvb.Ca.Tpdu.{build}
use libdvb.Ca.Transport.{
  TransportSlot, CiTransport, put_flushed, flush_slot, flush, push_back, send_tpdu, check_slot,
}

pub flush_lem :
    (i : ℕ) (t : CiTransport) (slot : TransportSlot)
    → get_elem? t.slots i ≡ some slot
    → flush i t ≡ put_flushed i t (flush_slot slot t.link)
unfolding flush check_slot
flush_lem i t slot e = rw (lt→ltb i (length t.slots) (get_elem?-lt t.slots i e), e) refl

pub send_tpdu_lem :
    (i tag : ℕ) (payload frame : List ℕ) (t : CiTransport) (slot : TransportSlot)
    → get_elem? t.slots i ≡ some slot
    → build i tag payload ≡ ok frame
    → send_tpdu i tag payload t ≡ put_flushed i t (flush_slot (push_back frame slot) t.link)
unfolding send_tpdu check_slot put_flushed
send_tpdu_lem i tag payload frame t slot e b =
    let h = get_elem?-lt t.slots i e in
    rw (lt→ltb i (length t.slots) h, b)
      (rw e (
        flush_lem i _ (push_back frame slot) (get_elem?-set_self t.slots i (push_back frame slot) h)
        ∙ rw (set-set t.slots i (push_back frame slot)) refl))

-- While a slot waits for an answer, a frame for it is only queued.
pub send_tpdu_busy :
    (i tag : ℕ) (payload frame : List ℕ) (t : CiTransport) (slot : TransportSlot)
    → get_elem? t.slots i ≡ some slot
    → build i tag payload ≡ ok frame
    → slot.busy ≡ true
    → send_tpdu i tag payload t ≡ (record t { slots = set t.slots i (push_back frame slot) }, ok tt)
unfolding put_flushed flush_slot push_back
send_tpdu_busy i tag payload frame t slot e b busy =
    send_tpdu_lem i tag payload frame t slot e b ∙ rw busy refl
