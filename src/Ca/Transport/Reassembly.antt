-- ===== src/Ca/Transport/Reassembly.antt =====
-- `recv_apdu` puts the frames of an SPDU together again.
use libdvb.Prelude.{
  ℕ, zero, suc, ◌+◌, ◌<◌, ◌≤◌, ◌≡◌, refl, ap, ◌∙◌, true, false, Bool, List, [], ◌∷◌, ◌++◌,
  append_assoc, Option, some, Result, ok, arith, length, length-append, All, get_elem?,
  get_elem?-set_self, get_elem?-lt, set, set-set, length-set, leb, lt→ltb, IsByte, u8,
}
use mathlib.Core.List.{map}
use libdvb.Ca.Device.{Read, got, recv_msg_got}
use libdvb.Ca.Tpdu.{data_more, data_last, RTpdu, is_data, max_tpdu_size, frame_slot_id}
use libdvb.Ca.Tpdu.Build.{data_frame, length-data_frame}
use libdvb.Ca.Tpdu.RoundTrip.{status_object, parse-data_frame}
use libdvb.Ca.Transport.{
  TransportSlot, CiTransport, TransportRecv, status, spdu, accept, accept_data, recv_apdu,
  handle_frame, handle_parsed, clear_busy,
}

-- One frame from a module: its tag, payload and status byte.
pub record Fragment : Type 0 where
  pub tag : ℕ
  pub payload : List ℕ
  pub status_byte : ℕ

abbrev pub wire : ℕ → Fragment → List ℕ
wire i f = data_frame i f.tag f.payload ++ status_object (i + 1) f.status_byte

pub record IsFragment (i : ℕ) (f : Fragment) : Type 0 where
  pub carries : is_data f.tag ≡ true
  pub byte : IsByte f.status_byte
  pub fits : length (wire i f) ≤ max_tpdu_size

-- The slot once the frame is read: it waits no more, and has the frame's data indicator.
abbrev heard : Fragment → TransportSlot → TransportSlot
heard f s = record s { busy = false; data_pending = leb 128 f.status_byte }

accept_fragment :
    (i tag : ℕ) (body : List ℕ) (d : Bool) (s : TransportSlot)
    → is_data tag ≡ true
    → accept (record { slot_id = i; tag = tag; body = body; data_indicator = d }) s
      ≡ accept_data i tag body (record s { data_pending = d })
unfolding accept
accept_fragment i tag body d s h = ground arith

clear_busy_lem :
    (i : ℕ) (t : CiTransport) (s : TransportSlot)
    → get_elem? t.slots i ≡ some s
    → clear_busy (some i) t
      ≡ (record t { slots = set t.slots i (record s { busy = false }) }, ok tt)
unfolding clear_busy
clear_busy_lem i t s e = rw e refl

handle_parsed_lem :
    (o : Option ℕ) (p : RTpdu) (t : CiTransport) (s : TransportSlot)
    → get_elem? t.slots p.slot_id ≡ some s
    → handle_parsed o (ok p) t
      ≡ (record t { slots = set t.slots p.slot_id (accept p s).0 }, ok (some (accept p s).1))
unfolding handle_parsed
handle_parsed_lem o p t s e = rw e refl

handle_fragment :
    (t : CiTransport) (i : ℕ) (s : TransportSlot) (f : Fragment)
    → length t.slots ≤ 255
    → get_elem? t.slots i ≡ some s
    → IsFragment i f
    → handle_frame (some (wire i f)) t ≡ (
      record t { slots = set t.slots i (accept_data i f.tag f.payload (heard f s)).0 },
      ok (some (accept_data i f.tag f.payload (heard f s)).1),
    )
unfolding handle_frame frame_slot_id
handle_fragment t i s f few e h =
    let here = get_elem?-lt t.slots i e in
    let s' : TransportSlot = record s { busy = false } in
    rw (lt→ltb i (u8 (length t.slots)) (omega arith), clear_busy_lem i t s e)
      (rw
        (parse-data_frame i f.tag (u8 (length t.slots)) f.status_byte f.payload (omega arith)
          h.carries
          (omega (
            arith,
            h.fits,
            length-append (data_frame i f.tag f.payload) (status_object (i + 1) f.status_byte),
            length-data_frame i f.tag f.payload,
          ))
          h.byte)
        (handle_parsed_lem _ _ _ s' (get_elem?-set_self t.slots i s' here)
          ∙ rw
              (
                set-set t.slots i s',
                accept_fragment i f.tag f.payload (leb 128 f.status_byte) s' h.carries,
              )
              refl))

-- Reading one data frame that a module sent on slot `i`.
recv_apdu_fragment :
    (t : CiTransport) (i : ℕ) (s : TransportSlot) (f : Fragment)
    → length t.slots ≤ 255
    → get_elem? t.slots i ≡ some s
    → IsFragment i f
    → t.link.on_read t.link.reads ≡ got (wire i f)
    → recv_apdu t ≡ (
      record t {
        link = record t.link { reads = suc t.link.reads };
        slots = set t.slots i (accept_data i f.tag f.payload (heard f s)).0;
      },
      ok (some (accept_data i f.tag f.payload (heard f s)).1),
    )
unfolding recv_apdu
recv_apdu_fragment t i s f few e h read =
    rw (recv_msg_got t.link max_tpdu_size _ _ read h.fits) (
      handle_fragment (record t { link = record t.link { reads = suc t.link.reads } }) i s f few e
        h)

-- `n` reads in a row, with what each returned.
abbrev pub receive_all : ℕ → CiTransport → CiTransport × List (Result (Option TransportRecv))
receive_all zero t = (t, [])
receive_all (suc n) t =
    let (t', r) = recv_apdu t in let (t'', rs) = receive_all n t' in (t'', r ∷ rs)

receive_all_step :
    (n : ℕ) (t t' : CiTransport) (r : Result (Option TransportRecv))
    → recv_apdu t ≡ (t', r)
    → receive_all (suc n) t ≡ ((receive_all n t').0, r ∷ (receive_all n t').1)
receive_all_step n t t' r e =
    ap
      (λ (p : CiTransport × Result (Option TransportRecv)).
        ((receive_all n p.0).0, p.1 ∷ (receive_all n p.0).1))
      e

-- The link delivers these frames of slot `i`, one to a read, from the read `n` on.
abbrev pub Delivers : ℕ → (ℕ → Read) → ℕ → List Fragment → Type 0
Delivers i on_read n [] = Unit
Delivers i on_read n (f ∷ fs) = (on_read n ≡ got (wire i f)) × Delivers i on_read (suc n) fs

abbrev pub payloads : List Fragment → List ℕ
payloads [] = []
payloads (f ∷ fs) = f.payload ++ payloads fs

abbrev pub IsMore : Fragment → Type 0
IsMore f = f.tag ≡ data_more

accept_more :
    (i tag : ℕ) (body : List ℕ) (s : TransportSlot)
    → tag ≡ data_more
    → length s.rx_buffer + length body ≤ max_tpdu_size
    → accept_data i tag body s ≡ (record s { rx_buffer = s.rx_buffer ++ body }, status i)
unfolding accept_data
accept_more i tag body s e h = ground arith

accept_last :
    (i tag : ℕ) (body : List ℕ) (s : TransportSlot)
    → tag ≡ data_last
    → length s.rx_buffer + length body ≤ max_tpdu_size
    → 0 < length s.rx_buffer + length body
    → accept_data i tag body s ≡ (record s { rx_buffer = [] }, spdu i (s.rx_buffer ++ body))
unfolding accept_data
accept_last i tag body s e h k = ground (arith, length-append s.rx_buffer body)

-- The transport after a read that leaves slot `i` as `s`.
abbrev after_read : CiTransport → ℕ → TransportSlot → CiTransport
after_read t i s = record t {
  link = record t.link { reads = suc t.link.reads };
  slots = set t.slots i s;
}

-- Let a module send `DATA_MORE` frames and then a `DATA_LAST` frame on one slot, cut as it likes,
-- with as much payload as the reassembly buffer can still take, and some. Then the reads return a
-- status for each but the last, and the last returns the SPDU: what was in the buffer, followed by
-- the payloads in order. The buffer is empty after that, the slot's queue is as before, and the slot
-- is free to send.
pub reassembly :
    (fs : List Fragment) (last : Fragment) (t : CiTransport) (i : ℕ) (s : TransportSlot)
    → length t.slots ≤ 255
    → get_elem? t.slots i ≡ some s
    → All (IsFragment i) fs
    → All IsMore fs
    → IsFragment i last
    → last.tag ≡ data_last
    → Delivers i t.link.on_read t.link.reads (fs ++ (last ∷ []))
    → length s.rx_buffer + length (payloads fs) + length last.payload ≤ max_tpdu_size
    → 0 < length s.rx_buffer + length (payloads fs) + length last.payload
    → ((receive_all (suc (length fs)) t).1
        ≡ map (λ f. ok (some (status i))) fs
          ++ (ok (some (spdu i (s.rx_buffer ++ (payloads fs ++ last.payload)))) ∷ []))
      × (get_elem? (receive_all (suc (length fs)) t).0.slots i
          ≡ some
              (record s { busy = false; rx_buffer = []; data_pending = leb 128 last.status_byte }))
reassembly [] last t i s few e h m hl tl d fits some_bytes =
    let step = recv_apdu_fragment t i s last few e hl d.0 in
    let taken = accept_last i last.tag last.payload (heard last s) tl (omega arith) (omega arith) in
    (
      rw (step, taken) refl,
      rw (step, taken) (get_elem?-set_self t.slots i _ (get_elem?-lt t.slots i e)),
    )
reassembly (f ∷ fs) last t i s few e h m hl tl d fits some_bytes =
    let sizes = length-append f.payload (payloads fs) in
    let step = recv_apdu_fragment t i s f few e h.0 d.0 in
    let taken = accept_more i f.tag f.payload (heard f s) m.0 (omega (arith, sizes)) in
    let s' : TransportSlot = record s {
      busy = false;
      data_pending = leb 128 f.status_byte;
      rx_buffer = s.rx_buffer ++ f.payload;
    } in
    let t' = after_read t i s' in
    let grown = length-append s.rx_buffer f.payload in
    let (results, left) =
      reassembly fs last t' i s' (omega (arith, few, length-set t.slots i s'))
        (get_elem?-set_self t.slots i s' (get_elem?-lt t.slots i e)) h.1 m.1 hl tl d.1
        (omega (arith, sizes, grown)) (omega (arith, sizes, grown)) in
    let more =
      receive_all_step (suc (length fs)) t t' (ok (some (status i))) (step ∙ rw taken refl) in
    (
      ap (λ p. p.1) more
          ∙ ap (λ rs. ok (some (status i)) ∷ rs)
              (results
                ∙ rw
                    (
                      append_assoc s.rx_buffer f.payload (payloads fs ++ last.payload),
                      append_assoc f.payload (payloads fs) last.payload,
                    )
                    refl),
      ap (λ p. get_elem? p.0.slots i) more ∙ left,
    )
