-- ===== src/Ca/Transport.antt =====
-- src/ca/transport.rs: framing, queueing, fragmentation and reassembly over a link.
-- The read buffer `rx` is not part of the state: only the bytes of the last read are looked at.
mod Tests
mod State
pub mod Steps
pub mod Flush
pub mod Reassembly
pub mod Runs
pub mod Invariant
pub mod Fragments
pub use State.*
use libdvb.Prelude.{
  ℕ, zero, suc, ◌+◌, Bool, true, false, List, [], ◌∷◌, ◌++◌, ltb, ◌==◌, ◌||◌, if◌then◌else◌, u8,
  length, get_elem?, set, take, drop, Option, none, some, IoKind, would_block, interrupted,
  unexpected_eof, Result, Error, ok, err, panic, io, invalid_property, invalid_data, replicate,
}
use libdvb.Ca.Device.{CaDevice, send_msg, recv_msg}
use libdvb.Ca.Spdu.{build_session_number}
use libdvb.Ca.Apdu
use libdvb.Ca.Tpdu
use libdvb.Ca.Tpdu.{
  RTpdu, max_tpdu_size, max_tpdu_data, data_more, data_last, ctc_reply, sb, is_data, frame_slot_id,
}

new_slot : TransportSlot
new_slot = record { busy = false; queue = []; rx_buffer = []; data_pending = false }

-- `slots_num` is a `u8`.
pub new : CaDevice → ℕ → CiTransport
unfolding new_slot
new link slots_num = record { link = link; slots = replicate slots_num new_slot }

abbrev pub slots_num : CiTransport → ℕ
slots_num t = u8 (length t.slots)

pub check_slot : ℕ → M (Unit {0})
check_slot slot_id t = (t, if ltb slot_id (length t.slots) then ok tt else err invalid_property)

-- The `match` on what `send` returned, for the frame at the head of the queue.
after_send :
    TransportSlot
    → List (List ℕ)
    → CaDevice × Result (Unit {0})
    → TransportSlot × CaDevice × Result (Unit {0})
after_send slot rest (link, ok tt) = (record slot { queue = rest; busy = true }, link, ok tt)
after_send slot rest (link, err (io would_block)) = (slot, link, ok tt)
after_send slot rest (link, err (io interrupted)) = (slot, link, ok tt)
after_send slot rest (link, err e) = (record slot { queue = rest }, link, err e)
after_send slot rest (link, panic) = (slot, link, panic)

flush_queue :
    TransportSlot → List (List ℕ) → CaDevice → TransportSlot × CaDevice × Result (Unit {0})
flush_queue slot [] link = (slot, link, ok tt)
flush_queue slot (frame ∷ rest) link = after_send slot rest (send_msg link frame)

-- `flush_slot`, with `send` the link's `send_msg`.
pub flush_slot : TransportSlot → CaDevice → TransportSlot × CaDevice × Result (Unit {0})
unfolding flush_queue after_send
flush_slot slot link = if slot.busy then (slot, link, ok tt) else flush_queue slot slot.queue link

pub put_flushed :
    ℕ → CiTransport → TransportSlot × CaDevice × Result (Unit {0}) → CiTransport × Result (Unit {0})
put_flushed slot_id t (slot, link, r) =
    (record t { link = link; slots = set t.slots slot_id slot }, r)

pub flush : ℕ → M (Unit {0})
unfolding put_flushed
flush slot_id = do
  check_slot slot_id
  slot ← slot_at slot_id
  λ t. put_flushed slot_id t (flush_slot slot t.link)

pub push_back : List ℕ → TransportSlot → TransportSlot
push_back frame slot = record slot { queue = slot.queue ++ (frame ∷ []) }

pub send_tpdu : ℕ → ℕ → List ℕ → M (Unit {0})
unfolding push_back
send_tpdu slot_id tag payload = do
  check_slot slot_id
  frame ← lift (Tpdu.build slot_id tag payload)
  modify_slot slot_id (push_back frame)
  flush slot_id

-- The loop of `send_spdu` on what is left of the SPDU, then the last frame. A round takes bytes
-- away, so one round more than there are bytes is enough; `panic` is a loop that is not done then.
send_rounds : ℕ → ℕ → List ℕ → M (Unit {0})
send_rounds zero slot_id rest = lift panic
send_rounds (suc fuel) slot_id rest =
    let more = (do
      send_tpdu slot_id data_more (take max_tpdu_data rest)
      send_rounds fuel slot_id (drop max_tpdu_data rest)) in
    if ltb max_tpdu_data (length rest) then more else send_tpdu slot_id data_last rest

pub send_spdu : ℕ → List ℕ → M (Unit {0})
unfolding send_rounds
send_spdu slot_id bytes = do check_slot slot_id; send_rounds (suc (length bytes)) slot_id bytes

pub send_apdu : ℕ → ℕ → ℕ → List ℕ → M (Unit {0})
send_apdu slot_id session_id tag body =
    if ltb 65535 (length body)
    then lift (err invalid_property)
    else send_spdu slot_id (Apdu.build (build_session_number session_id) tag body)

set_busy : Bool → TransportSlot → TransportSlot
set_busy b slot = record slot { busy = b }

-- `if let Some(slot_id) = frame_slot { self.slots[..].busy = false }`
clear_busy : Option ℕ → M (Unit {0})
unfolding set_busy
clear_busy none = lift (ok tt)
clear_busy (some slot_id) = modify_slot slot_id (set_busy false)

-- The arm of `DATA_MORE` and `DATA_LAST`.
pub accept_data : ℕ → ℕ → List ℕ → TransportSlot → TransportSlot × TransportRecv
accept_data slot_id tag body slot =
    if ltb max_tpdu_size (length slot.rx_buffer + length body)
    then (record slot { rx_buffer = [] }, malformed slot_id)
    else let whole = slot.rx_buffer ++ body in
      if tag == data_more || length whole == 0
      then (record slot { rx_buffer = whole }, status slot_id)
      else (record slot { rx_buffer = [] }, spdu slot_id whole)

-- The `match` on the tag of a parsed frame.
pub accept : RTpdu → TransportSlot → TransportSlot × TransportRecv
accept parsed slot0 =
    let slot = record slot0 { data_pending = parsed.data_indicator } in
    if parsed.tag == ctc_reply
    then (slot, tc_reply parsed.slot_id)
    else if is_data parsed.tag
    then accept_data parsed.slot_id parsed.tag parsed.body slot
    else if parsed.tag == sb
    then (slot, status parsed.slot_id)
    else (slot, malformed parsed.slot_id)

put_accepted : ℕ → TransportSlot × TransportRecv → M (Option TransportRecv)
put_accepted slot_id (slot, recv) t =
    (record t { slots = set t.slots slot_id slot }, ok (some recv))

-- What follows `tpdu::parse`.
handle_parsed : Option ℕ → Result RTpdu → M (Option TransportRecv)
unfolding put_accepted
handle_parsed frame_slot (ok parsed) = do
  slot ← slot_at parsed.slot_id
  put_accepted parsed.slot_id (accept parsed slot)
handle_parsed (some slot_id) (err invalid_data) = lift (ok (some (malformed slot_id)))
handle_parsed none (err invalid_data) = lift (err invalid_data)
handle_parsed frame_slot (err e) = lift (err e)
handle_parsed frame_slot panic = lift panic

handle_frame : Option (List ℕ) → M (Option TransportRecv)
handle_frame none t = (t, ok none)
handle_frame (some []) t = (t, err (io unexpected_eof))
handle_frame (some (b ∷ bytes)) t =
    (do
      clear_busy (frame_slot_id (b ∷ bytes) (slots_num t))
      handle_parsed (frame_slot_id (b ∷ bytes) (slots_num t))
          (Tpdu.parse (b ∷ bytes) (slots_num t)))
      t

put_link : {A : Type 0} → CiTransport → CaDevice × Result A → CiTransport × Result A
put_link t (link, r) = (record t { link = link }, r)

pub recv_apdu : M (Option TransportRecv)
unfolding put_link
recv_apdu = do frame ← λ t. put_link t (recv_msg t.link max_tpdu_size); handle_frame frame

on_slot {ℓ} : {A : Type ℓ} → (TransportSlot → A) → A → Option TransportSlot → A
on_slot f a none = a
on_slot f a (some slot) = f slot

pub is_busy : CiTransport → ℕ → Bool
unfolding on_slot
is_busy t slot_id = on_slot (λ slot. slot.busy) false (get_elem? t.slots slot_id)

pub queue_len : CiTransport → ℕ → ℕ
unfolding on_slot
queue_len t slot_id = on_slot (λ slot. length slot.queue) 0 (get_elem? t.slots slot_id)

pub take_data_pending : CiTransport → ℕ → CiTransport × Bool
unfolding on_slot
take_data_pending t slot_id =
    on_slot
      (λ slot. (
        record t { slots = set t.slots slot_id (record slot { data_pending = false }) },
        slot.data_pending,
      ))
      (t, false) (get_elem? t.slots slot_id)

cleared : TransportSlot → TransportSlot
cleared slot = record slot { busy = false; queue = []; rx_buffer = []; data_pending = false }

pub clear_slot : CiTransport → ℕ → CiTransport
unfolding on_slot cleared
clear_slot t slot_id =
    on_slot (λ slot. record t { slots = set t.slots slot_id (cleared slot) }) t
      (get_elem? t.slots slot_id)
