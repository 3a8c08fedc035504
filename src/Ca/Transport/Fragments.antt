-- ===== src/Ca/Transport/Fragments.antt =====
-- `send_spdu` cuts an SPDU into frames.
use libdvb.Prelude.{
  ℕ, zero, suc, ◌<◌, ◌≤◌, ◌≡◌, ◌⊎◌, refl, ◌∙◌, true, List, [], ◌∷◌, ◌++◌, append_assoc, arith,
  length, get_elem?, set, take, drop, All, length-take, length-drop, take-append-drop, Bool-cases,
  ltb, ltb→lt, ltb→le, lt→ltb, get_elem?-lt, get_elem?-set_self, set-set, some, inl, inr, ok, false,
}
use mathlib.Core.List.{flatten}
use libdvb.Ca.Apdu
use libdvb.Ca.Spdu.{build_session_number}
use libdvb.Ca.Tpdu.{max_tpdu_data, data_more, data_last}
use libdvb.Ca.Tpdu.Build.{data_frame, build_data}
use libdvb.Ca.Transport.{
  TransportSlot, CiTransport, push_back, check_slot, send_rounds, send_spdu, send_apdu,
}
use libdvb.Ca.Transport.Steps.{send_tpdu_busy}

-- `chunks` and `last` are `bytes` in order; all but the last piece are of the largest size, and the
-- last is empty only where there is nothing at all to send.
pub record IsSplit (bytes : List ℕ) (chunks : List (List ℕ)) (last : List ℕ) : Type 0 where
  pub whole : flatten chunks ++ last ≡ bytes
  pub full : All (λ c. length c ≡ max_tpdu_data) chunks
  pub fits : length last ≤ max_tpdu_data
  pub ends : (length bytes ≡ 0) ⊎ (0 < length last)

-- The frames of the pieces.
abbrev pub frames : ℕ → List (List ℕ) → List ℕ → List (List ℕ)
frames i [] last = data_frame i data_last last ∷ []
frames i (c ∷ chunks) last = data_frame i data_more c ∷ frames i chunks last

abbrev pub queued : TransportSlot → List (List ℕ) → TransportSlot
queued slot fs = record slot { queue = slot.queue ++ fs }

IsSplit-more :
    (bytes : List ℕ) (chunks : List (List ℕ)) (last : List ℕ)
    → max_tpdu_data < length bytes
    → IsSplit (drop max_tpdu_data bytes) chunks last
    → IsSplit bytes (take max_tpdu_data bytes ∷ chunks) last
unfolding flatten
IsSplit-more bytes chunks last h s = record {
  whole =
      append_assoc (take max_tpdu_data bytes) (flatten chunks) last
      ∙ rw s.whole (take-append-drop max_tpdu_data bytes);
  full = (omega (arith, length-take max_tpdu_data bytes), s.full);
  fits = s.fits;
  ends = omega (arith, s.ends, length-drop max_tpdu_data bytes);
}

send_rounds_busy :
    (fuel i : ℕ) (bytes : List ℕ) (t : CiTransport) (slot : TransportSlot)
    → length bytes < fuel
    → i < 255
    → get_elem? t.slots i ≡ some slot
    → slot.busy ≡ true
    → (chunks : List (List ℕ)) × (last : List ℕ) × IsSplit bytes chunks last
      × (send_rounds fuel i bytes t
          ≡ (record t { slots = set t.slots i (queued slot (frames i chunks last)) }, ok tt))
unfolding send_rounds push_back flatten
send_rounds_busy zero i bytes t slot h hi e busy = absurd (omega arith)
send_rounds_busy (suc fuel) i bytes t slot h hi e busy =
    elim (Bool-cases (ltb max_tpdu_data (length bytes))) [
      | inl more ↦
          let long = ltb→lt max_tpdu_data (length bytes) more in
          let c = take max_tpdu_data bytes in
          let sent =
            send_tpdu_busy i data_more c (data_frame i data_more c) t slot e
              (build_data i data_more c hi refl (omega (arith, length-take max_tpdu_data bytes)))
              busy in
          let slot' = push_back (data_frame i data_more c) slot in
          let t' : CiTransport = record t { slots = set t.slots i slot' } in
          let (chunks, last, s, r) =
            send_rounds_busy fuel i (drop max_tpdu_data bytes) t' slot'
              (omega (arith, length-drop max_tpdu_data bytes)) hi
              (get_elem?-set_self t.slots i slot' (get_elem?-lt t.slots i e)) busy in
          (
            c ∷ chunks,
            last,
            IsSplit-more bytes chunks last long s,
            rw more (
                rw sent (
                  r
                  ∙ rw
                      (
                        set-set t.slots i slot' (queued slot' (frames i chunks last)),
                        append_assoc slot.queue (data_frame i data_more c ∷ [])
                            (frames i chunks last),
                      )
                      refl)),
          )
      | inr done ↦
          let short = ltb→le max_tpdu_data (length bytes) done in
          (
            [],
            bytes,
            record { whole = refl; full = tt; fits = short; ends = omega arith },
            rw done (
                send_tpdu_busy i data_last bytes (data_frame i data_last bytes) t slot e
                  (build_data i data_last bytes hi refl short) busy),
          )
    ]

-- While a slot waits for an answer, `send_spdu` succeeds and writes nothing: it only adds frames to
-- the slot's queue, behind what is there. They carry the SPDU's bytes in order, each but the last a
-- full `DATA_MORE` frame, the last a `DATA_LAST` frame that is not empty unless the SPDU is.
pub send_spdu_busy :
    (i : ℕ) (bytes : List ℕ) (t : CiTransport) (slot : TransportSlot)
    → i < 255
    → get_elem? t.slots i ≡ some slot
    → slot.busy ≡ true
    → (chunks : List (List ℕ)) × (last : List ℕ) × IsSplit bytes chunks last
      × (send_spdu i bytes t
          ≡ (record t { slots = set t.slots i (queued slot (frames i chunks last)) }, ok tt))
unfolding send_spdu check_slot
send_spdu_busy i bytes t slot hi e busy =
    let (chunks, last, s, r) =
      send_rounds_busy (suc (length bytes)) i bytes t slot (omega arith) hi e busy in
    (chunks, last, s, rw (lt→ltb i (length t.slots) (get_elem?-lt t.slots i e)) r)

-- The same for an APDU.
pub send_apdu_busy :
    (i session_id tag : ℕ) (body : List ℕ) (t : CiTransport) (slot : TransportSlot)
    → i < 255
    → length body ≤ 65535
    → get_elem? t.slots i ≡ some slot
    → slot.busy ≡ true
    → (send_apdu i session_id tag body t).1 ≡ ok tt
unfolding send_apdu
send_apdu_busy i session_id tag body t slot hi short e busy =
    let (chunks, last, s, r) =
      send_spdu_busy i (Apdu.build (build_session_number session_id) tag body) t slot hi e busy in
    let fits : ltb 65535 (length body) ≡ false = ground arith in rw fits (rw r refl)
