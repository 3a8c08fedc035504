-- ===== src/Ca/Transport/Flush.antt =====
-- One call of `flush_slot`: what happens to the queue and to the link.
use libdvb.Prelude.{
  ℕ, ◌≡◌, ◌≢◌, inl, inr, refl, Bool, true, false, List, [], ◌∷◌, ◌++◌, ◌==◌, length, IoKind,
  would_block, interrupted, unexpected_eof, other_kind, io, invalid_data, Result, ok, err,
  Bool-cases, ==→eq, arith,
}
use libdvb.Ca.Device.{
  CaDevice, wrote, write_failed, Written-cases, counted, send_msg-wrote, send_msg-short,
  send_msg-failed,
}
use libdvb.Ca.Transport.{TransportSlot, flush_slot, flush_queue, after_send}

-- The errors of write(2) after which the same frame may be written again.
abbrev pub is_transient : IoKind → Bool
is_transient would_block = true
is_transient interrupted = true
is_transient unexpected_eof = false
is_transient other_kind = false

-- What has to come of a call of `flush_slot`, by the slot and by what write(2) answers for the frame
-- at the head of the queue.
pub data Flushed (slot : TransportSlot) (link : CaDevice)
    : TransportSlot × CaDevice × Result (Unit {0}) → Type 0 where
  -- An answer is awaited: the link is not touched.
  waiting : slot.busy ≡ true → Flushed slot link (slot, link, ok tt)
  -- There is nothing to send: the link is not touched.
  idle : slot.busy ≡ false → slot.queue ≡ [] → Flushed slot link (slot, link, ok tt)
  -- The frame is taken whole: it leaves the queue, and its answer is awaited.
  sent :
      (frame : List ℕ) (rest : List (List ℕ))
      → slot.busy ≡ false
      → slot.queue ≡ frame ∷ rest
      → link.on_write link.writes frame ≡ wrote (length frame)
      → Flushed slot link (
        record slot { queue = rest; busy = true },
        record (counted link) { sent = link.sent ++ (frame ∷ []) },
        ok tt,
      )
  -- The link is not ready: the frame stays at the head of the queue.
  kept :
      (frame : List ℕ) (rest : List (List ℕ)) (kind : IoKind)
      → slot.busy ≡ false
      → slot.queue ≡ frame ∷ rest
      → link.on_write link.writes frame ≡ write_failed kind
      → is_transient kind ≡ true
      → Flushed slot link (slot, counted link, ok tt)
  -- A part of the frame is taken: it is given up.
  short :
      (frame : List ℕ) (rest : List (List ℕ)) (n : ℕ)
      → slot.busy ≡ false
      → slot.queue ≡ frame ∷ rest
      → link.on_write link.writes frame ≡ wrote n
      → n ≢ length frame
      → Flushed slot link (record slot { queue = rest }, counted link, err invalid_data)
  -- The link failed: the frame is given up, and the error is returned.
  failed :
      (frame : List ℕ) (rest : List (List ℕ)) (kind : IoKind)
      → slot.busy ≡ false
      → slot.queue ≡ frame ∷ rest
      → link.on_write link.writes frame ≡ write_failed kind
      → is_transient kind ≡ false
      → Flushed slot link (record slot { queue = rest }, counted link, err (io kind))

module _ (slot : TransportSlot) (link : CaDevice) (frame : List ℕ) (rest : List (List ℕ))
    (b : slot.busy ≡ false) (q : slot.queue ≡ frame ∷ rest) where
  wrote-Flushed :
      (n : ℕ)
      → link.on_write link.writes frame ≡ wrote n
      → Flushed slot link (flush_queue slot (frame ∷ rest) link)
  unfolding flush_queue after_send
  wrote-Flushed n w = elim (Bool-cases (n == length frame)) [
    | inl all ↦
        rw (send_msg-wrote link frame n w all)
          (sent frame rest b q (rw (← ==→eq n (length frame) all) w))
    | inr part ↦
        rw (send_msg-short link frame n w part) (short frame rest n b q w λ e. ground arith)
  ]

  failed-Flushed :
      (kind : IoKind)
      → link.on_write link.writes frame ≡ write_failed kind
      → Flushed slot link (flush_queue slot (frame ∷ rest) link)
  unfolding flush_queue after_send
  failed-Flushed would_block w =
      rw (send_msg-failed link frame would_block w) (kept frame rest would_block b q w refl)
  failed-Flushed interrupted w =
      rw (send_msg-failed link frame interrupted w) (kept frame rest interrupted b q w refl)
  failed-Flushed unexpected_eof w =
      rw (send_msg-failed link frame unexpected_eof w) (failed frame rest unexpected_eof b q w refl)
  failed-Flushed other_kind w =
      rw (send_msg-failed link frame other_kind w) (failed frame rest other_kind b q w refl)

flush_queue-Flushed :
    (slot : TransportSlot) (link : CaDevice) (queue : List (List ℕ))
    → slot.busy ≡ false
    → slot.queue ≡ queue
    → Flushed slot link (flush_queue slot queue link)
unfolding flush_queue
flush_queue-Flushed slot link [] b q = idle b q
flush_queue-Flushed slot link (frame ∷ rest) b q =
    elim (Written-cases (link.on_write link.writes frame)) [
      | inl (n, w) ↦ wrote-Flushed slot link frame rest b q n w
      | inr (kind, w) ↦ failed-Flushed slot link frame rest b q kind w
    ]

-- A slot that waits for an answer or has nothing to send is left alone, and so is the link. Otherwise
-- the head of the queue is written, once, and the answer to that write decides: a frame that is taken
-- whole leaves the queue and makes the slot wait, one that the link was not ready for stays, and
-- after a short write or another error the frame leaves the queue and the error is returned.
pub flush_slot-Flushed :
    (slot : TransportSlot) (link : CaDevice) → Flushed slot link (flush_slot slot link)
unfolding flush_slot
flush_slot-Flushed slot link = elim (Bool-cases slot.busy) [
  | inl b ↦ simp b (waiting b)
  | inr b ↦ simp b (flush_queue-Flushed slot link slot.queue b refl)
]
