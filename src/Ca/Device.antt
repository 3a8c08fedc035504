-- ===== src/Ca/Device.antt =====
-- src/ca/mod.rs: the link, `CaDevice`. The kernel behind the descriptor is a parameter: what its
-- write(2) and read(2) return, call by call. The node's numbers and vendor ids play no part.
use libdvb.Prelude.{
  ℕ, zero, suc, ◌≤◌, ap, List, [], ◌∷◌, ◌++◌, ◌==◌, if◌then◌else◌, length, take, true, false,
  Option, none, some, IoKind, would_block, unexpected_eof, refl, ◌⊎◌, inl, inr, Error, Bool-cases,
  Result, ok, err, io, invalid_data, arith, ◌≡◌,
}

-- What write(2) returned: the number of bytes taken, or an error.
pub data Written : Type 0 where
  wrote : ℕ → Written
  write_failed : IoKind → Written

-- What read(2) returned: the bytes that are there, or an error.
pub data Read : Type 0 where
  got : List ℕ → Read
  read_failed : IoKind → Read

-- `on_write n frame` answers the write after `n` others, `on_read n` the read after `n` others.
-- `writes` and `reads` count the calls so far; `sent` are the frames that were taken whole, in order.
pub record CaDevice : Type 0 where
  pub on_write : ℕ → List ℕ → Written
  pub on_read : ℕ → Read
  pub writes : ℕ
  pub reads : ℕ
  pub sent : List (List ℕ)

-- What `send_msg` makes of the answer, for a device that has counted the call.
send_result : CaDevice → List ℕ → Written → CaDevice × Result (Unit {0})
send_result d msg (wrote n) =
    if n == length msg
    then (record d { sent = d.sent ++ (msg ∷ []) }, ok tt)
    else (d, err invalid_data)
send_result d msg (write_failed kind) = (d, err (io kind))

pub send_msg : CaDevice → List ℕ → CaDevice × Result (Unit {0})
unfolding send_result
send_msg d msg = send_result (record d { writes = suc d.writes }) msg (d.on_write d.writes msg)

recv_result : ℕ → Read → Result (Option (List ℕ))
recv_result size (got []) = err (io unexpected_eof)
recv_result size (got (b ∷ bytes)) = ok (some (take size (b ∷ bytes)))
recv_result size (read_failed would_block) = ok none
recv_result size (read_failed kind) = err (io kind)

-- `size` is the length of the buffer: read(2) returns no more than that.
pub recv_msg : CaDevice → ℕ → CaDevice × Result (Option (List ℕ))
unfolding recv_result
recv_msg d size = (record d { reads = suc d.reads }, recv_result size (d.on_read d.reads))

pub Written-cases :
    (w : Written) → ((n : ℕ) × (w ≡ wrote n)) ⊎ ((k : IoKind) × (w ≡ write_failed k))
Written-cases (wrote n) = inl (n, refl)
Written-cases (write_failed k) = inr (k, refl)

-- A frame is sent, and the call succeeds, exactly when the kernel takes it whole.
pub send_msg_cases :
    (d : CaDevice) (msg : List ℕ)
    → (((send_msg d msg).1 ≡ ok tt) × ((send_msg d msg).0.sent ≡ d.sent ++ (msg ∷ [])))
      ⊎ ((e : Error) × ((send_msg d msg).1 ≡ err e) × ((send_msg d msg).0.sent ≡ d.sent))
unfolding send_msg
send_msg_cases d msg = elim (Written-cases (d.on_write d.writes msg)) [
  | inl (n, w) ↦ elim (Bool-cases (n == length msg)) [
    | inl all ↦ inl (rw (w, send_result) (rw all refl), rw (w, send_result) (rw all refl))
    | inr short ↦
        inr (invalid_data, rw (w, send_result) (rw short refl), rw (w, send_result) (rw short refl))
  ]
  | inr (k, w) ↦ inr (io k, rw (w, send_result) refl, rw (w, send_result) refl)
]

-- The device once a write is counted.
abbrev pub counted : CaDevice → CaDevice
counted d = record d { writes = suc d.writes }

-- What `send_msg` does for each answer to its write.
pub send_msg-wrote :
    (d : CaDevice) (msg : List ℕ) (n : ℕ)
    → d.on_write d.writes msg ≡ wrote n
    → (n == length msg) ≡ true
    → send_msg d msg ≡ (record (counted d) { sent = d.sent ++ (msg ∷ []) }, ok tt)
unfolding send_msg
send_msg-wrote d msg n w all = rw (w, send_result) (rw all refl)

pub send_msg-short :
    (d : CaDevice) (msg : List ℕ) (n : ℕ)
    → d.on_write d.writes msg ≡ wrote n
    → (n == length msg) ≡ false
    → send_msg d msg ≡ (counted d, err invalid_data)
unfolding send_msg
send_msg-short d msg n w short = rw (w, send_result) (rw short refl)

pub send_msg-failed :
    (d : CaDevice) (msg : List ℕ) (kind : IoKind)
    → d.on_write d.writes msg ≡ write_failed kind
    → send_msg d msg ≡ (counted d, err (io kind))
unfolding send_msg
send_msg-failed d msg kind w = rw (w, send_result) refl

take_all : (size : ℕ) (bytes : List ℕ) → length bytes ≤ size → take size bytes ≡ bytes
take_all zero [] h = refl
take_all zero (b ∷ bytes) h = absurd (omega arith)
take_all (suc size) [] h = refl
take_all (suc size) (b ∷ bytes) h = ap (λ t. b ∷ t) (take_all size bytes (omega arith))

-- A frame that fits the buffer is read whole.
pub recv_msg_got :
    (d : CaDevice) (size b : ℕ) (bytes : List ℕ)
    → d.on_read d.reads ≡ got (b ∷ bytes)
    → length (b ∷ bytes) ≤ size
    → recv_msg d size ≡ (record d { reads = suc d.reads }, ok (some (b ∷ bytes)))
unfolding recv_msg
recv_msg_got d size b bytes e h = rw (e, recv_result) (rw (take_all size (b ∷ bytes) h) refl)
