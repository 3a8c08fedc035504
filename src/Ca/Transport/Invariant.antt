-- ===== src/Ca/Transport/Invariant.antt =====
-- What holds of a transport between two calls.
pub mod Send
pub mod Receive
use libdvb.Prelude.{
  ℕ, zero, suc, ◌+◌, ◌<◌, ◌≤◌, ◌≡◌, ◌⊎◌, inl, inr, refl, sym, ap, ◌∙◌, Bool, true, false, List, [],
  ◌∷◌, ◌++◌, Option, none, some, Option-cases, Error, Result, ok, err, panic, Result-cases,
  invalid_data, Bool-cases, arith, length, length-append, length-set, All, All-append, get_elem?,
  get_elem?-set_self, get_elem?-set_ne, get_elem?-lt, set, replicate, ltb, take, drop, ◌≢◌,
  if◌then◌else◌,
}
use mathlib.Core.Path.{subst}
use mathlib.Core.Option.{some-injective}
use native.Mathlib.Decide.{ℕ_discrete}
use libdvb.Ca.Device.{CaDevice}
use libdvb.Ca.Tpdu
use libdvb.Ca.Tpdu.{RTpdu, max_tpdu_size, max_tpdu_data}
use libdvb.Ca.Tpdu.Build.{length-build}
use libdvb.Ca.Transport.{
  M, TransportSlot, CiTransport, ◌>>=◌, continue, lift, slot_at, slot_or_panic, modify_slot,
  new_slot, new, push_back, put_flushed, flush_slot, flush, check_slot, send_tpdu, send_rounds,
  send_spdu, send_apdu, accept, accept_data, recv_apdu, handle_parsed, handle_frame, put_link,
  put_accepted, clear_busy, set_busy, take_data_pending, clear_slot, cleared, on_slot,
}
use libdvb.Ca.Transport.Flush.{
  Flushed, waiting, idle, sent, kept, short, failed, flush_slot-Flushed,
}

-- A frame that waits in the queue of slot `i` fits the link and is addressed to that slot.
abbrev pub IsFrameOf : ℕ → List ℕ → Type 0
IsFrameOf i f =
    (length f ≤ max_tpdu_size) × (get_elem? f 0 ≡ some i) × (get_elem? f 1 ≡ some (i + 1))

pub record SlotInv (i : ℕ) (s : TransportSlot) : Type 0 where
  pub bounded : length s.rx_buffer ≤ max_tpdu_size
  pub framed : All (IsFrameOf i) s.queue

-- There are at most 255 slots, and each satisfies its invariant.
pub record Inv (t : CiTransport) : Type 0 where
  pub few : length t.slots ≤ 255
  pub each : (i : ℕ) (s : TransportSlot) → get_elem? t.slots i ≡ some s → SlotInv i s

pub put-Inv :
    (t : CiTransport) (link : CaDevice) (i : ℕ) (s : TransportSlot)
    → Inv t
    → SlotInv i s
    → Inv (record t { link = link; slots = set t.slots i s })
put-Inv t link i s v h = record {
  few = omega (arith, v.few, length-set t.slots i s);
  each = λ j s' e. elim (ℕ_discrete i j) [
    | yes p ↦ subst (λ k. SlotInv k s') p (subst (SlotInv i) (found j s' p e) h)
    | no p ↦ v.each j s' (sym (get_elem?-set_ne t.slots i j s p) ∙ e)
  ];
}
  where
    found : (j : ℕ) (s' : TransportSlot) → i ≡ j → get_elem? (set t.slots i s) j ≡ some s' → s ≡ s'
    found j s' p e = cc (
        get_elem?-set_self t.slots i s
          (omega (arith, p, length-set t.slots i s, get_elem?-lt (set t.slots i s) j e)))

-- A call keeps the invariant, whatever it returns.
abbrev pub Keeps : {A : Type 0} → M A → Type 0
Keeps m = (t : CiTransport) → Inv t → Inv (m t).0

pub Keeps-bind :
    {A B : Type 0} (m : M A) (f : A → M B) → Keeps m → ((a : A) → Keeps (f a)) → Keeps (m >>= f)
Keeps-bind {A} {B} m f h k t v = go (m t) (h t v)
  where
    go : (p : CiTransport × Result A) → Inv p.0 → Inv (continue p f).0
    go (t', ok a) v' = k a t' v'
    go (t', err e) v' = v'
    go (t', panic) v' = v'

-- A call that changes one slot, where the slot's invariant is kept.
pub Keeps-modify_slot :
    (i : ℕ) (f : TransportSlot → TransportSlot)
    → ((s : TransportSlot) → SlotInv i s → SlotInv i (f s))
    → Keeps (modify_slot i f)
Keeps-modify_slot i f h t v = elim (Option-cases (get_elem? t.slots i)) [
  | inl e ↦ rw e v
  | inr (s, e) ↦ rw e (put-Inv t t.link i (f s) v (h s (v.each i s e)))
]
