-- ===== src/Ca/Transport/State.antt =====
-- src/ca/transport.rs: the state, and calls that change it and may fail. What was changed before
-- an error stays changed.
use libdvb.Prelude.{ℕ, Bool, List, Option, none, some, get_elem?, set, Result, ok, err, panic}
use libdvb.Ca.Device.{CaDevice}

pub record TransportSlot : Type 0 where
  pub busy : Bool
  pub queue : List (List ℕ)
  pub rx_buffer : List ℕ
  pub data_pending : Bool

pub record CiTransport : Type 0 where
  pub link : CaDevice
  pub slots : List TransportSlot

-- The texts of `Malformed` are left out.
pub data TransportRecv : Type 0 where
  tc_reply : (slot_id : ℕ) → TransportRecv
  spdu : (slot_id : ℕ) (bytes : List ℕ) → TransportRecv
  status : (slot_id : ℕ) → TransportRecv
  malformed : (slot_id : ℕ) → TransportRecv

abbrev pub M : Type 0 → Type 0
M A = CiTransport → CiTransport × Result A

abbrev pub continue : {A B : Type 0} → CiTransport × Result A → (A → M B) → CiTransport × Result B
continue (t, ok a) f = f a t
continue (t, err e) f = (t, err e)
continue (t, panic) f = (t, panic)

infixl 5 ◌>>=◌ ◌>>◌
abbrev pub ◌>>=◌ : {A B : Type 0} → M A → (A → M B) → M B
◌>>=◌ m f t = continue (m t) f

abbrev pub ◌>>◌ : {A B : Type 0} → M A → M B → M B
m >> k = m >>= λ _. k

abbrev pub lift : {A : Type 0} → Result A → M A
lift r t = (t, r)

-- `self.slots[usize::from(slot_id)]`
abbrev pub slot_or_panic : Option TransportSlot → Result TransportSlot
slot_or_panic none = panic
slot_or_panic (some slot) = ok slot

abbrev pub slot_at : ℕ → M TransportSlot
slot_at slot_id t = (t, slot_or_panic (get_elem? t.slots slot_id))

abbrev pub modify_slot : ℕ → (TransportSlot → TransportSlot) → M (Unit {0})
modify_slot slot_id f = do
  slot ← slot_at slot_id
  λ t. (record t { slots = set t.slots slot_id (f slot) }, ok tt)
