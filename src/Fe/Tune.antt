-- ===== src/Fe/Tune.antt =====
-- src/fe/tune.rs: the scrambling sequence index of a DVB-S2 multistream. The loop counts down the
-- rounds that it has left.
pub mod Request
pub mod Search
mod Tests
use libdvb.Prelude.{
  ℕ, zero, suc, true, false, Option, none, some, ◌==◌, if◌then◌else◌, bit_and, bit_or, bit_xor, shl,
  shr,
}

pub data PlsMode : Type 0 where
  root gold combo : PlsMode

pub record Mis : Type 0 where
  pub mode : PlsMode
  pub code : ℕ
  pub stream_id : ℕ

abbrev pub pls_code_mask : ℕ
pls_code_mask = 0x3FFFF

-- `(((x ^ (x >> 7)) & 1) << 17) | (x >> 1)`
pub pls_step : ℕ → ℕ
pls_step x = bit_or (shl (bit_and (bit_xor x (shr x 7)) 1) 17) (shr x 1)

-- The loop, with the rounds left, `g` and `x`.
pub pls_search : ℕ → ℕ → ℕ → ℕ → ℕ
pls_search zero g x code = pls_code_mask
pls_search (suc rounds) g x code = elim (code == x) [
  | true ↦ g
  | false ↦ pls_search rounds (suc g) (pls_step x) code
]

-- What is returned for the masked code.
masked_code : PlsMode → ℕ → Option ℕ
masked_code gold code = some code
masked_code combo code = some code
masked_code root code = if code == 0 then none else some (pls_search pls_code_mask 0 1 code)

pub pls_code : Mis → Option ℕ
unfolding masked_code
pls_code m = masked_code m.mode (bit_and m.code pls_code_mask)
