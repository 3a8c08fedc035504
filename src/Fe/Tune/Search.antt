-- ===== src/Fe/Tune/Search.antt =====
-- The search for a root code among the states of the shift register.
use libdvb.Prelude.{
  ℕ, zero, suc, ◌+◌, ◌*◌, ◌/◌, ◌%◌, ◌<◌, ◌≤◌, ◌≡◌, ◌≢◌, refl, sym, ap, ◌∙◌, ◌⊎◌, inl, inr, arith,
  Bool-cases, List, [], ◌∷◌, All, some, ◌==◌, ==→eq, ne→==, bit_and, shr,
}
use mathlib.Core.Path.{subst}
use libdvb.Prelude.Bits.{bit_and-bit_xor, bit_or_disjoint, bit_and_low}
use libdvb.Fe.Tune.{root, Mis, pls_code_mask, pls_step, pls_search, pls_code}

-- The state of the register of 18 bits after `n` steps (EN 302 307, 5.5.4: `1 + x^7 + x^18`). A step
-- drops the lowest bit, and its sum with the bit seven places above is the new highest bit.
unfoldable pub register : ℕ → ℕ
register zero = 1
register (suc n) = (register n + register n / 128) % 2 * 131072 + register n / 2

-- The states before step `n`, the last one first.
unfoldable pub states_before : ℕ → List ℕ
states_before zero = []
states_before (suc n) = register n ∷ states_before n

register_bound : (n : ℕ) → register n < 262144
unfolding register
register_bound zero = omega arith
register_bound (suc n) = omega (arith, register_bound n)

-- The source's step is the register's.
pls_step-register : (n : ℕ) → pls_step (register n) ≡ register (suc n)
unfolding pls_step register
pls_step-register n = ground (
  arith,
  register_bound n,
  bit_and-bit_xor (register n) (shr (register n) 7),
  bit_or_disjoint 17 ((register n + register n / 128) % 2) (register n / 2),
)

-- Every state before step `n` is another than `code`.
abbrev pub Missed : ℕ → ℕ → Type 0
Missed code n = All (λ state. state ≢ code) (states_before n)

Missed-suc : (code n : ℕ) → Missed code n → register n ≢ code → Missed code (suc n)
unfolding states_before
Missed-suc code n before other = (other, before)

-- `g` is the first index whose state is `code`, or the largest one if no state before is.
record Leads (code g : ℕ) : Type 0 where
  bound : g ≤ pls_code_mask
  missed : Missed code g
  ends : (register g ≡ code) ⊎ (g ≡ pls_code_mask)

pls_search-Leads :
    (rounds g x code : ℕ)
    → rounds + g ≡ pls_code_mask
    → x ≡ register g
    → Missed code g
    → Leads code (pls_search rounds g x code)
unfolding pls_search
pls_search-Leads zero g x code e s before = record {
  bound = omega arith;
  missed = let last : g ≡ pls_code_mask = omega arith in subst (Missed code) last before;
  ends = inr refl;
}
pls_search-Leads (suc rounds) g x code e s before = elim (Bool-cases (code == x)) [
  | inl found ↦
      rw (found, pls_search)
        (record {
          bound = omega arith;
          missed = before;
          ends = inl (sym s ∙ sym (==→eq code x found));
        })
  | inr other ↦
      let differs : register g ≢ code = λ same. ground (arith, s, same) in
      rw (other, pls_search)
        (pls_search-Leads rounds (suc g) (pls_step x) code (omega arith)
          (ap pls_step s ∙ pls_step-register g) (Missed-suc code g before differs))
]

start-Leads : (code : ℕ) → Leads code (pls_search pls_code_mask 0 1 code)
unfolding register states_before
start-Leads code = pls_search-Leads pls_code_mask 0 1 code (omega arith) refl tt

-- For the `Root` mode and a code that is not zero in its 18 bits, `pls_code` returns the number of
-- steps that lead the shift register from 1 to the code for the first time, or the largest number of
-- 18 bits if none of the states before leads there.
pub pls_code-register :
    (m : Mis)
    → m.mode ≡ root
    → m.code % 262144 ≢ 0
    → (g : ℕ) × (pls_code m ≡ some g)
      × (g ≤ 262143)
      × All (λ state. state ≢ m.code % 262144) (states_before g)
      × ((register g ≡ m.code % 262144) ⊎ (g ≡ 262143))
unfolding pls_code
pls_code-register m e h =
    let code = m.code % 262144 in
    let low : bit_and m.code pls_code_mask ≡ code = bit_and_low 18 m.code in
    let leads = start-Leads code in
    (
      pls_search pls_code_mask 0 1 code,
      rw (e, low, ne→== code 0 h) refl,
      leads.bound,
      leads.missed,
      leads.ends,
    )
