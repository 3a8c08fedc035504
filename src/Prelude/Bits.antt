-- ===== src/Prelude/Bits.antt =====
-- `|` of fields that do not overlap is a sum, and `&` with a mask of low bits is a remainder.
use libdvb.Prelude.Tests.{◌==◌, ==→eq, shl}
use Prim.Native.Nat.{
  ℕ, zero, suc, ◌+◌, ◌-◌, ◌*◌, ◌/◌, ◌%◌, ◌^◌, ◌≤◌, ◌<◌, min, max, bit_and, bit_or, digits, bit_xor,
  bit_and-bitwise, bit_or-bitwise, bit_xor-bitwise, differ,
}
use mathlib.Core.Path.{◌≡◌, refl, ap, ◌∙◌}
use mathlib.Core.Bool.{Bool, true, ◌&&◌}
use native.Mathlib.Nat.{pow-suc, one-le-pow}
use native.Mathlib.Omega.{arith}

-- The recursion on binary digits gives the same number on any fuel that is enough.
enough_fuel :
    (z : ℕ → ℕ) (f : ℕ → ℕ → ℕ) (n m a b : ℕ) → a ≤ n → a ≤ m → digits z f n a b ≡ digits z f m a b
enough_fuel z f zero zero a b p q = refl
enough_fuel z f zero (suc m) zero b p q = refl
enough_fuel z f (suc n) zero zero b p q = refl
enough_fuel z f (suc n) (suc m) zero b p q = refl
enough_fuel z f zero m (suc a) b p q = absurd (omega arith)
enough_fuel z f (suc n) zero (suc a) b p q = absurd (omega arith)
enough_fuel z f (suc n) (suc m) (suc a) b p q =
    omega (arith, enough_fuel z f n m (suc a / 2) (b / 2) (omega arith) (omega arith))

or_step : (x y : ℕ) → bit_or x y ≡ max (x % 2) (y % 2) + 2 * bit_or (x / 2) (y / 2)
or_step zero y = omega (arith, bit_or-bitwise 0 y, bit_or-bitwise 0 (y / 2))
or_step (suc x) y =
    let half = suc x / 2 in
    let fuel = enough_fuel (λ d. d) max x half half (y / 2) (omega arith) (omega arith) in
    omega (arith, fuel, bit_or-bitwise half (y / 2), bit_or-bitwise (suc x) y)

and_step : (x y : ℕ) → bit_and x y ≡ min (x % 2) (y % 2) + 2 * bit_and (x / 2) (y / 2)
and_step zero y = omega (arith, bit_and-bitwise 0 y, bit_and-bitwise 0 (y / 2))
and_step (suc x) y =
    let half = suc x / 2 in
    let fuel = enough_fuel (λ d. 0) min x half half (y / 2) (omega arith) (omega arith) in
    omega (arith, fuel, bit_and-bitwise half (y / 2), bit_and-bitwise (suc x) y)

or_zero_below : (n a : ℕ) → a ≤ n → bit_or a 0 ≡ a
or_zero_below n zero h = refl
or_zero_below zero (suc a) h = absurd (omega arith)
or_zero_below (suc n) (suc a) h =
    omega (arith, or_step (suc a) 0, or_zero_below n (suc a / 2) (omega arith))

and_zero_below : (n a : ℕ) → a ≤ n → bit_and a 0 ≡ 0
and_zero_below n zero h = refl
and_zero_below zero (suc a) h = absurd (omega arith)
and_zero_below (suc n) (suc a) h =
    omega (arith, and_step (suc a) 0, and_zero_below n (suc a / 2) (omega arith))

double_pow : (q k : ℕ) → q * 2 ^ suc k ≡ q * 2 ^ k * 2
double_pow q k = omega (arith, ap (λ (t : ℕ). q * t) (pow-suc 2 k))

-- `(hi << k) | lo` where `lo` has at most `k` bits.
pub bit_or_disjoint : (k hi lo : ℕ) → lo < 2 ^ k → bit_or (hi * 2 ^ k) lo ≡ hi * 2 ^ k + lo
bit_or_disjoint zero hi lo h = ground (arith, or_zero_below hi hi)
bit_or_disjoint (suc k) hi lo h = ground (
  arith,
  or_step (hi * 2 ^ suc k) lo,
  double_pow hi k,
  pow-suc 2 k,
  bit_or_disjoint k hi (lo / 2),
)

low_part : (k hi lo : ℕ) → lo < 2 ^ k → bit_and (hi * 2 ^ k + lo) (2 ^ k - 1) ≡ lo
low_part zero hi lo h = ground (arith, and_zero_below (hi * 1 + lo) (hi * 1 + lo))
low_part (suc k) hi lo h = ground (
  arith,
  and_step (hi * 2 ^ suc k + lo) (2 ^ suc k - 1),
  double_pow hi k,
  pow-suc 2 k,
  low_part k hi (lo / 2),
)

-- `a & (2^k - 1)`
pub bit_and_low : (k a : ℕ) → bit_and a (2 ^ k - 1) ≡ a % 2 ^ k
bit_and_low k a = ground (arith, one-le-pow k 2, low_part k (a / 2 ^ k) (a % 2 ^ k))

differ_lem : (x y : ℕ) → x < 2 → y < 2 → differ x y ≡ (x + y) % 2
differ_lem zero y hx hy = omega arith
differ_lem (suc zero) zero hx hy = refl
differ_lem (suc zero) (suc zero) hx hy = refl
differ_lem (suc zero) (suc (suc y)) hx hy = absurd (omega arith)
differ_lem (suc (suc x)) y hx hy = absurd (omega arith)

bit_xor_parity : (a b : ℕ) → bit_xor a b % 2 ≡ (a + b) % 2
bit_xor_parity zero b = omega (arith, bit_xor-bitwise 0 b)
bit_xor_parity (suc a) b =
    omega
      (arith, bit_xor-bitwise (suc a) b, differ_lem (suc a % 2) (b % 2) (omega arith) (omega arith))

-- `(a ^ b) & 1`
pub bit_and-bit_xor : (a b : ℕ) → bit_and (bit_xor a b) 1 ≡ (a + b) % 2
bit_and-bit_xor a b = bit_and_low 1 (bit_xor a b) ∙ bit_xor_parity a b

-- A test on every number below a bound.
up_to : (test : ℕ → Bool) (bound : ℕ) → Bool
up_to test (suc last) = up_to test last && test last
up_to test zero = true

up_to_lem : (test : ℕ → Bool) (bound b : ℕ) → b < bound → up_to test bound ≡ true → test b ≡ true
unfolding up_to
up_to_lem test (suc last) b less h = ground (arith, up_to_lem test last b)
up_to_lem test zero b less h = absurd (omega arith)

top_bit_table : up_to (λ b. bit_and b 0x80 == b / 128 * 128) 256 ≡ true
unfolding up_to
top_bit_table = refl

-- `b & 0x80` on a byte.
pub bit_and_top : (b : ℕ) → b < 256 → bit_and b 0x80 ≡ b / 128 * 128
bit_and_top b h = ==→eq _ _ (up_to_lem _ 256 b h top_bit_table)

version_table : up_to (λ v. bit_or 0xC1 (v * 2) == 0xC1 + v * 2) 32 ≡ true
unfolding up_to
version_table = refl

-- `0xC1 | (v << 1)` on five bits.
pub bit_or_version : (v : ℕ) → v < 32 → bit_or 0xC1 (v * 2) ≡ 0xC1 + v * 2
bit_or_version v h = ==→eq _ _ (up_to_lem _ 32 v h version_table)

-- `(u16::from(a) << 8) | u16::from(b)`
abbrev pub be16 : ℕ → ℕ → ℕ
be16 a b = bit_or (shl a 8) b

-- `(u32::from(a) << 16) | (u32::from(b) << 8) | u32::from(c)`
abbrev pub be24 : ℕ → ℕ → ℕ → ℕ
be24 a b c = bit_or (bit_or (shl a 16) (shl b 8)) c

-- The same with four bytes.
abbrev pub be32 : ℕ → ℕ → ℕ → ℕ → ℕ
be32 a b c d = bit_or (bit_or (bit_or (shl a 24) (shl b 16)) (shl c 8)) d

pub be16_lem : (a b : ℕ) → b < 256 → be16 a b ≡ a * 256 + b
be16_lem a b h = bit_or_disjoint 8 a b h

pub be24_lem : (a b c : ℕ) → b < 256 → c < 256 → be24 a b c ≡ a * 65536 + b * 256 + c
be24_lem a b c hb hc =
    ground (arith, bit_or_disjoint 16 a (shl b 8), bit_or_disjoint 8 (a * 256 + b) c)

pub be32_lem :
    (a b c d : ℕ)
    → b < 256
    → c < 256
    → d < 256
    → be32 a b c d ≡ a * 16777216 + b * 65536 + c * 256 + d
be32_lem a b c d hb hc hd = ground (
  arith,
  bit_or_disjoint 24 a (shl b 16),
  bit_or_disjoint 16 (a * 256 + b) (shl c 8),
  bit_or_disjoint 8 (a * 65536 + b * 256 + c) d,
)
