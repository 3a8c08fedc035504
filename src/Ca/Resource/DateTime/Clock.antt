-- ===== src/Ca/Resource/DateTime/Clock.antt =====
-- What `date_time_body` tells of the time.
use libdvb.Prelude.{
  ℕ, ◌+◌, ◌-◌, ◌*◌, ◌/◌, ◌%◌, ◌<◌, ◌≡◌, arith, List, [], ◌∷◌, u8, IsByte, All, Option, none, some,
}
use libdvb.Prelude.Bits.{bit_or_disjoint}
use libdvb.Ca.Resource.DateTime.{bcd, date_time_body, mjd_unix_epoch}

-- The two decimal digits of a byte.
abbrev pub of_bcd : ℕ → ℕ
of_bcd b = b / 16 * 10 + b % 16

-- A module's reading of the object: the days since 1858, hours, minutes and seconds, as seconds since
-- 1970.
abbrev pub read_time : List ℕ → Option ℕ
read_time (a ∷ b ∷ h ∷ m ∷ s ∷ []) =
    some ((a * 256 + b - mjd_unix_epoch) * 86400 + of_bcd h * 3600 + of_bcd m * 60 + of_bcd s)
read_time bytes = none

bcd_lem : (value : ℕ) → value < 100 → bcd value ≡ value / 10 * 16 + value % 10
unfolding bcd
bcd_lem value h = ground (arith, bit_or_disjoint 4 (value / 10) (value % 10))

-- The time that a module reads in the object is the system's, up to the last day that 16 bits can
-- tell; each byte of the object is a byte.
pub read_time-date_time_body :
    (unix_time : ℕ)
    → unix_time < (65536 - mjd_unix_epoch) * 86400
    → (read_time (date_time_body unix_time) ≡ some unix_time)
      × All IsByte (date_time_body unix_time)
unfolding date_time_body
read_time-date_time_body unix_time h =
    let time = unix_time % 86400 in
    ground
      (arith, bcd_lem (u8 (time / 3600)), bcd_lem (u8 (time / 60 % 60)), bcd_lem (u8 (time % 60)))
