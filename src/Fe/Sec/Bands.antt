-- ===== src/Fe/Sec/Bands.antt =====
-- The block converter: the intermediate frequency and the band.
use libdvb.Prelude.{ℕ, ◌≤◌, ◌<◌, ◌≡◌, arith, some, Result, ok, err, panic, ltb, if◌then◌else◌}
use libdvb.Fe.Sec.Dsl.{SecTone, tone_on, tone_off}
use libdvb.Fe.Sec.{Lnb, auto_lnb, intermediate}

-- An intermediate frequency in the receiver's range, and the band tone of the transponder.
abbrev pub IsTuned : ℕ → Result (ℕ × SecTone) → Type 0
IsTuned transponder_mhz (ok (frequency_mhz, band)) =
    (950 ≤ frequency_mhz)
    × (frequency_mhz < 2650)
    × (band ≡ (if ltb transponder_mhz 11700 then tone_off else tone_on))
IsTuned transponder_mhz (err e) = ⊥
IsTuned transponder_mhz panic = ⊥

-- The converter that `Lnb::auto` picks for a transponder frequency has an intermediate frequency for
-- it, of 950 MHz or more and below 2650 MHz, and the band tone is on exactly from 11700 MHz up.
pub auto_lnb-intermediate :
    (transponder_mhz : ℕ) (l : Lnb)
    → auto_lnb transponder_mhz ≡ some l
    → IsTuned transponder_mhz (intermediate l transponder_mhz)
unfolding auto_lnb intermediate
auto_lnb-intermediate transponder_mhz l h = ground arith
