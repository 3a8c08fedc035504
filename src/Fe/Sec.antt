-- ===== src/Fe/Sec.antt =====
-- src/fe/sec.rs: satellite equipment control. A `Duration` is a number of nanoseconds, a text is the
-- list of its bytes. `*` on `u32` wraps, as it does in a release build.
mod Tests
pub mod Dsl
pub mod Bands
pub mod Switch
pub mod Unicable
use libdvb.Prelude.{
  ℕ, ◌+◌, ◌-◌, ◌*◌, ◌/◌, Bool, true, false, ◌&&◌, List, [], ◌∷◌, ◌++◌, ltb, leb, ◌==◌,
  if◌then◌else◌, u8, u32, shl, shr, bit_or, bit_and, Option, none, some, Result, ok, err, panic,
  ◌>>=◌, ◌>>◌, guard, ok_or, invalid_data,
}
use mathlib.Core.Option
use libdvb.Fe.Sec.Dsl.{
  SecCommand, set_tone, set_voltage, send_burst, send_master_command, wait, SecTone, tone_on,
  tone_off, SecVoltage, v13, v18, voltage_off, SecMiniCmd, Duration, from_millis,
  parse_sec_sequence,
}

pub data Lnb : Type 0 where
  passthrough : Lnb
  single : (lof_mhz : ℕ) → Lnb
  universal : (lof_low_mhz lof_high_mhz switch_mhz : ℕ) → Lnb
  c_band : (lof_mhz : ℕ) → Lnb

-- `checked_sub`, `checked_add` on `u32`.
abbrev pub checked_sub : ℕ → ℕ → Option ℕ
checked_sub a b = if leb b a then some (a - b) else none

abbrev pub checked_add : ℕ → ℕ → Option ℕ
checked_add a b = if ltb (a + b) 4294967296 then some (a + b) else none

lnb_offset : ℕ → ℕ → Result ℕ
lnb_offset from_mhz subtract_mhz = ok_or (checked_sub from_mhz subtract_mhz) invalid_data

abbrev pub between : ℕ → ℕ → ℕ → Bool
between lo hi n = leb lo n && leb n hi

-- `Lnb::auto`
pub auto_lnb : ℕ → Option Lnb
auto_lnb transponder_mhz =
    if between 950 2150 transponder_mhz
    then some passthrough
    else if between 2500 2700 transponder_mhz
    then some (c_band 3650)
    else if between 3400 4200 transponder_mhz
    then some (c_band 5150)
    else if between 4500 4800 transponder_mhz
    then some (c_band 5750)
    else if leb 10700 transponder_mhz && ltb transponder_mhz 13250
    then some (universal 9750 10600 11700)
    else none

pub intermediate : Lnb → ℕ → Result (ℕ × SecTone)
unfolding lnb_offset
intermediate passthrough transponder_mhz = ok (transponder_mhz, tone_off)
intermediate (single lof_mhz) transponder_mhz = do
  offset ← lnb_offset transponder_mhz lof_mhz
  ok (offset, tone_off)
intermediate (universal lof_low_mhz lof_high_mhz switch_mhz) transponder_mhz =
    if leb switch_mhz transponder_mhz
    then (do offset ← lnb_offset transponder_mhz lof_high_mhz; ok (offset, tone_on))
    else (do offset ← lnb_offset transponder_mhz lof_low_mhz; ok (offset, tone_off))
intermediate (c_band lof_mhz) transponder_mhz = do
  offset ← lnb_offset lof_mhz transponder_mhz
  ok (offset, tone_off)

pub record DiseqcSwitchConfig : Type 0 where
  pub port : ℕ
  pub voltage : SecVoltage

pub record ToneburstConfig : Type 0 where
  pub burst : SecMiniCmd
  pub voltage : SecVoltage

pub record UnicableConfig : Type 0 where
  pub slot : ℕ
  pub user_band_frequency_mhz : ℕ
  pub position : ℕ
  pub voltage : SecVoltage
  pub pin : Option ℕ

pub record SecTimings : Type 0 where
  pub switch_settle : Duration
  pub message_gap : Duration
  pub unicable_settle : Duration
  pub unicable_hold : Duration
  pub lnb_settle : Duration

-- `SecTimings::default`
abbrev pub default_timings : SecTimings
default_timings = record {
  switch_settle = from_millis 200;
  message_gap = from_millis 15;
  unicable_settle = from_millis 5;
  unicable_hold = from_millis 50;
  lnb_settle = from_millis 100;
}

pub data SecConfig : Type 0 where
  lnb : (voltage : SecVoltage) → SecConfig
  shared : SecConfig
  switch1_0 : DiseqcSwitchConfig → SecConfig
  switch1_1 : DiseqcSwitchConfig → SecConfig
  toneburst : ToneburstConfig → SecConfig
  unicable1 : UnicableConfig → SecConfig
  unicable2 : UnicableConfig → SecConfig
  dsl : (input : List ℕ) → SecConfig

pub record SecSetup : Type 0 where
  pub frontend_frequency_khz : ℕ
  pub sec_sequence : List SecCommand

pub sec_setup : ℕ → List SecCommand → SecSetup
sec_setup frequency_mhz commands = record {
  frontend_frequency_khz = u32 (frequency_mhz * 1000);
  sec_sequence = commands;
}

abbrev pub sec_voltage_bit : SecVoltage → ℕ → ℕ
sec_voltage_bit v18 b = b
sec_voltage_bit v13 b = 0
sec_voltage_bit voltage_off b = 0

abbrev pub sec_tone_bit : SecTone → ℕ → ℕ
sec_tone_bit tone_on b = b
sec_tone_bit tone_off b = 0

lnb_sequence : ℕ → SecVoltage → SecTone → SecTimings → SecSetup
unfolding sec_setup
lnb_sequence frequency_mhz voltage band timings = sec_setup frequency_mhz (
    set_tone tone_off
    ∷ set_voltage voltage
    ∷ wait timings.lnb_settle
    ∷ set_tone band
    ∷ wait timings.lnb_settle
    ∷ [])

pub controlled_master_sequence : SecVoltage → SecTone → List ℕ → SecTimings → List SecCommand
controlled_master_sequence voltage tone msg timings =
    set_tone tone_off
    ∷ set_voltage voltage
    ∷ wait timings.switch_settle
    ∷ send_master_command msg
    ∷ wait timings.message_gap
    ∷ set_tone tone
    ∷ []

pub diseqc_1_0_sequence : ℕ → DiseqcSwitchConfig → SecTone → SecTimings → Result SecSetup
unfolding sec_setup controlled_master_sequence
diseqc_1_0_sequence frequency_mhz config band timings = do
  guard (between 1 4 config.port) invalid_data
  let port = config.port - 1
  let control =
      bit_or (bit_or (bit_or 0xF0 (u8 (shl port 2))) (sec_voltage_bit config.voltage 0x02))
        (sec_tone_bit band 0x01)
  ok (
      sec_setup frequency_mhz (
        controlled_master_sequence config.voltage band (0xE0 ∷ 0x10 ∷ 0x38 ∷ control ∷ []) timings))

pub diseqc_1_1_sequence : ℕ → DiseqcSwitchConfig → SecTone → SecTimings → Result SecSetup
unfolding sec_setup controlled_master_sequence
diseqc_1_1_sequence frequency_mhz config band timings = do
  guard (between 1 16 config.port) invalid_data
  let port = config.port - 1
  let control = bit_or 0xF0 port
  ok (
      sec_setup frequency_mhz (
        controlled_master_sequence config.voltage band (0xE0 ∷ 0x10 ∷ 0x39 ∷ control ∷ []) timings))

toneburst_sequence : ℕ → ToneburstConfig → SecTone → SecTimings → SecSetup
unfolding sec_setup
toneburst_sequence frequency_mhz config band timings = sec_setup frequency_mhz (
    set_tone tone_off
    ∷ set_voltage config.voltage
    ∷ wait timings.message_gap
    ∷ send_burst config.burst
    ∷ wait timings.message_gap
    ∷ set_tone band
    ∷ [])

pub unicable_tune : ℕ → List ℕ → SecTimings → SecSetup
unfolding sec_setup
unicable_tune frequency_mhz msg timings = sec_setup frequency_mhz (
    set_voltage v13
    ∷ set_tone tone_off
    ∷ wait timings.unicable_settle
    ∷ set_voltage v18
    ∷ wait timings.message_gap
    ∷ send_master_command msg
    ∷ wait timings.unicable_hold
    ∷ set_voltage v13
    ∷ [])

-- The chain of checked operations on `x` in `unicable_1_sequence`.
unicable_1_word : ℕ → ℕ → Option ℕ
unicable_1_word frequency_mhz user_band_mhz = elim (checked_add frequency_mhz user_band_mhz) [
  | none ↦ none
  | some v ↦ elim (checked_add v 2) [ none ↦ none | some v' ↦ checked_sub (v' / 4) 350 ]
]

pub unicable_1_sequence : ℕ → UnicableConfig → SecTone → SecTimings → Result SecSetup
unfolding unicable_tune unicable_1_word
unicable_1_sequence frequency_mhz config band timings = do
  guard (between 1 8 config.slot) invalid_data
  guard (leb config.position 1) invalid_data
  x ← ok_or (unicable_1_word frequency_mhz config.user_band_frequency_mhz) invalid_data
  guard (leb x 0x03FF) invalid_data
  let b1 =
      bit_or
        (bit_or
          (bit_or (bit_or (u8 (shl (config.slot - 1) 5)) (u8 (shl config.position 4)))
            (sec_voltage_bit config.voltage 0x08))
          (sec_tone_bit band 0x04))
        (bit_and (u8 (shr x 8)) 0x03)
  let b2 = u8 x
  ok (unicable_tune config.user_band_frequency_mhz (0xE0 ∷ 0x10 ∷ 0x5A ∷ b1 ∷ b2 ∷ []) timings)

-- The message of `unicable_2_sequence`, with a PIN or without.
abbrev pub unicable_2_message : Option ℕ → ℕ → ℕ → ℕ → List ℕ
unicable_2_message none b1 b2 b3 = 0x70 ∷ b1 ∷ b2 ∷ b3 ∷ []
unicable_2_message (some pin) b1 b2 b3 = 0x71 ∷ b1 ∷ b2 ∷ b3 ∷ pin ∷ []

pub unicable_2_sequence : ℕ → UnicableConfig → SecTone → SecTimings → Result SecSetup
unfolding unicable_tune
unicable_2_sequence frequency_mhz config band timings = do
  guard (between 1 32 config.slot) invalid_data
  guard (leb config.position 63) invalid_data
  x ← ok_or (checked_sub frequency_mhz 100) invalid_data
  guard (leb x 0x07FF) invalid_data
  let b1 = bit_or (u8 (shl (config.slot - 1) 3)) (bit_and (u8 (shr x 8)) 0x07)
  let b2 = u8 x
  let b3 =
      bit_or (bit_or (u8 (shl config.position 2)) (sec_voltage_bit config.voltage 0x02))
        (sec_tone_bit band 0x01)
  ok (unicable_tune config.user_band_frequency_mhz (unicable_2_message config.pin b1 b2 b3) timings)

-- The `match` on the configuration, with the intermediate frequency and the band tone.
configured : ℕ → SecTone → SecConfig → SecTimings → Result SecSetup
unfolding sec_setup lnb_sequence toneburst_sequence
configured frequency_mhz band (lnb voltage) timings =
    ok (lnb_sequence frequency_mhz voltage band timings)
configured frequency_mhz band shared timings =
    ok (sec_setup frequency_mhz (set_tone tone_off ∷ set_voltage voltage_off ∷ []))
configured frequency_mhz band (switch1_0 config) timings =
    diseqc_1_0_sequence frequency_mhz config band timings
configured frequency_mhz band (switch1_1 config) timings =
    diseqc_1_1_sequence frequency_mhz config band timings
configured frequency_mhz band (toneburst config) timings =
    ok (toneburst_sequence frequency_mhz config band timings)
configured frequency_mhz band (unicable1 config) timings =
    unicable_1_sequence frequency_mhz config band timings
configured frequency_mhz band (unicable2 config) timings =
    unicable_2_sequence frequency_mhz config band timings
configured frequency_mhz band (dsl input) timings = do
  commands ← parse_sec_sequence input
  ok (sec_setup frequency_mhz commands)

pub sec_sequence : ℕ → Lnb → SecConfig → SecTimings → Result SecSetup
unfolding configured
sec_sequence transponder_mhz l config timings = do
  (frequency_mhz, band) ← intermediate l transponder_mhz
  configured frequency_mhz band config timings
