-- ===== src/Fe/Sec/Switch.antt =====
-- The message of a DiSEqC switch command, field by field.
use libdvb.Prelude.{ℕ, ◌+◌, ◌-◌, ◌*◌, ◌/◌, ◌%◌, ◌≤◌, ◌<◌, ◌≡◌, arith, [], ◌∷◌, bit_or, shl, u8, ok}
use libdvb.Prelude.Bits.{bit_or_disjoint}
use libdvb.Fe.Sec.Dsl.{SecTone}
use libdvb.Fe.Sec.{
  SecTimings, DiseqcSwitchConfig, diseqc_1_0_sequence, diseqc_1_1_sequence, sec_setup,
  controlled_master_sequence, sec_voltage_bit, sec_tone_bit,
}

or_port :
    (p w t : ℕ)
    → p < 4
    → w < 2
    → t < 2
    → bit_or (bit_or (bit_or 0xF0 (u8 (shl p 2))) (w * 2)) t ≡ 240 + p * 4 + w * 2 + t
or_port p w t hp hw ht = ground (
  arith,
  bit_or_disjoint 4 15 (p * 4),
  bit_or_disjoint 2 (60 + p) (w * 2),
  bit_or_disjoint 1 (120 + p * 2 + w) t,
)

-- A committed switch command for port 1 to 4 is `E0 10 38` and one byte: `1111` above two bits of
-- port number less one, one bit for 18 V, one bit for the tone.
pub diseqc_1_0_message :
    (frequency_mhz : ℕ) (config : DiseqcSwitchConfig) (band : SecTone) (timings : SecTimings)
    → 1 ≤ config.port
    → config.port ≤ 4
    → (control : ℕ) × (diseqc_1_0_sequence frequency_mhz config band timings
        ≡ ok (
            sec_setup frequency_mhz (
              controlled_master_sequence config.voltage band
                (0xE0 ∷ 0x10 ∷ 0x38 ∷ control ∷ [])
                timings)))
      × (control / 16 ≡ 15)
      × (control / 4 % 4 + 1 ≡ config.port)
      × (control / 2 % 2 ≡ sec_voltage_bit config.voltage 1)
      × (control % 2 ≡ sec_tone_bit band 1)
unfolding diseqc_1_0_sequence
diseqc_1_0_message frequency_mhz config band timings lo hi =
    let control =
      bit_or
        (bit_or (bit_or 0xF0 (u8 (shl (config.port - 1) 2))) (sec_voltage_bit config.voltage 2))
        (sec_tone_bit band 1) in
    let e = or_port (config.port - 1) (sec_voltage_bit config.voltage 1) (sec_tone_bit band 1) in
    (
      control,
      ground arith,
      ground (arith, e),
      ground (arith, e),
      ground (arith, e),
      ground (arith, e),
    )

-- An uncommitted switch command for port 1 to 16 is `E0 10 39` and one byte: `1111` above four bits
-- of port number less one. No other port gives a command.
pub diseqc_1_1_message :
    (frequency_mhz : ℕ) (config : DiseqcSwitchConfig) (band : SecTone) (timings : SecTimings)
    → 1 ≤ config.port
    → config.port ≤ 16
    → (control : ℕ) × (diseqc_1_1_sequence frequency_mhz config band timings
        ≡ ok (
            sec_setup frequency_mhz (
              controlled_master_sequence config.voltage band
                (0xE0 ∷ 0x10 ∷ 0x39 ∷ control ∷ [])
                timings)))
      × (control / 16 ≡ 15)
      × (control % 16 + 1 ≡ config.port)
unfolding diseqc_1_1_sequence
diseqc_1_1_message frequency_mhz config band timings lo hi =
    let control = bit_or 0xF0 (config.port - 1) in
    let e = bit_or_disjoint 4 15 (config.port - 1) in
    (control, ground arith, ground (arith, e), ground (arith, e))
