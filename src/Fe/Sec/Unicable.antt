-- ===== src/Fe/Sec/Unicable.antt =====
-- The messages of the two Unicable commands, field by field.
use libdvb.Prelude.{
  ℕ, ◌+◌, ◌-◌, ◌*◌, ◌/◌, ◌%◌, ◌≤◌, ◌<◌, ◌≡◌, arith, [], ◌∷◌, bit_or, bit_and, shl, shr, u8, ok,
  some, none, ◌⊎◌, inl, inr, refl, ap, ◌∙◌, List, Option, u32,
}
use libdvb.Prelude.Bits.{bit_or_disjoint, bit_and_low}
use libdvb.Fe.Sec.Dsl.{
  SecTone, tone_on, tone_off, SecVoltage, v13, v18, voltage_off, set_tone, set_voltage,
  send_master_command, wait,
}
use libdvb.Fe.Sec.{
  sec_setup, SecTimings, UnicableConfig, unicable_1_sequence, unicable_2_sequence, unicable_tune,
  sec_voltage_bit, sec_tone_bit, unicable_2_message, unicable_1_word,
}

or_fields_1 :
    (s p v t x : ℕ)
    → s < 8
    → p < 2
    → v < 2
    → t < 2
    → x < 1024
    → bit_or
        (bit_or (bit_or (bit_or (u8 (shl s 5)) (u8 (shl p 4))) (v * 8)) (t * 4))
        (bit_and (u8 (shr x 8)) 0x03)
      ≡ s * 32 + p * 16 + v * 8 + t * 4 + x / 256
or_fields_1 s p v t x hs hp hv ht hx = ground (
  arith,
  bit_or_disjoint 5 s (p * 16),
  bit_or_disjoint 4 (s * 2 + p) (v * 8),
  bit_or_disjoint 3 (s * 4 + p * 2 + v) (t * 4),
  bit_or_disjoint 2 (s * 8 + p * 4 + v * 2 + t) (x / 256),
  bit_and_low 2 (u8 (shr x 8)),
)

unicable_1_word_lem :
    (f u : ℕ) → 1398 ≤ f + u → f + u ≤ 5493 → unicable_1_word f u ≡ some ((f + u + 2) / 4 - 350)
unfolding unicable_1_word
unicable_1_word_lem f u h₁ h₂ = ground arith

-- A Unicable I command for slot 1 to 8, position 0 or 1 and a sum of the transponder's intermediate
-- frequency and the user band's of 1398 to 5493 MHz is `E0 10 5A` and two bytes. They hold, from the
-- top: slot less one (3 bits), position, one bit for 18 V, one bit for the high band, and a ten bit
-- word `x`. `(x + 350) * 4`, the receiver's reading of it, is at most 2 MHz off the sum.
pub unicable_1_fields :
    (frequency_mhz : ℕ) (config : UnicableConfig) (band : SecTone) (timings : SecTimings)
    → 1 ≤ config.slot
    → config.slot ≤ 8
    → config.position ≤ 1
    → 1398 ≤ frequency_mhz + config.user_band_frequency_mhz
    → frequency_mhz + config.user_band_frequency_mhz ≤ 5493
    → (b1 b2 : ℕ) × (unicable_1_sequence frequency_mhz config band timings
        ≡ ok (
            unicable_tune config.user_band_frequency_mhz
              (0xE0 ∷ 0x10 ∷ 0x5A ∷ b1 ∷ b2 ∷ [])
              timings))
      × (b1 / 32 + 1 ≡ config.slot)
      × (b1 / 16 % 2 ≡ config.position)
      × (b1 / 8 % 2 ≡ sec_voltage_bit config.voltage 1)
      × (b1 / 4 % 2 ≡ sec_tone_bit band 1)
      × (b2 < 256)
      × ((b1 % 4 * 256 + b2 + 350) * 4 ≤ frequency_mhz + config.user_band_frequency_mhz + 2)
      × (frequency_mhz + config.user_band_frequency_mhz ≤ (b1 % 4 * 256 + b2 + 350) * 4 + 2)
unfolding unicable_1_sequence
unicable_1_fields frequency_mhz config band timings h₁ h₂ h₃ h₄ h₅ =
    let s = config.slot - 1 in
    let x = (frequency_mhz + config.user_band_frequency_mhz + 2) / 4 - 350 in
    let v = sec_voltage_bit config.voltage 1 in
    let t = sec_tone_bit band 1 in
    let w = unicable_1_word_lem frequency_mhz config.user_band_frequency_mhz h₄ h₅ in
    let e = or_fields_1 s config.position v t x in
    (
      s * 32 + config.position * 16 + v * 8 + t * 4 + x / 256,
      x % 256,
      ground (arith, e, w),
      ground arith,
      ground arith,
      ground arith,
      ground arith,
      ground arith,
      ground arith,
      ground arith,
    )

or_slot_2 :
    (s x : ℕ)
    → s < 32
    → x < 2048
    → bit_or (u8 (shl s 3)) (bit_and (u8 (shr x 8)) 0x07) ≡ s * 8 + x / 256
or_slot_2 s x hs hx = ground (arith, bit_or_disjoint 3 s (x / 256), bit_and_low 3 (u8 (shr x 8)))

or_position_2 :
    (p v t : ℕ)
    → p < 64
    → v < 2
    → t < 2
    → bit_or (bit_or (u8 (shl p 2)) (v * 2)) t ≡ p * 4 + v * 2 + t
or_position_2 p v t hp hv ht =
    ground (arith, bit_or_disjoint 2 p (v * 2), bit_or_disjoint 1 (p * 2 + v) t)

-- The bit for 18 V, and the bit for the high band.
abbrev pub is_18v : SecVoltage → ℕ
is_18v v18 = 1
is_18v v13 = 0
is_18v voltage_off = 0

abbrev pub is_high : SecTone → ℕ
is_high tone_on = 1
is_high tone_off = 0

sec_voltage_bit-is_18v : (voltage : SecVoltage) → sec_voltage_bit voltage 1 ≡ is_18v voltage
sec_voltage_bit-is_18v v18 = refl
sec_voltage_bit-is_18v v13 = refl
sec_voltage_bit-is_18v voltage_off = refl

sec_tone_bit-is_high : (band : SecTone) → sec_tone_bit band 1 ≡ is_high band
sec_tone_bit-is_high tone_on = refl
sec_tone_bit-is_high tone_off = refl

-- What a Unicable II message begins and ends with: its tag, and the PIN if there is one.
abbrev pub IsFramed : Option ℕ → ℕ → List ℕ → Type 0
IsFramed pin tag after =
    ((pin ≡ none) × (tag ≡ 0x70) × (after ≡ []))
    ⊎ ((code : ℕ) × (pin ≡ some code) × (tag ≡ 0x71) × (after ≡ code ∷ []))

message_2-IsFramed :
    (pin : Option ℕ) (b1 b2 b3 : ℕ)
    → (tag : ℕ) × (after : List ℕ) × (unicable_2_message pin b1 b2 b3 ≡ tag ∷ b1 ∷ b2 ∷ b3 ∷ after)
      × IsFramed pin tag after
message_2-IsFramed none b1 b2 b3 = (0x70, [], refl, inl (refl, refl, refl))
message_2-IsFramed (some code) b1 b2 b3 = (0x71, code ∷ [], refl, inr (code, refl, refl, refl))

sequence_2_lem :
    (frequency_mhz : ℕ) (config : UnicableConfig) (band : SecTone) (timings : SecTimings)
    → 1 ≤ config.slot
    → config.slot ≤ 32
    → config.position ≤ 63
    → 100 ≤ frequency_mhz
    → frequency_mhz ≤ 2147
    → unicable_2_sequence frequency_mhz config band timings
      ≡ ok (
          unicable_tune config.user_band_frequency_mhz
            (unicable_2_message config.pin
              ((config.slot - 1) * 8 + (frequency_mhz - 100) / 256)
              ((frequency_mhz - 100) % 256)
              (config.position * 4 + sec_voltage_bit config.voltage 1 * 2 + sec_tone_bit band 1))
            timings)
unfolding unicable_2_sequence
sequence_2_lem frequency_mhz config band timings h₁ h₂ h₃ h₄ h₅ =
    let v = sec_voltage_bit config.voltage 1 in
    let t = sec_tone_bit band 1 in
    let e = or_slot_2 (config.slot - 1) (frequency_mhz - 100) in
    let e' = or_position_2 config.position v t in ground (arith, e, e')

-- A Unicable II command for slot 1 to 32, position 0 to 63 and an intermediate frequency of 100 to
-- 2147 MHz is sent at 18 V between two times of 13 V, with the band tone off. Its message is a tag,
-- three bytes and the PIN: the tag is `70` without a PIN and `71` with one, which ends the message.
-- The three bytes hold, from the top: slot less one (5 bits), the frequency less 100 (11 bits), the
-- position (6 bits), one bit for 18 V and one bit for the high band.
pub unicable_2_fields :
    (frequency_mhz : ℕ) (config : UnicableConfig) (band : SecTone) (timings : SecTimings)
    → 1 ≤ config.slot
    → config.slot ≤ 32
    → config.position ≤ 63
    → 100 ≤ frequency_mhz
    → frequency_mhz ≤ 2147
    → (tag b1 b2 b3 : ℕ) × (after : List ℕ) × (unicable_2_sequence frequency_mhz config band timings
        ≡ ok (record {
          frontend_frequency_khz = u32 (config.user_band_frequency_mhz * 1000);
          sec_sequence =
              set_voltage v13
              ∷ set_tone tone_off
              ∷ wait timings.unicable_settle
              ∷ set_voltage v18
              ∷ wait timings.message_gap
              ∷ send_master_command (tag ∷ b1 ∷ b2 ∷ b3 ∷ after)
              ∷ wait timings.unicable_hold
              ∷ set_voltage v13
              ∷ [];
        }))
      × IsFramed config.pin tag after
      × (b1 / 8 + 1 ≡ config.slot)
      × (b2 < 256)
      × (b1 % 8 * 256 + b2 + 100 ≡ frequency_mhz)
      × (b3 / 4 ≡ config.position)
      × (b3 / 2 % 2 ≡ is_18v config.voltage)
      × (b3 % 2 ≡ is_high band)
unfolding unicable_tune sec_setup
unicable_2_fields frequency_mhz config band timings h₁ h₂ h₃ h₄ h₅ =
    let b1 = (config.slot - 1) * 8 + (frequency_mhz - 100) / 256 in
    let b2 = (frequency_mhz - 100) % 256 in
    let b3 = config.position * 4 + sec_voltage_bit config.voltage 1 * 2 + sec_tone_bit band 1 in
    let (tag, after, framed, ends) = message_2-IsFramed config.pin b1 b2 b3 in
    let e = sequence_2_lem frequency_mhz config band timings h₁ h₂ h₃ h₄ h₅ in
    (
      tag,
      b1,
      b2,
      b3,
      after,
      e ∙ ap (λ (m : List ℕ). ok (unicable_tune config.user_band_frequency_mhz m timings)) framed,
      ends,
      ground arith,
      ground arith,
      ground arith,
      ground arith,
      ground (arith, sec_voltage_bit-is_18v config.voltage),
      ground (arith, sec_tone_bit-is_high band),
    )
