-- ===== src/Fe/Sec/Tests.antt =====
-- The theorems on satellite equipment control at some inputs.
use libdvb.Prelude.{
  ℕ, ◌+◌, ◌*◌, ◌/◌, ◌%◌, ◌≤◌, ◌<◌, ◌≡◌, refl, arith, [], ◌∷◌, none, some, ok, All, Yields, u32,
  List,
}
use libdvb.Fe.Sec.Dsl.{
  tone_on, tone_off, v13, v18, set_tone, set_voltage, send_master_command, wait, parse_sec_sequence,
}
use libdvb.Fe.Sec.Dsl.Valid.{IsSendable, parse_sec_sequence_total}
use libdvb.Fe.Sec.{
  DiseqcSwitchConfig, UnicableConfig, default_timings, sec_setup, controlled_master_sequence,
  diseqc_1_0_sequence, unicable_1_sequence, unicable_2_sequence, unicable_tune, auto_lnb,
  intermediate, universal,
}
use libdvb.Fe.Sec.Bands.{IsTuned, auto_lnb-intermediate}
use libdvb.Fe.Sec.Switch.{diseqc_1_0_message}
use libdvb.Fe.Sec.Unicable.{IsFramed, unicable_1_fields, unicable_2_fields}

auto_11778 : auto_lnb 11778 ≡ some (universal 9750 10600 11700)
unfolding auto_lnb
auto_11778 = refl

auto_lnb-intermediate_example : IsTuned 11778 (intermediate (universal 9750 10600 11700) 11778)
auto_lnb-intermediate_example = auto_lnb-intermediate 11778 (universal 9750 10600 11700) auto_11778

abbrev switch : DiseqcSwitchConfig
switch = record { port = 3; voltage = v18 }

diseqc_1_0_message_example :
    (control : ℕ) × (diseqc_1_0_sequence 1178 switch tone_on default_timings
      ≡ ok (
          sec_setup 1178 (
            controlled_master_sequence v18 tone_on
              (0xE0 ∷ 0x10 ∷ 0x38 ∷ control ∷ [])
              default_timings)))
    × (control / 16 ≡ 15)
    × (control / 4 % 4 + 1 ≡ 3)
    × (control / 2 % 2 ≡ 1)
    × (control % 2 ≡ 1)
diseqc_1_0_message_example =
    diseqc_1_0_message 1178 switch tone_on default_timings (omega arith) (omega arith)

abbrev user_band : UnicableConfig
user_band = record {
  slot = 2;
  user_band_frequency_mhz = 1420;
  position = 1;
  voltage = v13;
  pin = none;
}

unicable_1_fields_example :
    (b1 b2 : ℕ) × (unicable_1_sequence 1178 user_band tone_on default_timings
      ≡ ok (unicable_tune 1420 (0xE0 ∷ 0x10 ∷ 0x5A ∷ b1 ∷ b2 ∷ []) default_timings))
    × (b1 / 32 + 1 ≡ 2)
    × (b1 / 16 % 2 ≡ 1)
    × (b1 / 8 % 2 ≡ 0)
    × (b1 / 4 % 2 ≡ 1)
    × (b2 < 256)
    × ((b1 % 4 * 256 + b2 + 350) * 4 ≤ 1178 + 1420 + 2)
    × (1178 + 1420 ≤ (b1 % 4 * 256 + b2 + 350) * 4 + 2)
unicable_1_fields_example =
    unicable_1_fields 1178 user_band tone_on default_timings (omega arith) (omega arith)
      (omega arith) (omega arith) (omega arith)

unicable_2_fields_example :
    (tag b1 b2 b3 : ℕ) × (after : List ℕ) × (unicable_2_sequence 1178 user_band tone_on
        default_timings
      ≡ ok (record {
        frontend_frequency_khz = u32 (1420 * 1000);
        sec_sequence =
            set_voltage v13
            ∷ set_tone tone_off
            ∷ wait default_timings.unicable_settle
            ∷ set_voltage v18
            ∷ wait default_timings.message_gap
            ∷ send_master_command (tag ∷ b1 ∷ b2 ∷ b3 ∷ after)
            ∷ wait default_timings.unicable_hold
            ∷ set_voltage v13
            ∷ [];
      }))
    × IsFramed none tag after
    × (b1 / 8 + 1 ≡ 2)
    × (b2 < 256)
    × (b1 % 8 * 256 + b2 + 100 ≡ 1178)
    × (b3 / 4 ≡ 1)
    × (b3 / 2 % 2 ≡ 0)
    × (b3 % 2 ≡ 1)
unicable_2_fields_example =
    unicable_2_fields 1178 user_band tone_on default_timings (omega arith) (omega arith)
      (omega arith) (omega arith) (omega arith)

parse_sec_sequence_total_example :
    Yields (All IsSendable) (parse_sec_sequence (b't' ∷ b' ' ∷ b'W' ∷ b'5' ∷ []))
parse_sec_sequence_total_example = parse_sec_sequence_total (b't' ∷ b' ' ∷ b'W' ∷ b'5' ∷ [])
