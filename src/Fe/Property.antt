-- ===== src/Fe/Property.antt =====
-- src/fe/mod.rs: typed properties and how they are given to the kernel.
use libdvb.Prelude.{ℕ, Bool, true, ◌&&◌, ◌||◌, List, [], ◌∷◌, ◌==◌, ltb}
use libdvb.Fe.Sec.Dsl.{SecVoltage, SecTone}
use libdvb.Fe.Sys.{
  Inversion, Pilot, Rolloff, GuardInterval, TransmitMode, Hierarchy, DeliverySystem, Modulation,
  Fec, inversion_code, pilot_code, rolloff_code, guard_interval_code, transmit_mode_code,
  hierarchy_code, delivery_system_code, modulation_code, fec_code, voltage_code, tone_code,
  dtv_frequency, dtv_modulation, dtv_bandwidth_hz, dtv_inversion, dtv_symbol_rate, dtv_inner_fec,
  dtv_voltage, dtv_tone, dtv_pilot, dtv_rolloff, dtv_delivery_system, dtv_code_rate_hp,
  dtv_code_rate_lp, dtv_guard_interval, dtv_transmission_mode, dtv_hierarchy, dtv_stream_id,
  dtv_scrambling_sequence_index, dtv_tune, dtv_clear,
}

pub data DtvProperty : Type 0 where
  frequency : (v : ℕ) → DtvProperty
  modulation : (v : Modulation) → DtvProperty
  bandwidth_hz : (v : ℕ) → DtvProperty
  inversion : (v : Inversion) → DtvProperty
  symbol_rate : (v : ℕ) → DtvProperty
  inner_fec : (v : Fec) → DtvProperty
  voltage : (v : SecVoltage) → DtvProperty
  tone : (v : SecTone) → DtvProperty
  pilot : (v : Pilot) → DtvProperty
  rolloff : (v : Rolloff) → DtvProperty
  delivery_system : (v : DeliverySystem) → DtvProperty
  code_rate_hp : (v : Fec) → DtvProperty
  code_rate_lp : (v : Fec) → DtvProperty
  guard_interval : (v : GuardInterval) → DtvProperty
  transmission_mode : (v : TransmitMode) → DtvProperty
  hierarchy : (v : Hierarchy) → DtvProperty
  stream_id : (v : ℕ) → DtvProperty
  scrambling_sequence_index : (v : ℕ) → DtvProperty
  tune clear : DtvProperty

-- `cmd` and the leading word of the data; the other bytes are zero.
pub record DtvPropertyRaw : Type 0 where
  pub cmd : ℕ
  pub data_word : ℕ

abbrev pub raw : ℕ → ℕ → DtvPropertyRaw
raw cmd data_word = record { cmd = cmd; data_word = data_word }

abbrev pub to_raw : DtvProperty → DtvPropertyRaw
to_raw (frequency v) = raw dtv_frequency v
to_raw (modulation v) = raw dtv_modulation (modulation_code v)
to_raw (bandwidth_hz v) = raw dtv_bandwidth_hz v
to_raw (inversion v) = raw dtv_inversion (inversion_code v)
to_raw (symbol_rate v) = raw dtv_symbol_rate v
to_raw (inner_fec v) = raw dtv_inner_fec (fec_code v)
to_raw (voltage v) = raw dtv_voltage (voltage_code v)
to_raw (tone v) = raw dtv_tone (tone_code v)
to_raw (pilot v) = raw dtv_pilot (pilot_code v)
to_raw (rolloff v) = raw dtv_rolloff (rolloff_code v)
to_raw (delivery_system v) = raw dtv_delivery_system (delivery_system_code v)
to_raw (code_rate_hp v) = raw dtv_code_rate_hp (fec_code v)
to_raw (code_rate_lp v) = raw dtv_code_rate_lp (fec_code v)
to_raw (guard_interval v) = raw dtv_guard_interval (guard_interval_code v)
to_raw (transmission_mode v) = raw dtv_transmission_mode (transmit_mode_code v)
to_raw (hierarchy v) = raw dtv_hierarchy (hierarchy_code v)
to_raw (stream_id v) = raw dtv_stream_id v
to_raw (scrambling_sequence_index v) = raw dtv_scrambling_sequence_index v
to_raw tune = raw dtv_tune 0
to_raw clear = raw dtv_clear 0

pub record ApiVersion : Type 0 where
  pub major : ℕ
  pub minor : ℕ

-- The derived order, against 5.11.
abbrev pub is_before_5_11 : ApiVersion → Bool
is_before_5_11 version = ltb version.major 5 || version.major == 5 && ltb version.minor 11

-- One round of the loop of `set_properties`; `before` tells an API older than 5.11, `rest` is what the
-- other rounds push.
abbrev pub push_raw : DtvProperty → (before : Bool) → List DtvPropertyRaw → List DtvPropertyRaw
push_raw (scrambling_sequence_index v) true rest = rest
push_raw p before rest = to_raw p ∷ rest

abbrev pub push_all : List DtvProperty → (before : Bool) → List DtvPropertyRaw
push_all [] before = []
push_all (p ∷ cmdseq) before = push_raw p before (push_all cmdseq before)

-- What `set_properties` hands to the kernel.
abbrev pub set_properties : ApiVersion → List DtvProperty → List DtvPropertyRaw
set_properties version cmdseq = push_all cmdseq (is_before_5_11 version)
