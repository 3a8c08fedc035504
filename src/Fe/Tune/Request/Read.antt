-- ===== src/Fe/Tune/Request/Read.antt =====
-- What a frontend reads from the properties of src/fe/tune.rs.
use libdvb.Prelude.{
  ℕ, Bool, true, false, Option, none, some, List, [], ◌∷◌, ◌==◌, if◌then◌else◌, Result, ok, err,
  ◌>>=◌, ok_or, invalid_data,
}
use libdvb.Fe.Sys.{
  DeliverySystem, dvbs, dvbs2, dvbc_annex_a, dvbc_annex_b, dvbc_annex_c, dvbt, dvbt2, atsc, isdbt,
  dtv_tune, dtv_frequency, dtv_modulation, dtv_bandwidth_hz, dtv_inversion, dtv_symbol_rate,
  dtv_inner_fec, dtv_pilot, dtv_rolloff, dtv_delivery_system, dtv_code_rate_hp, dtv_code_rate_lp,
  dtv_guard_interval, dtv_transmission_mode, dtv_hierarchy, dtv_stream_id,
  dtv_scrambling_sequence_index, inversion_of, pilot_of, rolloff_of, guard_interval_of,
  transmit_mode_of, hierarchy_of, delivery_system_of, modulation_of, fec_of,
}
use libdvb.Fe.Property.{DtvPropertyRaw, ApiVersion, is_before_5_11}
use libdvb.Fe.Tune.{Mis, root, gold, pls_code}
use libdvb.Fe.Tune.Request.{
  DvbCAnnex, annex_a, annex_b, annex_c, TuneRequest, tune_dvb_s, tune_dvb_s2, tune_dvb_c,
  tune_dvb_t, tune_dvb_t2, tune_atsc, tune_isdb_t,
}

-- The properties before the tune command, which has to come once, at the end.
abbrev pub end_of : List DtvPropertyRaw → Result (List DtvPropertyRaw)
end_of [] = ok []
end_of (r ∷ rest) = err invalid_data

abbrev pub before_tune : List DtvPropertyRaw → Result (List DtvPropertyRaw)
before_tune [] = err invalid_data
before_tune (r ∷ rest) =
    let given = (do given ← before_tune rest; ok (r ∷ given)) in
    if r.cmd == dtv_tune then end_of rest else given

-- The value that is given last.
abbrev pub or_here : Option ℕ → ℕ → DtvPropertyRaw → Option ℕ
or_here (some v) cmd r = some v
or_here none cmd r = if r.cmd == cmd then some r.data_word else none

abbrev pub found : ℕ → List DtvPropertyRaw → Option ℕ
found cmd [] = none
found cmd (r ∷ rest) = or_here (found cmd rest) cmd r

abbrev pub field : ℕ → List DtvPropertyRaw → Result ℕ
field cmd given = ok_or (found cmd given) invalid_data

-- A stream with its scrambling sequence, given by its index.
abbrev pub stream : ℕ → Option ℕ → Mis
stream plp none = record { mode = root; code = 0; stream_id = plp }
stream plp (some index) = record { mode = gold; code = index; stream_id = plp }

abbrev pub streams : Option ℕ → Option ℕ → Option Mis
streams none index = none
streams (some plp) index = some (stream plp index)

abbrev pub read_cable : DvbCAnnex → List DtvPropertyRaw → Result TuneRequest
read_cable annex given = do
  frequency_hz ← field dtv_frequency given
  modulation ← field dtv_modulation given >>= modulation_of
  inversion ← field dtv_inversion given >>= inversion_of
  symbolrate ← field dtv_symbol_rate given
  fec ← field dtv_inner_fec given >>= fec_of
  ok (
      tune_dvb_c (record {
        frequency_hz = frequency_hz;
        symbolrate = symbolrate;
        annex = annex;
        modulation = modulation;
        fec = fec;
        inversion = inversion;
      }))

abbrev pub read_system : DeliverySystem → List DtvPropertyRaw → Result TuneRequest
read_system dvbs given = do
  frequency_khz ← field dtv_frequency given
  modulation ← field dtv_modulation given >>= modulation_of
  inversion ← field dtv_inversion given >>= inversion_of
  symbolrate ← field dtv_symbol_rate given
  fec ← field dtv_inner_fec given >>= fec_of
  ok (
      tune_dvb_s (record {
        frequency_khz = frequency_khz;
        symbolrate = symbolrate;
        modulation = modulation;
        fec = fec;
        inversion = inversion;
      }))
read_system dvbs2 given = do
  frequency_khz ← field dtv_frequency given
  modulation ← field dtv_modulation given >>= modulation_of
  inversion ← field dtv_inversion given >>= inversion_of
  symbolrate ← field dtv_symbol_rate given
  fec ← field dtv_inner_fec given >>= fec_of
  pilot ← field dtv_pilot given >>= pilot_of
  rolloff ← field dtv_rolloff given >>= rolloff_of
  ok (
      tune_dvb_s2 (record {
        frequency_khz = frequency_khz;
        symbolrate = symbolrate;
        modulation = modulation;
        fec = fec;
        inversion = inversion;
        pilot = pilot;
        rolloff = rolloff;
        mis = streams (found dtv_stream_id given) (found dtv_scrambling_sequence_index given);
      }))
read_system dvbc_annex_a given = read_cable annex_a given
read_system dvbc_annex_b given = read_cable annex_b given
read_system dvbc_annex_c given = read_cable annex_c given
read_system dvbt given = do
  frequency_hz ← field dtv_frequency given
  modulation ← field dtv_modulation given >>= modulation_of
  bandwidth_hz ← field dtv_bandwidth_hz given
  inversion ← field dtv_inversion given >>= inversion_of
  code_rate_hp ← field dtv_code_rate_hp given >>= fec_of
  code_rate_lp ← field dtv_code_rate_lp given >>= fec_of
  guard_interval ← field dtv_guard_interval given >>= guard_interval_of
  transmission_mode ← field dtv_transmission_mode given >>= transmit_mode_of
  hierarchy ← field dtv_hierarchy given >>= hierarchy_of
  ok (
      tune_dvb_t (record {
        frequency_hz = frequency_hz;
        bandwidth_hz = bandwidth_hz;
        modulation = modulation;
        code_rate_hp = code_rate_hp;
        code_rate_lp = code_rate_lp;
        guard_interval = guard_interval;
        transmission_mode = transmission_mode;
        hierarchy = hierarchy;
        inversion = inversion;
      }))
read_system dvbt2 given = do
  frequency_hz ← field dtv_frequency given
  modulation ← field dtv_modulation given >>= modulation_of
  bandwidth_hz ← field dtv_bandwidth_hz given
  inversion ← field dtv_inversion given >>= inversion_of
  code_rate ← field dtv_code_rate_hp given >>= fec_of
  guard_interval ← field dtv_guard_interval given >>= guard_interval_of
  transmission_mode ← field dtv_transmission_mode given >>= transmit_mode_of
  ok (
      tune_dvb_t2 (record {
        frequency_hz = frequency_hz;
        bandwidth_hz = bandwidth_hz;
        modulation = modulation;
        code_rate = code_rate;
        guard_interval = guard_interval;
        transmission_mode = transmission_mode;
        stream_id = found dtv_stream_id given;
        inversion = inversion;
      }))
read_system atsc given = do
  frequency_hz ← field dtv_frequency given
  modulation ← field dtv_modulation given >>= modulation_of
  inversion ← field dtv_inversion given >>= inversion_of
  ok (
      tune_atsc
        (record { frequency_hz = frequency_hz; modulation = modulation; inversion = inversion }))
read_system isdbt given = do
  frequency_hz ← field dtv_frequency given
  bandwidth_hz ← field dtv_bandwidth_hz given
  inversion ← field dtv_inversion given >>= inversion_of
  ok (
      tune_isdb_t (record {
        frequency_hz = frequency_hz;
        bandwidth_hz = bandwidth_hz;
        inversion = inversion;
      }))
read_system system given = err invalid_data

-- What a frontend reads from the properties that it is given.
abbrev pub read_request : List DtvPropertyRaw → Result TuneRequest
read_request raws = do
  given ← before_tune raws
  system ← field dtv_delivery_system given >>= delivery_system_of
  read_system system given

-- The index that is given: an API older than 5.11 takes none.
abbrev pub index_for : Option ℕ → (before : Bool) → Option ℕ
index_for none before = none
index_for (some index) true = none
index_for (some index) false = some index

abbrev pub settled_mis : Bool → Option Mis → Option Mis
settled_mis before none = none
settled_mis before (some mis) = some (stream mis.stream_id (index_for (pls_code mis) before))

-- A request as far as it matters: of a stream's scrambling, the sequence index.
abbrev pub settled : ApiVersion → TuneRequest → TuneRequest
settled version (tune_dvb_s2 t) =
    tune_dvb_s2 (record t { mis = settled_mis (is_before_5_11 version) t.mis })
settled version request = request
