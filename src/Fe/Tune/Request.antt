-- ===== src/Fe/Tune/Request.antt =====
-- src/fe/tune.rs: tune requests and the properties that they are lowered to.

pub mod Defaults
pub mod Read
pub mod ReadBack
use libdvb.Prelude.{ℕ, Option, none, some, List, [], ◌∷◌, ◌++◌}
use libdvb.Fe.Sys.{
  Inversion, Pilot, Rolloff, GuardInterval, TransmitMode, Hierarchy, DeliverySystem, dvbs, dvbs2,
  dvbc_annex_a, dvbc_annex_b, dvbc_annex_c, dvbt, dvbt2, atsc, isdbt, Modulation, Fec,
}
use libdvb.Fe.Property.{
  DtvProperty, frequency, modulation, bandwidth_hz, inversion, symbol_rate, inner_fec, pilot,
  rolloff, delivery_system, code_rate_hp, code_rate_lp, guard_interval, transmission_mode,
  hierarchy, stream_id, scrambling_sequence_index, tune, DtvPropertyRaw, ApiVersion, set_properties,
}
use libdvb.Fe.Tune.{Mis, pls_code}

pub record DvbSTune : Type 0 where
  pub frequency_khz : ℕ
  pub symbolrate : ℕ
  pub modulation : Modulation
  pub fec : Fec
  pub inversion : Inversion

pub record DvbS2Tune : Type 0 where
  pub frequency_khz : ℕ
  pub symbolrate : ℕ
  pub modulation : Modulation
  pub fec : Fec
  pub inversion : Inversion
  pub pilot : Pilot
  pub rolloff : Rolloff
  pub mis : Option Mis

pub data DvbCAnnex : Type 0 where
  annex_a annex_b annex_c : DvbCAnnex

pub record DvbCTune : Type 0 where
  pub frequency_hz : ℕ
  pub symbolrate : ℕ
  pub annex : DvbCAnnex
  pub modulation : Modulation
  pub fec : Fec
  pub inversion : Inversion

pub record DvbTTune : Type 0 where
  pub frequency_hz : ℕ
  pub bandwidth_hz : ℕ
  pub modulation : Modulation
  pub code_rate_hp : Fec
  pub code_rate_lp : Fec
  pub guard_interval : GuardInterval
  pub transmission_mode : TransmitMode
  pub hierarchy : Hierarchy
  pub inversion : Inversion

pub record DvbT2Tune : Type 0 where
  pub frequency_hz : ℕ
  pub bandwidth_hz : ℕ
  pub modulation : Modulation
  pub code_rate : Fec
  pub guard_interval : GuardInterval
  pub transmission_mode : TransmitMode
  pub stream_id : Option ℕ
  pub inversion : Inversion

pub record AtscTune : Type 0 where
  pub frequency_hz : ℕ
  pub modulation : Modulation
  pub inversion : Inversion

pub record IsdbTTune : Type 0 where
  pub frequency_hz : ℕ
  pub bandwidth_hz : ℕ
  pub inversion : Inversion

pub data TuneRequest : Type 0 where
  tune_dvb_s : (request : DvbSTune) → TuneRequest
  tune_dvb_s2 : (request : DvbS2Tune) → TuneRequest
  tune_dvb_c : (request : DvbCTune) → TuneRequest
  tune_dvb_t : (request : DvbTTune) → TuneRequest
  tune_dvb_t2 : (request : DvbT2Tune) → TuneRequest
  tune_atsc : (request : AtscTune) → TuneRequest
  tune_isdb_t : (request : IsdbTTune) → TuneRequest

abbrev pub annex_system : DvbCAnnex → DeliverySystem
annex_system annex_a = dvbc_annex_a
annex_system annex_b = dvbc_annex_b
annex_system annex_c = dvbc_annex_c

-- `TuneRequest::delivery_system`
abbrev pub system_of : TuneRequest → DeliverySystem
system_of (tune_dvb_s t) = dvbs
system_of (tune_dvb_s2 t) = dvbs2
system_of (tune_dvb_c t) = annex_system t.annex
system_of (tune_dvb_t t) = dvbt
system_of (tune_dvb_t2 t) = dvbt2
system_of (tune_atsc t) = atsc
system_of (tune_isdb_t t) = isdbt

abbrev pub index_properties : Option ℕ → List DtvProperty
index_properties none = []
index_properties (some code) = scrambling_sequence_index code ∷ []

abbrev pub mis_properties : Option Mis → List DtvProperty
mis_properties none = []
mis_properties (some mis) = stream_id mis.stream_id ∷ index_properties (pls_code mis)

abbrev pub plp_properties : Option ℕ → List DtvProperty
plp_properties none = []
plp_properties (some plp) = stream_id plp ∷ []

-- The `match` of `properties`.
abbrev pub system_properties : TuneRequest → List DtvProperty
system_properties (tune_dvb_s t) =
    frequency t.frequency_khz
    ∷ modulation t.modulation
    ∷ inversion t.inversion
    ∷ symbol_rate t.symbolrate
    ∷ inner_fec t.fec
    ∷ []
system_properties (tune_dvb_s2 t) =
    frequency t.frequency_khz
    ∷ modulation t.modulation
    ∷ inversion t.inversion
    ∷ symbol_rate t.symbolrate
    ∷ inner_fec t.fec
    ∷ pilot t.pilot
    ∷ rolloff t.rolloff
    ∷ mis_properties t.mis
system_properties (tune_dvb_c t) =
    frequency t.frequency_hz
    ∷ modulation t.modulation
    ∷ inversion t.inversion
    ∷ symbol_rate t.symbolrate
    ∷ inner_fec t.fec
    ∷ []
system_properties (tune_dvb_t t) =
    frequency t.frequency_hz
    ∷ modulation t.modulation
    ∷ bandwidth_hz t.bandwidth_hz
    ∷ inversion t.inversion
    ∷ code_rate_hp t.code_rate_hp
    ∷ code_rate_lp t.code_rate_lp
    ∷ guard_interval t.guard_interval
    ∷ transmission_mode t.transmission_mode
    ∷ hierarchy t.hierarchy
    ∷ []
system_properties (tune_dvb_t2 t) =
    frequency t.frequency_hz
    ∷ modulation t.modulation
    ∷ bandwidth_hz t.bandwidth_hz
    ∷ inversion t.inversion
    ∷ code_rate_hp t.code_rate
    ∷ guard_interval t.guard_interval
    ∷ transmission_mode t.transmission_mode
    ∷ plp_properties t.stream_id
system_properties (tune_atsc t) =
    frequency t.frequency_hz ∷ modulation t.modulation ∷ inversion t.inversion ∷ []
system_properties (tune_isdb_t t) =
    frequency t.frequency_hz ∷ bandwidth_hz t.bandwidth_hz ∷ inversion t.inversion ∷ []

abbrev pub properties : TuneRequest → List DtvProperty
properties request =
    delivery_system (system_of request) ∷ (system_properties request ++ (tune ∷ []))

-- `FeDevice::tune`: what it hands to the kernel.
abbrev pub tuned : ApiVersion → TuneRequest → List DtvPropertyRaw
tuned version request = set_properties version (properties request)
