-- ===== src/Fe/Tune/Request/Defaults.antt =====
-- src/fe/tune.rs: the defaults of the requests.
use libdvb.Prelude.{none}
use libdvb.Fe.Sys.{
  inversion_auto, pilot_auto, rolloff_r35, interval_auto, mode_auto, hierarchy_none, qpsk, qam_auto,
  vsb8, psk8, fec_auto,
}
use libdvb.Fe.Tune.Request.{
  DvbSTune, DvbS2Tune, annex_a, DvbCTune, DvbTTune, DvbT2Tune, AtscTune, IsdbTTune,
}

abbrev pub default_dvb_s : DvbSTune
default_dvb_s = record {
  frequency_khz = 0;
  symbolrate = 0;
  modulation = qpsk;
  fec = fec_auto;
  inversion = inversion_auto;
}

abbrev pub default_dvb_s2 : DvbS2Tune
default_dvb_s2 = record {
  frequency_khz = 0;
  symbolrate = 0;
  modulation = psk8;
  fec = fec_auto;
  inversion = inversion_auto;
  pilot = pilot_auto;
  rolloff = rolloff_r35;
  mis = none;
}

abbrev pub default_dvb_c : DvbCTune
default_dvb_c = record {
  frequency_hz = 0;
  symbolrate = 0;
  annex = annex_a;
  modulation = qam_auto;
  fec = fec_auto;
  inversion = inversion_auto;
}

abbrev pub default_dvb_t : DvbTTune
default_dvb_t = record {
  frequency_hz = 0;
  bandwidth_hz = 8000000;
  modulation = qam_auto;
  code_rate_hp = fec_auto;
  code_rate_lp = fec_auto;
  guard_interval = interval_auto;
  transmission_mode = mode_auto;
  hierarchy = hierarchy_none;
  inversion = inversion_auto;
}

abbrev pub default_dvb_t2 : DvbT2Tune
default_dvb_t2 = record {
  frequency_hz = 0;
  bandwidth_hz = 8000000;
  modulation = qam_auto;
  code_rate = fec_auto;
  guard_interval = interval_auto;
  transmission_mode = mode_auto;
  stream_id = none;
  inversion = inversion_auto;
}

abbrev pub default_atsc : AtscTune
default_atsc = record { frequency_hz = 0; modulation = vsb8; inversion = inversion_auto }

abbrev pub default_isdb_t : IsdbTTune
default_isdb_t = record { frequency_hz = 0; bandwidth_hz = 6000000; inversion = inversion_auto }
