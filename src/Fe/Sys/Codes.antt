-- ===== src/Fe/Sys/Codes.antt =====
-- src/fe/sys.rs: the enumerations and their numbers.
use libdvb.Prelude.{◌≡◌, refl, ok}
use libdvb.Fe.Sys.{
  Inversion, Pilot, Rolloff, GuardInterval, TransmitMode, Hierarchy, DeliverySystem, Modulation,
  Fec, inversion_off, inversion_on, inversion_auto, pilot_on, pilot_off, pilot_auto, rolloff_r35,
  rolloff_r20, rolloff_r25, rolloff_auto, rolloff_r15, rolloff_r10, rolloff_r5, gi1_32, gi1_16,
  gi1_8, gi1_4, interval_auto, gi1_128, gi19_128, gi19_256, pn420, pn595, pn945, tm2k, tm8k,
  mode_auto, tm4k, tm1k, tm16k, tm32k, c1, c3780, hierarchy_none, hierarchy_h1, hierarchy_h2,
  hierarchy_h4, hierarchy_auto, undefined, dvbc_annex_a, dvbc_annex_b, dvbt, dss, dvbs, dvbs2, dvbh,
  isdbt, isdbs, isdbc, atsc, atscmh, dtmb, cmmb, dab, dvbt2, turbo, dvbc_annex_c, dvbc2, qpsk,
  qam16, qam32, qam64, qam128, qam256, qam_auto, vsb8, vsb16, psk8, apsk16, apsk32, dqpsk, qam4nr,
  apsk64, apsk128, apsk256, fec_none, fec1_2, fec2_3, fec3_4, fec4_5, fec5_6, fec6_7, fec7_8,
  fec8_9, fec_auto, fec3_5, fec9_10, fec2_5, fec1_4, fec1_3, inversion_code, pilot_code,
  rolloff_code, guard_interval_code, transmit_mode_code, hierarchy_code, delivery_system_code,
  modulation_code, fec_code, inversion_of, pilot_of, rolloff_of, guard_interval_of,
  transmit_mode_of, hierarchy_of, delivery_system_of, modulation_of, fec_of,
}

pub inversion_of-code : (v : Inversion) → inversion_of (inversion_code v) ≡ ok v
unfolding inversion_of
inversion_of-code inversion_off = refl
inversion_of-code inversion_on = refl
inversion_of-code inversion_auto = refl

pub pilot_of-code : (v : Pilot) → pilot_of (pilot_code v) ≡ ok v
unfolding pilot_of
pilot_of-code pilot_on = refl
pilot_of-code pilot_off = refl
pilot_of-code pilot_auto = refl

pub rolloff_of-code : (v : Rolloff) → rolloff_of (rolloff_code v) ≡ ok v
unfolding rolloff_of
rolloff_of-code rolloff_r35 = refl
rolloff_of-code rolloff_r20 = refl
rolloff_of-code rolloff_r25 = refl
rolloff_of-code rolloff_auto = refl
rolloff_of-code rolloff_r15 = refl
rolloff_of-code rolloff_r10 = refl
rolloff_of-code rolloff_r5 = refl

pub guard_interval_of-code : (v : GuardInterval) → guard_interval_of (guard_interval_code v) ≡ ok v
unfolding guard_interval_of
guard_interval_of-code gi1_32 = refl
guard_interval_of-code gi1_16 = refl
guard_interval_of-code gi1_8 = refl
guard_interval_of-code gi1_4 = refl
guard_interval_of-code interval_auto = refl
guard_interval_of-code gi1_128 = refl
guard_interval_of-code gi19_128 = refl
guard_interval_of-code gi19_256 = refl
guard_interval_of-code pn420 = refl
guard_interval_of-code pn595 = refl
guard_interval_of-code pn945 = refl

pub transmit_mode_of-code : (v : TransmitMode) → transmit_mode_of (transmit_mode_code v) ≡ ok v
unfolding transmit_mode_of
transmit_mode_of-code tm2k = refl
transmit_mode_of-code tm8k = refl
transmit_mode_of-code mode_auto = refl
transmit_mode_of-code tm4k = refl
transmit_mode_of-code tm1k = refl
transmit_mode_of-code tm16k = refl
transmit_mode_of-code tm32k = refl
transmit_mode_of-code c1 = refl
transmit_mode_of-code c3780 = refl

pub hierarchy_of-code : (v : Hierarchy) → hierarchy_of (hierarchy_code v) ≡ ok v
unfolding hierarchy_of
hierarchy_of-code hierarchy_none = refl
hierarchy_of-code hierarchy_h1 = refl
hierarchy_of-code hierarchy_h2 = refl
hierarchy_of-code hierarchy_h4 = refl
hierarchy_of-code hierarchy_auto = refl

pub delivery_system_of-code :
    (v : DeliverySystem) → delivery_system_of (delivery_system_code v) ≡ ok v
unfolding delivery_system_of
delivery_system_of-code undefined = refl
delivery_system_of-code dvbc_annex_a = refl
delivery_system_of-code dvbc_annex_b = refl
delivery_system_of-code dvbt = refl
delivery_system_of-code dss = refl
delivery_system_of-code dvbs = refl
delivery_system_of-code dvbs2 = refl
delivery_system_of-code dvbh = refl
delivery_system_of-code isdbt = refl
delivery_system_of-code isdbs = refl
delivery_system_of-code isdbc = refl
delivery_system_of-code atsc = refl
delivery_system_of-code atscmh = refl
delivery_system_of-code dtmb = refl
delivery_system_of-code cmmb = refl
delivery_system_of-code dab = refl
delivery_system_of-code dvbt2 = refl
delivery_system_of-code turbo = refl
delivery_system_of-code dvbc_annex_c = refl
delivery_system_of-code dvbc2 = refl

pub modulation_of-code : (v : Modulation) → modulation_of (modulation_code v) ≡ ok v
unfolding modulation_of
modulation_of-code qpsk = refl
modulation_of-code qam16 = refl
modulation_of-code qam32 = refl
modulation_of-code qam64 = refl
modulation_of-code qam128 = refl
modulation_of-code qam256 = refl
modulation_of-code qam_auto = refl
modulation_of-code vsb8 = refl
modulation_of-code vsb16 = refl
modulation_of-code psk8 = refl
modulation_of-code apsk16 = refl
modulation_of-code apsk32 = refl
modulation_of-code dqpsk = refl
modulation_of-code qam4nr = refl
modulation_of-code apsk64 = refl
modulation_of-code apsk128 = refl
modulation_of-code apsk256 = refl

pub fec_of-code : (v : Fec) → fec_of (fec_code v) ≡ ok v
unfolding fec_of
fec_of-code fec_none = refl
fec_of-code fec1_2 = refl
fec_of-code fec2_3 = refl
fec_of-code fec3_4 = refl
fec_of-code fec4_5 = refl
fec_of-code fec5_6 = refl
fec_of-code fec6_7 = refl
fec_of-code fec7_8 = refl
fec_of-code fec8_9 = refl
fec_of-code fec_auto = refl
fec_of-code fec3_5 = refl
fec_of-code fec9_10 = refl
fec_of-code fec2_5 = refl
fec_of-code fec1_4 = refl
fec_of-code fec1_3 = refl

-- Each number is read as the value that it stands for.
pub ruleset numbers = (
  inversion_of-code, pilot_of-code, rolloff_of-code, guard_interval_of-code, transmit_mode_of-code,
  hierarchy_of-code, delivery_system_of-code, modulation_of-code, fec_of-code,
)
