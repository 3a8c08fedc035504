-- ===== src/Fe/Sys.antt =====
-- src/fe/sys.rs: the kernel's numbers for the values of properties. Each enumeration has its numbers,
-- and the values in their order, by which `try_from` reads a number.
pub mod Codes
use libdvb.Prelude.{ℕ, List, [], ◌∷◌, get_elem?, Result, ok_or, invalid_data}
use libdvb.Fe.Sec.Dsl.{SecVoltage, v13, v18, voltage_off, SecTone, tone_on, tone_off}

pub data Inversion : Type 0 where
  inversion_off inversion_on inversion_auto : Inversion

abbrev pub inversion_code : Inversion → ℕ
inversion_code inversion_off = 0
inversion_code inversion_on = 1
inversion_code inversion_auto = 2

abbrev pub inversions : List Inversion
inversions = inversion_off ∷ inversion_on ∷ inversion_auto ∷ []

unfoldable pub inversion_of : ℕ → Result Inversion
inversion_of value = ok_or (get_elem? inversions value) invalid_data

pub data Pilot : Type 0 where
  pilot_on pilot_off pilot_auto : Pilot

abbrev pub pilot_code : Pilot → ℕ
pilot_code pilot_on = 0
pilot_code pilot_off = 1
pilot_code pilot_auto = 2

abbrev pub pilots : List Pilot
pilots = pilot_on ∷ pilot_off ∷ pilot_auto ∷ []

unfoldable pub pilot_of : ℕ → Result Pilot
pilot_of value = ok_or (get_elem? pilots value) invalid_data

pub data Rolloff : Type 0 where
  rolloff_r35 rolloff_r20 rolloff_r25 rolloff_auto rolloff_r15 rolloff_r10 rolloff_r5 : Rolloff

abbrev pub rolloff_code : Rolloff → ℕ
rolloff_code rolloff_r35 = 0
rolloff_code rolloff_r20 = 1
rolloff_code rolloff_r25 = 2
rolloff_code rolloff_auto = 3
rolloff_code rolloff_r15 = 4
rolloff_code rolloff_r10 = 5
rolloff_code rolloff_r5 = 6

abbrev pub rolloffs : List Rolloff
rolloffs =
    rolloff_r35 ∷ rolloff_r20 ∷ rolloff_r25 ∷ rolloff_auto ∷ rolloff_r15 ∷ rolloff_r10 ∷ rolloff_r5
    ∷ []

unfoldable pub rolloff_of : ℕ → Result Rolloff
rolloff_of value = ok_or (get_elem? rolloffs value) invalid_data

pub data GuardInterval : Type 0 where
  gi1_32 gi1_16 gi1_8 gi1_4 interval_auto gi1_128 gi19_128 gi19_256 pn420 pn595 pn945 :
      GuardInterval

abbrev pub guard_interval_code : GuardInterval → ℕ
guard_interval_code gi1_32 = 0
guard_interval_code gi1_16 = 1
guard_interval_code gi1_8 = 2
guard_interval_code gi1_4 = 3
guard_interval_code interval_auto = 4
guard_interval_code gi1_128 = 5
guard_interval_code gi19_128 = 6
guard_interval_code gi19_256 = 7
guard_interval_code pn420 = 8
guard_interval_code pn595 = 9
guard_interval_code pn945 = 10

abbrev pub guard_intervals : List GuardInterval
guard_intervals =
    gi1_32 ∷ gi1_16 ∷ gi1_8 ∷ gi1_4 ∷ interval_auto ∷ gi1_128 ∷ gi19_128 ∷ gi19_256 ∷ pn420 ∷ pn595
    ∷ pn945 ∷ []

unfoldable pub guard_interval_of : ℕ → Result GuardInterval
guard_interval_of value = ok_or (get_elem? guard_intervals value) invalid_data

pub data TransmitMode : Type 0 where
  tm2k tm8k mode_auto tm4k tm1k tm16k tm32k c1 c3780 : TransmitMode

abbrev pub transmit_mode_code : TransmitMode → ℕ
transmit_mode_code tm2k = 0
transmit_mode_code tm8k = 1
transmit_mode_code mode_auto = 2
transmit_mode_code tm4k = 3
transmit_mode_code tm1k = 4
transmit_mode_code tm16k = 5
transmit_mode_code tm32k = 6
transmit_mode_code c1 = 7
transmit_mode_code c3780 = 8

abbrev pub transmit_modes : List TransmitMode
transmit_modes = tm2k ∷ tm8k ∷ mode_auto ∷ tm4k ∷ tm1k ∷ tm16k ∷ tm32k ∷ c1 ∷ c3780 ∷ []

unfoldable pub transmit_mode_of : ℕ → Result TransmitMode
transmit_mode_of value = ok_or (get_elem? transmit_modes value) invalid_data

pub data Hierarchy : Type 0 where
  hierarchy_none hierarchy_h1 hierarchy_h2 hierarchy_h4 hierarchy_auto : Hierarchy

abbrev pub hierarchy_code : Hierarchy → ℕ
hierarchy_code hierarchy_none = 0
hierarchy_code hierarchy_h1 = 1
hierarchy_code hierarchy_h2 = 2
hierarchy_code hierarchy_h4 = 3
hierarchy_code hierarchy_auto = 4

abbrev pub hierarchies : List Hierarchy
hierarchies = hierarchy_none ∷ hierarchy_h1 ∷ hierarchy_h2 ∷ hierarchy_h4 ∷ hierarchy_auto ∷ []

unfoldable pub hierarchy_of : ℕ → Result Hierarchy
hierarchy_of value = ok_or (get_elem? hierarchies value) invalid_data

pub data DeliverySystem : Type 0 where
  undefined dvbc_annex_a dvbc_annex_b dvbt dss dvbs dvbs2 dvbh isdbt isdbs isdbc atsc atscmh dtmb
        cmmb dab dvbt2 turbo dvbc_annex_c dvbc2 :
      DeliverySystem

abbrev pub delivery_system_code : DeliverySystem → ℕ
delivery_system_code undefined = 0
delivery_system_code dvbc_annex_a = 1
delivery_system_code dvbc_annex_b = 2
delivery_system_code dvbt = 3
delivery_system_code dss = 4
delivery_system_code dvbs = 5
delivery_system_code dvbs2 = 6
delivery_system_code dvbh = 7
delivery_system_code isdbt = 8
delivery_system_code isdbs = 9
delivery_system_code isdbc = 10
delivery_system_code atsc = 11
delivery_system_code atscmh = 12
delivery_system_code dtmb = 13
delivery_system_code cmmb = 14
delivery_system_code dab = 15
delivery_system_code dvbt2 = 16
delivery_system_code turbo = 17
delivery_system_code dvbc_annex_c = 18
delivery_system_code dvbc2 = 19

abbrev pub delivery_systems : List DeliverySystem
delivery_systems =
    undefined ∷ dvbc_annex_a ∷ dvbc_annex_b ∷ dvbt ∷ dss ∷ dvbs ∷ dvbs2 ∷ dvbh ∷ isdbt ∷ isdbs
    ∷ isdbc ∷ atsc ∷ atscmh ∷ dtmb ∷ cmmb ∷ dab ∷ dvbt2 ∷ turbo ∷ dvbc_annex_c ∷ dvbc2 ∷ []

unfoldable pub delivery_system_of : ℕ → Result DeliverySystem
delivery_system_of value = ok_or (get_elem? delivery_systems value) invalid_data

pub data Modulation : Type 0 where
  qpsk qam16 qam32 qam64 qam128 qam256 qam_auto vsb8 vsb16 psk8 apsk16 apsk32 dqpsk qam4nr apsk64
        apsk128 apsk256 :
      Modulation

abbrev pub modulation_code : Modulation → ℕ
modulation_code qpsk = 0
modulation_code qam16 = 1
modulation_code qam32 = 2
modulation_code qam64 = 3
modulation_code qam128 = 4
modulation_code qam256 = 5
modulation_code qam_auto = 6
modulation_code vsb8 = 7
modulation_code vsb16 = 8
modulation_code psk8 = 9
modulation_code apsk16 = 10
modulation_code apsk32 = 11
modulation_code dqpsk = 12
modulation_code qam4nr = 13
modulation_code apsk64 = 14
modulation_code apsk128 = 15
modulation_code apsk256 = 16

abbrev pub modulations : List Modulation
modulations =
    qpsk ∷ qam16 ∷ qam32 ∷ qam64 ∷ qam128 ∷ qam256 ∷ qam_auto ∷ vsb8 ∷ vsb16 ∷ psk8 ∷ apsk16
    ∷ apsk32 ∷ dqpsk ∷ qam4nr ∷ apsk64 ∷ apsk128 ∷ apsk256 ∷ []

unfoldable pub modulation_of : ℕ → Result Modulation
modulation_of value = ok_or (get_elem? modulations value) invalid_data

pub data Fec : Type 0 where
  fec_none fec1_2 fec2_3 fec3_4 fec4_5 fec5_6 fec6_7 fec7_8 fec8_9 fec_auto fec3_5 fec9_10 fec2_5
        fec1_4 fec1_3 :
      Fec

abbrev pub fec_code : Fec → ℕ
fec_code fec_none = 0
fec_code fec1_2 = 1
fec_code fec2_3 = 2
fec_code fec3_4 = 3
fec_code fec4_5 = 4
fec_code fec5_6 = 5
fec_code fec6_7 = 6
fec_code fec7_8 = 7
fec_code fec8_9 = 8
fec_code fec_auto = 9
fec_code fec3_5 = 10
fec_code fec9_10 = 11
fec_code fec2_5 = 12
fec_code fec1_4 = 13
fec_code fec1_3 = 14

abbrev pub fecs : List Fec
fecs =
    fec_none ∷ fec1_2 ∷ fec2_3 ∷ fec3_4 ∷ fec4_5 ∷ fec5_6 ∷ fec6_7 ∷ fec7_8 ∷ fec8_9 ∷ fec_auto
    ∷ fec3_5 ∷ fec9_10 ∷ fec2_5 ∷ fec1_4 ∷ fec1_3 ∷ []

unfoldable pub fec_of : ℕ → Result Fec
fec_of value = ok_or (get_elem? fecs value) invalid_data

abbrev pub voltage_code : SecVoltage → ℕ
voltage_code v13 = 0
voltage_code v18 = 1
voltage_code voltage_off = 2

abbrev pub tone_code : SecTone → ℕ
tone_code tone_on = 0
tone_code tone_off = 1

abbrev pub dtv_frequency : ℕ
dtv_frequency = 3

abbrev pub dtv_modulation : ℕ
dtv_modulation = 4

abbrev pub dtv_bandwidth_hz : ℕ
dtv_bandwidth_hz = 5

abbrev pub dtv_inversion : ℕ
dtv_inversion = 6

abbrev pub dtv_symbol_rate : ℕ
dtv_symbol_rate = 8

abbrev pub dtv_inner_fec : ℕ
dtv_inner_fec = 9

abbrev pub dtv_voltage : ℕ
dtv_voltage = 10

abbrev pub dtv_tone : ℕ
dtv_tone = 11

abbrev pub dtv_pilot : ℕ
dtv_pilot = 12

abbrev pub dtv_rolloff : ℕ
dtv_rolloff = 13

abbrev pub dtv_delivery_system : ℕ
dtv_delivery_system = 17

abbrev pub dtv_code_rate_hp : ℕ
dtv_code_rate_hp = 36

abbrev pub dtv_code_rate_lp : ℕ
dtv_code_rate_lp = 37

abbrev pub dtv_guard_interval : ℕ
dtv_guard_interval = 38

abbrev pub dtv_transmission_mode : ℕ
dtv_transmission_mode = 39

abbrev pub dtv_hierarchy : ℕ
dtv_hierarchy = 40

abbrev pub dtv_stream_id : ℕ
dtv_stream_id = 42

abbrev pub dtv_scrambling_sequence_index : ℕ
dtv_scrambling_sequence_index = 70

abbrev pub dtv_tune : ℕ
dtv_tune = 1

abbrev pub dtv_clear : ℕ
dtv_clear = 2
