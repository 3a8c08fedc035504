-- ===== src/Ca/Capmt/Tests.antt =====
-- The theorems on CA_PMT objects at a program with one scrambled stream.
use libdvb.Prelude.{ℕ, ◌≡◌, refl, arith, true, List, [], ◌∷◌, some, none, ok, if◌then◌else◌, retain}
use libdvb.Ca.Capmt.{CaDescriptor, ProgramStream, Program, only, ok_descrambling, build_ca_pmt}
use libdvb.Ca.Capmt.Layout.{ProgramFits, any_descriptor, object_layout, build_ca_pmt-layout}
use libdvb.Ca.Capmt.RoundTrip.{read_object, object_of, read_object-build}

abbrev descriptor : CaDescriptor
descriptor = record { caid = 0x0B00; bytes = 9 ∷ 4 ∷ 0x0B ∷ 0 ∷ 0xE0 ∷ 0x64 ∷ [] }

abbrev stream : ProgramStream
stream = record { stream_type = 27; elementary_pid = 256; descriptors = descriptor ∷ [] }

abbrev program : Program
program = record { program_number = 1; version = 3; descriptors = []; streams = stream ∷ [] }

program-ProgramFits : ProgramFits program (0x0B00 ∷ [])
unfolding retain
program-ProgramFits = record {
  number = omega arith;
  own = omega arith;
  streams = ((omega arith, omega arith), tt);
}

program_any : any_descriptor program (0x0B00 ∷ []) ≡ true
unfolding retain
program_any = refl

build_ca_pmt-layout_example :
    build_ca_pmt program (0x0B00 ∷ []) only ok_descrambling
    ≡ ok (
        if any_descriptor program (0x0B00 ∷ [])
        then some (object_layout program (0x0B00 ∷ []) only ok_descrambling)
        else none)
build_ca_pmt-layout_example =
    build_ca_pmt-layout program (0x0B00 ∷ []) only ok_descrambling program-ProgramFits

read_object-build_example :
    (body : List ℕ) × (build_ca_pmt program (0x0B00 ∷ []) only ok_descrambling ≡ ok (some body))
    × (read_object body ≡ some (object_of program (0x0B00 ∷ []) only ok_descrambling))
read_object-build_example =
    read_object-build program (0x0B00 ∷ []) only ok_descrambling program-ProgramFits program_any
