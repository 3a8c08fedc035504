-- ===== src/Ca/Capmt/RoundTrip.antt =====
-- Reading a CA_PMT object back, as EN 50221 8.4.3.4 lays it out.
use libdvb.Prelude.{
  ℕ, zero, suc, ◌+◌, ◌*◌, ◌/◌, ◌%◌, ◌≤◌, ◌<◌, ◌≡◌, refl, ◌∙◌, arith, true, List, [], ◌∷◌, ◌++◌,
  length, length-append, take, drop, take-append, drop-append, leb, le→leb, All, Option, some, none,
  ok, if◌then◌else◌,
}
use mathlib.Core.List.{map}
use libdvb.Ca.Capmt.{
  CaDescriptor, ProgramStream, Program, CaPmtListManagement, CaPmtCommand, list_management_code,
  matching, build_ca_pmt,
}
use libdvb.Ca.Capmt.Layout.{
  block, sized, Fits, StreamFits, ProgramFits, streams_layout, object_layout, any_descriptor,
  build_ca_pmt-layout, length-all_bytes,
}

-- A block behind its 12-bit length, and what follows it.
unfoldable pub read_sized : List ℕ → Option (List ℕ × List ℕ)
read_sized [] = none
read_sized (a ∷ []) = none
read_sized (a ∷ b ∷ rest) =
    let n = a % 16 * 256 + b in
    if leb n (length rest) then some (take n rest, drop n rest) else none

pub record ReadStream : Type 0 where
  pub stream_type : ℕ
  pub elementary_pid : ℕ
  pub info : List ℕ

pub record ReadObject : Type 0 where
  pub list_management : ℕ
  pub program_number : ℕ
  pub version : ℕ
  pub info : List ℕ
  pub streams : List ReadStream

abbrev put_stream : ReadStream → Option (List ReadStream) → Option (List ReadStream)
put_stream s none = none
put_stream s (some rest) = some (s ∷ rest)

-- A stream takes five bytes at least, so as many rounds as there are bytes are enough.
unfoldable pub read_streams : ℕ → List ℕ → Option (List ReadStream)
read_streams fuel [] = some []
read_streams zero (t ∷ bytes) = none
read_streams (suc fuel) (t ∷ []) = none
read_streams (suc fuel) (t ∷ hi ∷ []) = none
read_streams (suc fuel) (t ∷ hi ∷ lo ∷ rest) = elim (read_sized rest) [
  | none ↦ none
  | some (info, left) ↦
      put_stream (record { stream_type = t; elementary_pid = hi % 32 * 256 + lo; info = info })
        (read_streams fuel left)
]

abbrev with_streams : ℕ → ℕ → ℕ → List ℕ → Option (List ReadStream) → Option ReadObject
with_streams m n v info none = none
with_streams m n v info (some streams) = some (record {
  list_management = m;
  program_number = n;
  version = v;
  info = info;
  streams = streams;
})

unfoldable pub read_object : List ℕ → Option ReadObject
read_object (m ∷ hi ∷ lo ∷ v ∷ rest) = elim (read_sized rest) [
  | none ↦ none
  | some (info, left) ↦
      with_streams m (hi * 256 + lo) (v / 2 % 32) info (read_streams (length left) left)
]
read_object bytes = none

-- What is in the program for this session.
abbrev pub stream_of : List ℕ → CaPmtCommand → ProgramStream → ReadStream
stream_of caids command s = record {
  stream_type = s.stream_type;
  elementary_pid = s.elementary_pid;
  info = block command (matching caids s.descriptors);
}

abbrev pub object_of : Program → List ℕ → CaPmtListManagement → CaPmtCommand → ReadObject
object_of p caids list_management command = record {
  list_management = list_management_code list_management;
  program_number = p.program_number;
  version = p.version % 32;
  info = block command (matching caids p.descriptors);
  streams = map (stream_of caids command) p.streams;
}

length-block :
    (found : List CaDescriptor) (command : CaPmtCommand)
    → Fits found
    → length (block command found) < 4096
length-block [] command h = omega arith
length-block (d ∷ rest) command h = omega (arith, length-all_bytes (d ∷ rest))

read_sized-sized :
    (b rest : List ℕ) → length b < 4096 → read_sized (sized b ++ rest) ≡ some (b, rest)
unfolding read_sized
read_sized-sized b rest h =
    let n = (0xF0 + length b / 256) % 16 * 256 + length b % 256 in
    rw
      (
        le→leb n (length (b ++ rest)) (omega (arith, length-append b rest)),
        take-append b rest n (omega arith),
        drop-append b rest n (omega arith),
      )
      refl

pid_back : (pid : ℕ) → pid < 8192 → (0xE0 + pid / 256) % 32 * 256 + pid % 256 ≡ pid
pid_back pid h = omega arith

read_streams-layout :
    (fuel : ℕ) (streams : List ProgramStream) (caids : List ℕ) (command : CaPmtCommand)
    → All (StreamFits caids) streams
    → length (streams_layout caids command streams) ≤ fuel
    → read_streams fuel (streams_layout caids command streams)
      ≡ some (map (stream_of caids command) streams)
unfolding read_streams
read_streams-layout fuel [] caids command h k = refl
read_streams-layout zero (s ∷ rest) caids command h k = absurd (omega arith)
read_streams-layout (suc fuel) (s ∷ rest) caids command h k =
    let info = block command (matching caids s.descriptors) in
    let left = streams_layout caids command rest in
    rw
      (
        read_sized-sized info left (length-block (matching caids s.descriptors) command h.0.1),
        pid_back s.elementary_pid h.0.0,
        read_streams-layout fuel rest caids command h.1 (omega (arith, length-append info left)),
        read_streams,
      )
      refl

-- If what is found for a session fits and there is any, `build_ca_pmt` succeeds, and its object reads
-- back as the program's number and version, and for the program and for each stream in order the
-- command with the descriptors that are the session's, or an empty block where there is none.
pub read_object-build :
    (p : Program) (caids : List ℕ) (list_management : CaPmtListManagement) (command : CaPmtCommand)
    → ProgramFits p caids
    → any_descriptor p caids ≡ true
    → (body : List ℕ) × (build_ca_pmt p caids list_management command ≡ ok (some body))
      × (read_object body ≡ some (object_of p caids list_management command))
unfolding read_object
read_object-build p caids list_management command h any =
    let info = block command (matching caids p.descriptors) in
    let left = streams_layout caids command p.streams in
    (
      object_layout p caids list_management command,
      build_ca_pmt-layout p caids list_management command h ∙ rw any refl,
      rw
          (
            read_sized-sized info left (length-block (matching caids p.descriptors) command h.own),
            number_back,
            version_back,
            read_streams-layout (length left) p.streams caids command h.streams (omega arith),
            read_object,
          )
          refl,
    )
  where
    number_back : p.program_number / 256 * 256 + p.program_number % 256 ≡ p.program_number
    number_back = omega arith

    version_back : (0xC1 + p.version % 32 * 2) / 2 % 32 ≡ p.version % 32
    version_back = omega arith
