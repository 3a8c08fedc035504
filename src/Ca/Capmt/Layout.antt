-- ===== src/Ca/Capmt/Layout.antt =====
-- What `build_ca_pmt` writes.
use libdvb.Prelude.{
  ℕ, ◌+◌, ◌*◌, ◌/◌, ◌%◌, ◌<◌, ◌≡◌, refl, ◌∙◌, arith, Bool, true, false, ◌||◌, List, [], ◌∷◌, ◌++◌,
  append_assoc, append-nil, bit_or, bit_and, u8, shl, length, length-append, All, some, none, ok,
  if◌then◌else◌,
}
use libdvb.Prelude.Bits.{bit_or_disjoint, bit_or_version, bit_and_low}
use libdvb.Ca.Capmt.{
  CaDescriptor, ProgramStream, Program, CaPmtListManagement, CaPmtCommand, list_management_code,
  command_code, matching, descriptors_len, all_bytes, append_matching, append_info, append_streams,
  build_ca_pmt, to_be_bytes,
}

-- A `program_info` or `ES_info` block: nothing, or the command and the descriptors.
abbrev pub block : CaPmtCommand → List CaDescriptor → List ℕ
block command [] = []
block command (d ∷ rest) = command_code command ∷ all_bytes (d ∷ rest)

-- A block behind its length, of 12 bits below `1111`.
abbrev pub sized : List ℕ → List ℕ
sized b = (0xF0 + length b / 256) ∷ (length b % 256) ∷ b

abbrev pub is_some : List CaDescriptor → Bool
is_some [] = false
is_some (d ∷ rest) = true

-- One descriptor list fits the length field.
abbrev pub Fits : List CaDescriptor → Type 0
Fits found = descriptors_len found < 4095

pub length-all_bytes :
    (found : List CaDescriptor) → length (all_bytes found) ≡ descriptors_len found
length-all_bytes [] = refl
length-all_bytes (d ∷ rest) =
    omega (arith, length-append d.bytes (all_bytes rest), length-all_bytes rest)

append_matching-sized :
    (out : List ℕ) (found : List CaDescriptor) (command : CaPmtCommand)
    → Fits found
    → append_matching out found command ≡ ok (out ++ sized (block command found), is_some found)
unfolding append_matching
append_matching-sized out [] command h = refl
append_matching-sized out (d ∷ rest) command h =
    ground
      (arith, length-all_bytes (d ∷ rest), bit_or_disjoint 12 15 (1 + descriptors_len (d ∷ rest)))

abbrev pub stream_layout : List ℕ → CaPmtCommand → ProgramStream → List ℕ
stream_layout caids command s =
    s.stream_type
    ∷ (0xE0 + s.elementary_pid / 256)
    ∷ (s.elementary_pid % 256)
    ∷ sized (block command (matching caids s.descriptors))

abbrev pub streams_layout : List ℕ → CaPmtCommand → List ProgramStream → List ℕ
streams_layout caids command [] = []
streams_layout caids command (s ∷ rest) =
    stream_layout caids command s ++ streams_layout caids command rest

abbrev pub any_stream : List ℕ → List ProgramStream → Bool
any_stream caids [] = false
any_stream caids (s ∷ rest) = is_some (matching caids s.descriptors) || any_stream caids rest

-- A stream's identifier has 13 bits, and what is found for it fits.
abbrev pub StreamFits : List ℕ → ProgramStream → Type 0
StreamFits caids s = (s.elementary_pid < 8192) × Fits (matching caids s.descriptors)

or_assoc : (a b c : Bool) → ((a || b) || c) ≡ (a || (b || c))
or_assoc true b c = refl
or_assoc false b c = refl

or_false : (b : Bool) → (b || false) ≡ b
or_false true = refl
or_false false = refl

append_info-sized :
    (out : List ℕ) (descriptors : List CaDescriptor) (caids : List ℕ) (command : CaPmtCommand)
    → Fits (matching caids descriptors)
    → append_info out descriptors caids command
      ≡ ok (
        out ++ sized (block command (matching caids descriptors)),
        is_some (matching caids descriptors),
      )
unfolding append_info
append_info-sized out descriptors caids command h =
    append_matching-sized out (matching caids descriptors) command h

pid_bytes :
    (pid : ℕ) → pid < 8192 → to_be_bytes (bit_or 0xE000 pid) ≡ (0xE0 + pid / 256) ∷ (pid % 256) ∷ []
pid_bytes pid h = ground (arith, bit_or_disjoint 13 7 pid)

append_streams-layout :
    (body : List ℕ) (matched : Bool) (streams : List ProgramStream) (caids : List ℕ)
    (command : CaPmtCommand)
    → All (StreamFits caids) streams
    → append_streams body matched streams caids command
      ≡ ok (body ++ streams_layout caids command streams, matched || any_stream caids streams)
unfolding append_streams
append_streams-layout body matched [] caids command h = rw (append-nil body, or_false matched) refl
append_streams-layout body matched (s ∷ rest) caids command h =
    let found = matching caids s.descriptors in
    let start = s.stream_type ∷ (0xE0 + s.elementary_pid / 256) ∷ (s.elementary_pid % 256) ∷ [] in
    rw
      (
        pid_bytes s.elementary_pid h.0.0,
        append_info-sized (body ++ start) s.descriptors caids command h.0.1,
      )
      (append_streams-layout ((body ++ start) ++ sized (block command found))
          (matched || is_some found) rest caids command h.1
        ∙ rw
            (
              append_assoc (body ++ start) (sized (block command found))
                  (streams_layout caids command rest),
              append_assoc body start
                  (sized (block command found) ++ streams_layout caids command rest),
              or_assoc matched (is_some found) (any_stream caids rest),
            )
            refl)

-- The whole object, header first.
abbrev pub object_layout : Program → List ℕ → CaPmtListManagement → CaPmtCommand → List ℕ
object_layout p caids list_management command =
    list_management_code list_management
    ∷ (p.program_number / 256)
    ∷ (p.program_number % 256)
    ∷ (0xC1 + p.version % 32 * 2)
    ∷ (sized (block command (matching caids p.descriptors))
        ++ streams_layout caids command p.streams)

-- The program number has 16 bits, and all that is found for the session fits.
pub record ProgramFits (p : Program) (caids : List ℕ) : Type 0 where
  pub number : p.program_number < 65536
  pub own : Fits (matching caids p.descriptors)
  pub streams : All (StreamFits caids) p.streams

abbrev pub any_descriptor : Program → List ℕ → Bool
any_descriptor p caids = is_some (matching caids p.descriptors) || any_stream caids p.streams

version_byte :
    (version : ℕ) → bit_or 0xC1 (u8 (shl (bit_and version 0x1F) 1)) ≡ 0xC1 + version % 32 * 2
version_byte version = ground (arith, bit_and_low 5 version, bit_or_version (version % 32))

-- If what is found fits, `build_ca_pmt` returns the object laid out field by field, if any descriptor
-- of the program or of a stream is of one of the session's CA systems, and `None` otherwise.
pub build_ca_pmt-layout :
    (p : Program) (caids : List ℕ) (list_management : CaPmtListManagement) (command : CaPmtCommand)
    → ProgramFits p caids
    → build_ca_pmt p caids list_management command
      ≡ ok (
          if any_descriptor p caids
          then some (object_layout p caids list_management command)
          else none)
unfolding build_ca_pmt
build_ca_pmt-layout p caids list_management command h =
    let found = matching caids p.descriptors in
    let head =
      list_management_code list_management
      ∷ (p.program_number / 256)
      ∷ (p.program_number % 256)
      ∷ (0xC1 + p.version % 32 * 2)
      ∷ [] in
    rw
      (
        version_byte p.version,
        number_byte,
        append_info-sized head p.descriptors caids command h.own,
      )
      (rw
        (append_streams-layout (head ++ sized (block command found)) (is_some found) p.streams caids
          command h.streams)
        refl)
  where
    number_byte : u8 (p.program_number / 256) ≡ p.program_number / 256
    number_byte = omega (arith, h.number)
