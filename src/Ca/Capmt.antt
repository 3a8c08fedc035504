-- ===== src/Ca/Capmt.antt =====
-- src/ca/capmt.rs: the part of a program map table that a CA_PMT object is built from. The table is
-- read by the crate libmpegts, which is a parameter: what it finds in a section, or that it fails.
pub mod Layout
pub mod Same
pub mod Command
pub mod RoundTrip
mod Tests
use libdvb.Prelude.{
  ℕ, ◌+◌, ◌*◌, ◌/◌, ◌%◌, Bool, true, false, ◌||◌, List, [], ◌∷◌, ◌++◌, ltb, ◌==◌, if◌then◌else◌, u8,
  u16, shl, bit_and, bit_or, length, retain, Option, none, some, Result, ok, err, panic, ◌>>=◌,
  ◌>>◌, guard, ok_or, invalid_data, not,
}

pub data CaPmtListManagement : Type 0 where
  only add update : CaPmtListManagement

-- `as u8`
abbrev pub list_management_code : CaPmtListManagement → ℕ
list_management_code only = 0x03
list_management_code add = 0x04
list_management_code update = 0x05

pub data CaPmtCommand : Type 0 where
  ok_descrambling not_selected : CaPmtCommand

abbrev pub command_code : CaPmtCommand → ℕ
command_code ok_descrambling = 0x01
command_code not_selected = 0x04

pub record CaDescriptor : Type 0 where
  pub caid : ℕ
  pub bytes : List ℕ

pub record ProgramStream : Type 0 where
  pub stream_type : ℕ
  pub elementary_pid : ℕ
  pub descriptors : List CaDescriptor

pub record Program : Type 0 where
  pub program_number : ℕ
  pub version : ℕ
  pub descriptors : List CaDescriptor
  pub streams : List ProgramStream

-- What the code asks of libmpegts: a descriptor's tag and bytes, and the CA system id if the bytes
-- are those of a CA descriptor; `none` in a list is an item that cannot be read.
pub record DescriptorRef : Type 0 where
  pub tag : ℕ
  pub ca_system_id : Option ℕ
  pub bytes : List ℕ

pub record StreamRef : Type 0 where
  pub stream_type : ℕ
  pub elementary_pid : ℕ
  pub stream_descriptors : Option (List (Option DescriptorRef))

pub record PmtSectionRef : Type 0 where
  pub program_number : ℕ
  pub version : ℕ
  pub program_descriptors : Option (List (Option DescriptorRef))
  pub streams : List (Option StreamRef)

-- `caids.contains(&caid)`
abbrev pub contains : List ℕ → ℕ → Bool
contains [] caid = false
contains (c ∷ caids) caid = (c == caid) || contains caids caid

-- `PmtSectionRef::try_from` and `CaDescriptorRef::TAG`.
module _ (try_from : List ℕ → Option PmtSectionRef) (ca_descriptor_tag : ℕ) where
  -- The loop of `parse_ca_descriptors`.
  ca_descriptors : List (Option DescriptorRef) → Result (List CaDescriptor)
  ca_descriptors [] = ok []
  ca_descriptors (none ∷ rest) = err invalid_data
  ca_descriptors (some d ∷ rest) =
      let more = ca_descriptors rest in
      if d.tag == ca_descriptor_tag
      then (do
        caid ← ok_or d.ca_system_id invalid_data
        found ← more
        ok (record { caid = caid; bytes = d.bytes } ∷ found))
      else more

  pub parse_ca_descriptors : Option (List (Option DescriptorRef)) → Result (List CaDescriptor)
  unfolding ca_descriptors
  parse_ca_descriptors none = ok []
  parse_ca_descriptors (some descriptors) = ca_descriptors descriptors

  -- The loop over the streams.
  program_streams : List (Option StreamRef) → Result (List ProgramStream)
  program_streams [] = ok []
  program_streams (none ∷ rest) = err invalid_data
  program_streams (some s ∷ rest) = do
    descriptors ← parse_ca_descriptors s.stream_descriptors
    streams ← program_streams rest
    ok (
        record {
          stream_type = s.stream_type;
          elementary_pid = s.elementary_pid;
          descriptors = descriptors;
        }
        ∷ streams)

  -- `Program::parse`
  pub parse : List ℕ → Result Program
  unfolding parse_ca_descriptors program_streams
  parse bytes = do
    pmt ← ok_or (try_from bytes) invalid_data
    guard (not (pmt.program_number == 0)) invalid_data
    descriptors ← parse_ca_descriptors pmt.program_descriptors
    streams ← program_streams pmt.streams
    ok (record {
      program_number = pmt.program_number;
      version = pmt.version;
      descriptors = descriptors;
      streams = streams;
    })

-- `to_be_bytes` of a `u16`.
abbrev pub to_be_bytes : ℕ → List ℕ
to_be_bytes word = u8 (word / 256) ∷ u8 word ∷ []

-- `.map(|descriptor| descriptor.bytes.len()).sum()`. A sum of lengths of slices in memory fits a
-- `usize`, so `checked_add` below does not fail.
abbrev pub descriptors_len : List CaDescriptor → ℕ
descriptors_len [] = 0
descriptors_len (d ∷ rest) = length d.bytes + descriptors_len rest

-- The loop that appends them.
abbrev pub all_bytes : List CaDescriptor → List ℕ
all_bytes [] = []
all_bytes (d ∷ rest) = d.bytes ++ all_bytes rest

abbrev pub matching : List ℕ → List CaDescriptor → List CaDescriptor
matching caids descriptors = retain (λ d. contains caids d.caid) descriptors

-- What follows `let matching`.
append_matching : List ℕ → List CaDescriptor → CaPmtCommand → Result (List ℕ × Bool)
append_matching out [] command = ok (out ++ (0xF0 ∷ 0 ∷ []), false)
append_matching out (d ∷ rest) command =
    let info_len = 1 + descriptors_len (d ∷ rest) in
    if ltb 0x0FFF info_len
    then err invalid_data
    else ok (
      out
          ++ (to_be_bytes (bit_or 0xF000 (u16 info_len))
              ++ (command_code command ∷ all_bytes (d ∷ rest))),
      true,
    )

pub append_info : List ℕ → List CaDescriptor → List ℕ → CaPmtCommand → Result (List ℕ × Bool)
unfolding append_matching
append_info out descriptors caids command = append_matching out (matching caids descriptors) command

-- The loop over the streams; `matched` is its state beside the body.
append_streams : List ℕ → Bool → List ProgramStream → List ℕ → CaPmtCommand → Result (List ℕ × Bool)
append_streams body matched [] caids command = ok (body, matched)
append_streams body matched (s ∷ rest) caids command = do
  (body', found) ←
      append_info (body ++ (s.stream_type ∷ to_be_bytes (bit_or 0xE000 s.elementary_pid)))
        s.descriptors caids command
  append_streams body' (matched || found) rest caids command

pub build_ca_pmt : Program → List ℕ → CaPmtListManagement → CaPmtCommand → Result (Option (List ℕ))
unfolding append_info append_streams
build_ca_pmt p caids list_management command = do
  (head, matched) ←
      append_info
        (list_management_code list_management
          ∷ (to_be_bytes p.program_number
              ++ (bit_or 0xC1 (u8 (shl (bit_and p.version 0x1F) 1)) ∷ [])))
        p.descriptors caids command
  (body, matched') ← append_streams head matched p.streams caids command
  ok (if matched' then some body else none)
