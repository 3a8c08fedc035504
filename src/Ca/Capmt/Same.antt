-- ===== src/Ca/Capmt/Same.antt =====
-- src/ca/capmt.rs: the derived comparison of programs.
use libdvb.Prelude.{ℕ, Bool, true, false, ◌&&◌, List, [], ◌∷◌, ◌==◌}
use libdvb.Ca.Capmt.{CaDescriptor, ProgramStream, Program}

abbrev pub same_bytes : List ℕ → List ℕ → Bool
same_bytes [] [] = true
same_bytes [] (y ∷ ys) = false
same_bytes (x ∷ xs) [] = false
same_bytes (x ∷ xs) (y ∷ ys) = x == y && same_bytes xs ys

abbrev pub same_descriptors : List CaDescriptor → List CaDescriptor → Bool
same_descriptors [] [] = true
same_descriptors [] (y ∷ ys) = false
same_descriptors (x ∷ xs) [] = false
same_descriptors (x ∷ xs) (y ∷ ys) =
    x.caid == y.caid && same_bytes x.bytes y.bytes && same_descriptors xs ys

abbrev pub same_streams : List ProgramStream → List ProgramStream → Bool
same_streams [] [] = true
same_streams [] (y ∷ ys) = false
same_streams (x ∷ xs) [] = false
same_streams (x ∷ xs) (y ∷ ys) =
    x.stream_type == y.stream_type
    && x.elementary_pid == y.elementary_pid
    && same_descriptors x.descriptors y.descriptors
    && same_streams xs ys

abbrev pub same_program : Program → Program → Bool
same_program p q =
    p.program_number == q.program_number
    && p.version == q.version
    && same_descriptors p.descriptors q.descriptors
    && same_streams p.streams q.streams
