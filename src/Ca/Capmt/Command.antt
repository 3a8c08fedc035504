-- ===== src/Ca/Capmt/Command.antt =====
-- Whether `build_ca_pmt` succeeds, and how long the object is, depends on the program and the CA
-- systems alone.
use libdvb.Prelude.{
  ℕ, ◌+◌, ◌≡◌, refl, arith, Bool, true, false, ◌||◌, List, [], ◌∷◌, ◌++◌, length, length-append,
  ltb, Option, none, some, u16, bit_or, invalid_data, Result, ok, err, panic, ◌>>=◌, if◌then◌else◌,
}
use libdvb.Ca.Capmt.{
  CaDescriptor, ProgramStream, Program, CaPmtListManagement, CaPmtCommand, command_code, matching,
  append_matching, append_info, append_streams, build_ca_pmt, all_bytes, to_be_bytes,
  descriptors_len, list_management_code,
}

-- Two results of `append_info` that differ in bytes only.
abbrev Alike : Result (List ℕ × Bool) → Result (List ℕ × Bool) → Type 0
Alike (ok (a, m)) (ok (b, n)) = (length a ≡ length b) × (m ≡ n)
Alike (err e) (err f) = e ≡ f
Alike panic panic = Unit
Alike (ok a) r = ⊥
Alike (err e) r = ⊥
Alike panic r = ⊥

Alike-if :
    (b : Bool) (r r' s s' : Result (List ℕ × Bool))
    → Alike r r'
    → Alike s s'
    → Alike (if b then r else s) (if b then r' else s')
Alike-if true r r' s s' h k = h
Alike-if false r r' s s' h k = k

Alike-bind :
    (r r' : Result (List ℕ × Bool)) (f g : List ℕ × Bool → Result (List ℕ × Bool))
    → Alike r r'
    → ((a b : List ℕ) (m n : Bool) → length a ≡ length b → m ≡ n → Alike (f (a, m)) (g (b, n)))
    → Alike (r >>= f) (r' >>= g)
Alike-bind (ok (a, m)) (ok (b, n)) f g h k = k a b m n h.0 h.1
Alike-bind (ok (a, m)) (err e) f g h k = elim h [ ]
Alike-bind (ok (a, m)) panic f g h k = elim h [ ]
Alike-bind (err e) (err e') f g h k = h
Alike-bind (err e) (ok b) f g h k = elim h [ ]
Alike-bind (err e) panic f g h k = elim h [ ]
Alike-bind panic panic f g h k = tt
Alike-bind panic (ok b) f g h k = elim h [ ]
Alike-bind panic (err e) f g h k = elim h [ ]

module _ (command command' : CaPmtCommand) (caids : List ℕ) where
  append_matching-Alike :
      (out out' : List ℕ) (found : List CaDescriptor)
      → length out ≡ length out'
      → Alike (append_matching out found command) (append_matching out' found command')
  unfolding append_matching
  append_matching-Alike out out' [] h =
      (omega (arith, length-append out (0xF0 ∷ 0 ∷ []), length-append out' (0xF0 ∷ 0 ∷ [])), refl)
  append_matching-Alike out out' (d ∷ rest) h =
      let size = to_be_bytes (bit_or 0xF000 (u16 (1 + descriptors_len (d ∷ rest)))) in
      let bytes = all_bytes (d ∷ rest) in
      Alike-if (ltb 0x0FFF (1 + descriptors_len (d ∷ rest))) (err invalid_data) (err invalid_data) _
        _ refl
        (
          omega (
            arith,
            length-append out (size ++ (command_code command ∷ bytes)),
            length-append out' (size ++ (command_code command' ∷ bytes)),
          ),
          refl,
        )

  append_info-Alike :
      (out out' : List ℕ) (descriptors : List CaDescriptor)
      → length out ≡ length out'
      → Alike
          (append_info out descriptors caids command)
          (append_info out' descriptors caids command')
  unfolding append_info
  append_info-Alike out out' descriptors h =
      append_matching-Alike out out' (matching caids descriptors) h

  append_streams-Alike :
      (body body' : List ℕ) (matched matched' : Bool) (streams : List ProgramStream)
      → length body ≡ length body'
      → matched ≡ matched'
      → Alike
          (append_streams body matched streams caids command)
          (append_streams body' matched' streams caids command')
  unfolding append_streams
  append_streams-Alike body body' matched matched' [] h k = (h, k)
  append_streams-Alike body body' matched matched' (s ∷ rest) h k =
      let head = s.stream_type ∷ to_be_bytes (bit_or 0xE000 s.elementary_pid) in
      Alike-bind _ _ _ _
        (append_info-Alike (body ++ head) (body' ++ head) s.descriptors
          (omega (arith, length-append body head, length-append body' head)))
        λ a b m n same eq. append_streams-Alike a b (matched || m) (matched' || n) rest same (cc)

-- `build_ca_pmt` with other management and another command: it returns the same error, or `None` as
-- well, or an object of the same length.
abbrev pub SameShape : Result (Option (List ℕ)) → Result (Option (List ℕ)) → Type 0
SameShape (ok none) r = r ≡ ok none
SameShape (ok (some body)) r =
    (other : List ℕ) × (r ≡ ok (some other)) × (length other ≡ length body)
SameShape (err e) r = r ≡ err e
SameShape panic r = r ≡ panic

SameShape-bind :
    (r r' : Result (List ℕ × Bool)) (f g : List ℕ × Bool → Result (Option (List ℕ)))
    → Alike r r'
    → ((a b : List ℕ) (m n : Bool) → length a ≡ length b → m ≡ n → SameShape (f (a, m)) (g (b, n)))
    → SameShape (r >>= f) (r' >>= g)
SameShape-bind (ok (a, m)) (ok (b, n)) f g h k = k a b m n h.0 h.1
SameShape-bind (ok (a, m)) (err e) f g h k = elim h [ ]
SameShape-bind (ok (a, m)) panic f g h k = elim h [ ]
SameShape-bind (err e) (err e') f g h k = cc
SameShape-bind (err e) (ok b) f g h k = elim h [ ]
SameShape-bind (err e) panic f g h k = elim h [ ]
SameShape-bind panic panic f g h k = refl
SameShape-bind panic (ok b) f g h k = elim h [ ]
SameShape-bind panic (err e) f g h k = elim h [ ]

finish-SameShape :
    (a b : List ℕ) (m n : Bool)
    → length a ≡ length b
    → m ≡ n
    → SameShape (ok (if m then some a else none)) (ok (if n then some b else none))
finish-SameShape a b true true h k = (b, refl, omega arith)
finish-SameShape a b false false h k = refl
finish-SameShape a b true false h k = cc
finish-SameShape a b false true h k = cc

-- Whether an object is built for a program and CA systems does not depend on the list management and
-- the command: another call gives the same error, or nothing as well, or an object of the same
-- length.
pub build_ca_pmt-SameShape :
    (p : Program) (caids : List ℕ) (list_management list_management' : CaPmtListManagement)
    (command command' : CaPmtCommand)
    → SameShape
        (build_ca_pmt p caids list_management command)
        (build_ca_pmt p caids list_management' command')
unfolding build_ca_pmt
build_ca_pmt-SameShape p caids list_management list_management' command command' =
    SameShape-bind _ _ _ _
      (append_info-Alike command command' caids
        (list_management_code list_management ∷ (to_be_bytes p.program_number ++ (_ ∷ [])))
        (list_management_code list_management' ∷ (to_be_bytes p.program_number ++ (_ ∷ [])))
        p.descriptors (omega arith))
      λ a b m n same eq.
        SameShape-bind _ _ _ _
          (append_streams-Alike command command' caids a b m n p.streams same eq) finish-SameShape
