-- ===== src/Ca/Apdu/Tests.antt =====
-- The theorems on application objects at some inputs.
use libdvb.Prelude.{
  ℕ, ◌+◌, ◌≤◌, ◌≡◌, ◌⊎◌, arith, List, [], ◌∷◌, ◌++◌, some, Error, Result, ok, err, length,
}
use mathlib.Core.List.{map}
use libdvb.Ca.Apdu.{Apdu, build, parse_at, iter}
use libdvb.Ca.Apdu.Codec.{parse_at-build, parse_at_cases}
use libdvb.Ca.Apdu.Iter.{iter_total, iter-pack, pack}

abbrev enquiry : Apdu
enquiry = record { tag = 0x9F8020; body = [] }

abbrev date : Apdu
date = record { tag = 0x9F8441; body = 1 ∷ 2 ∷ 3 ∷ [] }

parse_at-build_example :
    parse_at (build [] 0x9F8441 (1 ∷ 2 ∷ []) ++ (9 ∷ []))
    ≡ ok (record { tag = 0x9F8441; body = 1 ∷ 2 ∷ [] }, length (build [] 0x9F8441 (1 ∷ 2 ∷ [])))
parse_at-build_example = parse_at-build 0x9F8441 (1 ∷ 2 ∷ []) (9 ∷ []) (omega arith) (omega arith)

parse_at_cases_example :
    ((apdu : Apdu) × (size : ℕ) × (parse_at (0x9F ∷ 0x80 ∷ []) ≡ ok (apdu, size))
      × (4 + length apdu.body ≤ size)
      × (size ≤ 6 + length apdu.body)
      × (size ≤ 2))
    ⊎ ((e : Error) × (parse_at (0x9F ∷ 0x80 ∷ []) ≡ err e))
parse_at_cases_example = parse_at_cases (0x9F ∷ 0x80 ∷ [])

iter_total_example :
    (items : List (Result Apdu)) × (iter (0x9F ∷ 0x80 ∷ []) ≡ some items) × (length items ≤ 2)
iter_total_example = iter_total (0x9F ∷ 0x80 ∷ [])

iter-pack_example : iter (pack [] (enquiry ∷ date ∷ [])) ≡ some (map ok (enquiry ∷ date ∷ []))
iter-pack_example =
    iter-pack (enquiry ∷ date ∷ []) ((omega arith, omega arith), ((omega arith, omega arith), tt))
