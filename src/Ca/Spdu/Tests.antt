-- ===== src/Ca/Spdu/Tests.antt =====
-- The theorems on session headers at some inputs.
use libdvb.Prelude.{◌≡◌, ◌≢◌, refl, arith, [], ◌∷◌, ◌++◌, ok, panic, index, slice}
use libdvb.Ca.Spdu.{
  Spdu, session_number, close_session_request, close_session_response, create_session_response,
  parse, build_session_number, build_close_session_request, build_close_session_response,
}
use libdvb.Ca.Spdu.Codec.{layout, parse-layout, parse_safe, layout-parse, parse-build}

abbrev created : Spdu
created = create_session_response 0 0x00400041 7

parse-layout_example : parse (layout created) ≡ ok created
parse-layout_example = parse-layout created (omega arith, omega arith)

parse_safe_example : parse (0x91 ∷ []) ≢ panic
parse_safe_example = parse_safe (0x91 ∷ [])

parse_close : parse (0x95 ∷ 2 ∷ 1 ∷ 4 ∷ []) ≡ ok (close_session_request 260)
unfolding parse index slice
parse_close = refl

layout-parse_example : layout (close_session_request 260) ≡ 0x95 ∷ 2 ∷ 1 ∷ 4 ∷ []
layout-parse_example =
    layout-parse (0x95 ∷ 2 ∷ 1 ∷ 4 ∷ []) (close_session_request 260)
      (omega arith, (omega arith, (omega arith, (omega arith, tt)))) parse_close

parse-build_example :
    (parse (build_session_number 300 ++ (1 ∷ 2 ∷ [])) ≡ ok (session_number 300 (1 ∷ 2 ∷ [])))
    × (parse (build_close_session_request 300) ≡ ok (close_session_request 300))
    × (parse (build_close_session_response 0 300) ≡ ok (close_session_response 0 300))
parse-build_example = parse-build 0 300 (1 ∷ 2 ∷ []) (omega arith)
