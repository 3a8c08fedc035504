-- ===== src/Ca/Tpdu/Tests.antt =====
-- The theorems on frames at some inputs.
use libdvb.Prelude.{
  ℕ, ◌≤◌, ◌≡◌, ◌≢◌, refl, arith, leb, List, [], ◌∷◌, ◌++◌, ok, panic, some, length, get_elem?,
}
use libdvb.Ca.Tpdu.{build, parse, max_tpdu_size, data_last}
use libdvb.Ca.Tpdu.Build.{data_frame, length-build}
use libdvb.Ca.Tpdu.Parse.{parse-ne-panic}
use libdvb.Ca.Tpdu.RoundTrip.{status_object, parse-data_frame}

abbrev create_frame : List ℕ
create_frame = 0 ∷ 1 ∷ 0x82 ∷ 1 ∷ 1 ∷ []

build_create : build 0 0x82 [] ≡ ok create_frame
unfolding build
build_create = refl

length-build_example :
    (length create_frame ≤ max_tpdu_size)
    × (get_elem? create_frame 0 ≡ some 0)
    × (get_elem? create_frame 1 ≡ some 1)
    × (get_elem? create_frame 2 ≡ some 0x82)
length-build_example = length-build 0 0x82 [] create_frame build_create

parse-ne-panic_example : parse (0 ∷ 1 ∷ 0x83 ∷ 1 ∷ 1 ∷ []) 1 ≢ panic
parse-ne-panic_example = parse-ne-panic (0 ∷ 1 ∷ 0x83 ∷ 1 ∷ 1 ∷ []) 1

parse-data_frame_example :
    parse (data_frame 1 data_last (0x90 ∷ 2 ∷ []) ++ status_object 2 0x80) 2
    ≡ ok (record {
      slot_id = 1;
      tag = data_last;
      body = 0x90 ∷ 2 ∷ [];
      data_indicator = leb 128 0x80;
    })
parse-data_frame_example =
    parse-data_frame 1 data_last 2 0x80 (0x90 ∷ 2 ∷ []) (omega arith) refl (omega arith)
      (omega arith)
