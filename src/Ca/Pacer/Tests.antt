-- ===== src/Ca/Pacer/Tests.antt =====
-- The theorems on the pacer at some calls.
use libdvb.Prelude.{refl, arith, List, [], ◌∷◌, retain, ◌≡◌}
use libdvb.Ca.Capmt.{Program}
use libdvb.Ca.Pacer.{new, push_set, push_remove, arm_ca_info, poll}
use libdvb.Ca.Pacer.Calls.{Call, sets, removes, hears_ca_info, polls, step, run}
use libdvb.Ca.Pacer.Queue.{Deduplicated, run-Deduplicated}
use libdvb.Ca.Pacer.Pace.{releases, Spaced, new-Spaced}

abbrev program : Program
program = record { program_number = 1; version = 3; descriptors = []; streams = [] }

abbrev calls : List Call
calls =
    sets program ∷ removes 1 ∷ sets program ∷ hears_ca_info 20 ∷ polls 40 ∷ polls 60 ∷ polls 80 ∷ []

run-Deduplicated_example : Deduplicated (run (new 10 5) calls).queue
run-Deduplicated_example = run-Deduplicated 10 5 calls

new-Spaced_example : Spaced 10 0 (releases 0 (new 10 5) calls)
new-Spaced_example =
    new-Spaced 10 10 5 0 calls (omega arith) (tt, (tt, (tt, (tt, (tt, (tt, (tt, tt)))))))
      (
        omega arith,
        (
          omega arith,
          (omega arith, (omega arith, (omega arith, (omega arith, (omega arith, tt))))),
        ),
      )

-- It releases both changes, the second one interval after the first.
releases-calls : releases 0 (new 10 5) calls ≡ 60 ∷ 80 ∷ []
unfolding releases run step new push_set push_remove arm_ca_info poll retain
releases-calls = refl
