-- ===== src/Ca/ConditionalAccess/Objects/Tests.antt =====
-- The theorems on selections at a session with confirmed CA systems.
use libdvb.Prelude.{◌≡◌, arith, refl, false, retain, List, [], ◌∷◌, ok, none, some, length}
use libdvb.Ca.Device.{CaDevice, wrote, got}
use libdvb.Ca.Transport.{CiTransport}
use libdvb.Ca.Transport
use libdvb.Ca.Apdu.Tags.{ca_info_tag}
use libdvb.Ca.Capmt.{Program, only, ok_descrambling, build_ca_pmt}
use libdvb.Ca.Capmt.Layout.{build_ca_pmt-layout}
use libdvb.Ca.Pacer.{select}
use libdvb.Ca.Resource.Table.{find, insert, remove, place, sort, dedup}
use libdvb.Ca.ConditionalAccess.{
  ConditionalAccessSession, new, parse_ca_info, set_program, visit_all, visit_found, after_visit,
  set_session, set_confirmed, set_built, withdraw_previous, unchanged,
}
use libdvb.Ca.ConditionalAccess.Objects.{
  on_open, on_apdu, info_received, confirmed, synchronize_session, synchronized, select_all,
  withdraw_invalid,
}
use libdvb.Ca.ConditionalAccess.Selected.Removed.{Removal}
use libdvb.Ca.ConditionalAccess.Selected.Changes.{apply, Achieves}
use libdvb.Ca.ConditionalAccess.Runs.{CaCall, opens, receives, step, run, run-Removal, run-Achieves}

abbrev link : CaDevice
link = record {
  on_write = λ n msg. wrote (length msg);
  on_read = λ n. got [];
  writes = 0;
  reads = 0;
  sent = [];
}

abbrev transport : CiTransport
transport = Transport.new link 1

abbrev calls : List CaCall
calls = opens 0 1 transport ∷ receives 0 1 ca_info_tag (0x0B ∷ 0x00 ∷ []) transport ∷ []

abbrev session : ConditionalAccessSession
session = record { slot_id = 0; caids = some (0x0B00 ∷ []); selected = [] }

session_found : find 1 (run new calls).sessions ≡ some session
unfolding run step on_open on_apdu info_received confirmed synchronize_session synchronized
    select_all withdraw_invalid find insert remove parse_ca_info
session_found = refl

run-Removal_example : Removal 5 1 session transport
run-Removal_example = run-Removal calls 5 1 session transport session_found

-- A program in the clear.
abbrev program : Program
program = record { program_number = 5; version = 0; descriptors = []; streams = [] }

no_object : build_ca_pmt program (0x0B00 ∷ []) only ok_descrambling ≡ ok none
unfolding retain
no_object =
    build_ca_pmt-layout program (0x0B00 ∷ []) only ok_descrambling
      (record { number = omega arith; own = omega arith; streams = tt })

set_ok : (apply (select program) (run new calls) transport).2 ≡ ok (dedup (sort []))
unfolding run step on_open on_apdu info_received confirmed synchronize_session synchronized
    select_all withdraw_invalid find insert remove parse_ca_info sort place set_program visit_all
    visit_found after_visit set_session set_confirmed set_built withdraw_previous
set_ok = ground (arith, no_object)

set_found : find 1 (apply (select program) (run new calls) transport).0.sessions ≡ some session
unfolding run step on_open on_apdu info_received confirmed synchronize_session synchronized
    select_all withdraw_invalid find insert remove parse_ca_info sort place set_program visit_all
    visit_found after_visit set_session set_confirmed set_built withdraw_previous
set_found = ground (arith, no_object)

is_new : unchanged program (find 5 (run new calls).programs) ≡ false
unfolding run step on_open on_apdu info_received confirmed synchronize_session synchronized
    select_all withdraw_invalid find insert remove parse_ca_info
is_new = refl

run-Achieves_example : Achieves (select program) session
run-Achieves_example =
    run-Achieves calls (select program) transport (dedup (sort [])) is_new set_ok 1 session
      set_found
