-- ===== src/Ca/Resource/ApplicationInfo/Tests.antt =====
-- The theorem on application information at two sessions of a slot.
use libdvb.Prelude.{ℕ, ◌≡◌, arith, refl, List, [], ◌∷◌, ok, none, some, length, index, get_slice}
use libdvb.Ca.Device.{CaDevice, wrote, got}
use libdvb.Ca.Transport.{CiTransport}
use libdvb.Ca.Transport
use libdvb.Ca.Apdu.Tags.{application_info_tag}
use libdvb.Ca.Resource.Table.{find, insert, remove}
use libdvb.Ca.Resource.Context.{ApplicationInfo}
use libdvb.Ca.Resource.ApplicationInfo.{
  ApplicationInfoSession, parse_application_info, info_session, on_open, on_apdu, new,
}
use libdvb.Ca.Resource.ApplicationInfo.Newest.{InfoCall, opens, receives, step, run, run-newest}

abbrev link : CaDevice
link = record {
  on_write = λ n msg. wrote (length msg);
  on_read = λ n. got [];
  writes = 0;
  reads = 0;
  sent = [];
}

abbrev transport : CiTransport
transport = Transport.new link 1

abbrev body : List ℕ
body = 1 ∷ 0x12 ∷ 0x34 ∷ 0x56 ∷ 0x78 ∷ 2 ∷ 0x41 ∷ 0x42 ∷ []

abbrev info : ApplicationInfo
info = record {
  application_type = 1;
  application_manufacturer = 0x1234;
  manufacturer_code = 0x5678;
  menu_string = 0x41 ∷ 0x42 ∷ [];
}

abbrev session : ApplicationInfoSession
session = record { slot_id = 0; info = none; revision = 0 }

-- A session is told, and another is opened.
abbrev calls : List InfoCall
calls =
    opens 0 7 transport
    ∷ receives 0 7 application_info_tag (1 ∷ 0 ∷ 0 ∷ 0 ∷ 0 ∷ 0 ∷ []) transport
    ∷ opens 0 8 transport
    ∷ []

body_parsed : parse_application_info body ≡ ok info
unfolding parse_application_info index get_slice
body_parsed = refl

session_found : find 8 (run new calls).sessions ≡ some session
unfolding run step on_open find insert remove
session_found = refl

run-newest_example :
    info_session 0 (on_apdu 0 8 application_info_tag body (run new calls) transport).registry
    ≡ some (8, info)
run-newest_example =
    run-newest calls 0 8 body transport session info (omega arith) session_found body_parsed
