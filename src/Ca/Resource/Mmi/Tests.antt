-- ===== src/Ca/Resource/Mmi/Tests.antt =====
-- The theorems on dialogue objects at a small menu.
use libdvb.Prelude.{ℕ, ◌≡◌, ◌≤◌, arith, List, [], ◌∷◌, ◌++◌, ok, none, length}
use libdvb.Ca.Device.{CaDevice, wrote, got}
use libdvb.Ca.Transport.{CiTransport}
use libdvb.Ca.Transport
use libdvb.Ca.Apdu.Tags.{text_more_tag, menu_last_tag, menu_more_tag}
use libdvb.Ca.Resource.Context.{MmiMenu}
use libdvb.Ca.Resource.Table.{find}
use libdvb.Ca.Resource.Mmi.{parse_menu, max_object_size, or_default}
use libdvb.Ca.Resource.Mmi.Text.{joined}
use libdvb.Ca.Resource.Mmi.Menu.{
  Coded, coding, codings, texts_of, menu_size, parse_menu_total, parse_menu-codings, parse_text-nil,
}
use libdvb.Ca.Resource.Mmi.Chains.{MmiCall, receives, closes, run, chain_of, run-chain}

abbrev title : Coded
title = ((0x41 ∷ 0x42 ∷ []) ∷ [], 0x43 ∷ [])

abbrev short : Coded
short = ([], 0x44 ∷ [])

parse_menu-codings_example :
    parse_menu (
      2
      ∷ (coding title ++ (coding short ++ (coding short ++ (codings (short ∷ title ∷ []) ++ [])))))
    ≡ ok (record {
      title = joined title.0 title.1;
      sub_title = joined short.0 short.1;
      bottom = joined short.0 short.1;
      items = texts_of (short ∷ title ∷ []);
    })
parse_menu-codings_example =
    parse_menu-codings 2 title short short (short ∷ title ∷ []) []
      (
        ((omega arith, tt), omega arith),
        (
          (tt, omega arith),
          ((tt, omega arith), ((tt, omega arith), (((omega arith, tt), omega arith), tt))),
        ),
      )
      parse_text-nil

abbrev damaged : List ℕ
damaged = 1 ∷ 0x9F ∷ 0x88 ∷ 0x03 ∷ 0x05 ∷ 0x41 ∷ []

parse_menu_total_example :
    (menu : MmiMenu) × (parse_menu damaged ≡ ok menu) × (menu_size menu ≤ length damaged)
parse_menu_total_example = parse_menu_total damaged

abbrev link : CaDevice
link = record {
  on_write = λ n msg. wrote (length msg);
  on_read = λ n. got [];
  writes = 0;
  reads = 0;
  sent = [];
}

-- Two sessions, of which one is closed, and an object of three parts.
abbrev calls : List MmiCall
calls =
    receives 0 1 text_more_tag (1 ∷ []) (Transport.new link 1)
    ∷ receives 0 2 text_more_tag (9 ∷ []) (Transport.new link 1)
    ∷ receives 0 1 menu_more_tag (2 ∷ 3 ∷ []) (Transport.new link 1)
    ∷ closes 2
    ∷ receives 0 2 menu_last_tag (4 ∷ []) (Transport.new link 1)
    ∷ []

run-chain_example :
    (find 1 (run [] calls) ≡ chain_of 1 none calls)
    × (length (or_default (find 1 (run [] calls))) ≤ max_object_size)
run-chain_example = run-chain 1 calls
