-- ===== src/Ca/Apdu/Tags.antt =====
-- src/ca/apdu.rs: the tags that the resources use.
use libdvb.Prelude.{ℕ}

abbrev pub profile_enq_tag : ℕ
profile_enq_tag = 0x9F8010

abbrev pub profile_tag : ℕ
profile_tag = 0x9F8011

abbrev pub profile_change_tag : ℕ
profile_change_tag = 0x9F8012

abbrev pub application_info_enq_tag : ℕ
application_info_enq_tag = 0x9F8020

abbrev pub application_info_tag : ℕ
application_info_tag = 0x9F8021

abbrev pub enter_menu_tag : ℕ
enter_menu_tag = 0x9F8022

abbrev pub ca_info_enq_tag : ℕ
ca_info_enq_tag = 0x9F8030

abbrev pub ca_info_tag : ℕ
ca_info_tag = 0x9F8031

abbrev pub ca_pmt_tag : ℕ
ca_pmt_tag = 0x9F8032

abbrev pub ca_pmt_reply_tag : ℕ
ca_pmt_reply_tag = 0x9F8033

abbrev pub ca_update_tag : ℕ
ca_update_tag = 0x9F8034

abbrev pub tune_tag : ℕ
tune_tag = 0x9F8400

abbrev pub replace_tag : ℕ
replace_tag = 0x9F8401

abbrev pub clear_replace_tag : ℕ
clear_replace_tag = 0x9F8402

abbrev pub ask_release_tag : ℕ
ask_release_tag = 0x9F8403

abbrev pub date_time_enq_tag : ℕ
date_time_enq_tag = 0x9F8440

abbrev pub date_time_tag : ℕ
date_time_tag = 0x9F8441

abbrev pub close_mmi_tag : ℕ
close_mmi_tag = 0x9F8800

abbrev pub display_control_tag : ℕ
display_control_tag = 0x9F8801

abbrev pub display_reply_tag : ℕ
display_reply_tag = 0x9F8802

abbrev pub text_last_tag : ℕ
text_last_tag = 0x9F8803

abbrev pub text_more_tag : ℕ
text_more_tag = 0x9F8804

abbrev pub enq_tag : ℕ
enq_tag = 0x9F8807

abbrev pub answ_tag : ℕ
answ_tag = 0x9F8808

abbrev pub menu_last_tag : ℕ
menu_last_tag = 0x9F8809

abbrev pub menu_more_tag : ℕ
menu_more_tag = 0x9F880A

abbrev pub menu_answ_tag : ℕ
menu_answ_tag = 0x9F880B

abbrev pub list_last_tag : ℕ
list_last_tag = 0x9F880C

abbrev pub list_more_tag : ℕ
list_more_tag = 0x9F880D
