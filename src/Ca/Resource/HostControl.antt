-- ===== src/Ca/Resource/HostControl.antt =====
-- src/ca/resource/host_control.rs: host control. It keeps no state.
use libdvb.Prelude.{
  ℕ, List, ◌==◌, ltb, if◌then◌else◌, length, index, slice, bit_and, not, Result, ok, ◌>>=◌, ◌>>◌,
  guard, invalid_data,
}
use libdvb.Ca.Apdu.Tags.{tune_tag, replace_tag, clear_replace_tag}
use libdvb.Prelude.Bits.{be16}
use libdvb.Ca.Transport.{CiTransport}
use libdvb.Ca.Session.{Called}
use libdvb.Ca.Resource.Context.{ResourceEvent, tune, replace, clear_replace, refuse, event_of}

unfoldable pub read_pid : List ℕ → Result ℕ
read_pid bytes = do a ← index bytes 0; b ← index bytes 1; ok (be16 (bit_and a 0x1F) b)

-- Two bytes from `at`, big-endian.
read_word : List ℕ → ℕ → ℕ → Result ℕ
read_word body i j = do a ← index body i; b ← index body j; ok (be16 a b)

tune_event : ℕ → List ℕ → Result ResourceEvent
unfolding read_word
tune_event slot_id body = do
  guard (not (ltb (length body) 8)) invalid_data
  network_id ← read_word body 0 1
  original_network_id ← read_word body 2 3
  transport_stream_id ← read_word body 4 5
  service_id ← read_word body 6 7
  ok (tune slot_id network_id original_network_id transport_stream_id service_id)

replace_event : ℕ → List ℕ → Result ResourceEvent
replace_event slot_id body = do
  guard (not (ltb (length body) 5)) invalid_data
  replace_ref ← index body 0
  replaced ← slice body 1 3
  replaced_pid ← read_pid replaced
  replacement ← slice body 3 5
  replacement_pid ← read_pid replacement
  ok (replace slot_id replace_ref replaced_pid replacement_pid)

clear_event : ℕ → List ℕ → Result ResourceEvent
clear_event slot_id body = do
  guard (not (length body == 0)) invalid_data
  replace_ref ← index body 0
  ok (clear_replace slot_id replace_ref)

unfoldable pub on_apdu :
    ℕ → ℕ → ℕ → List ℕ → Unit {0} → CiTransport → Called (Unit {0}) ResourceEvent
unfolding tune_event replace_event clear_event
on_apdu slot_id session_id tag body x t =
    if tag == tune_tag
    then event_of x t (tune_event slot_id body)
    else if tag == replace_tag
    then event_of x t (replace_event slot_id body)
    else if tag == clear_replace_tag
    then event_of x t (clear_event slot_id body)
    else refuse x t
