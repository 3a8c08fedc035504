-- ===== src/Fe/Sec/Dsl.antt =====
-- src/fe/sec.rs: the commands, and `Parser`, which reads them from a text. A parser's position shows
-- in the error texts alone, so the state is the bytes that are left.
pub mod Valid
use libdvb.Prelude.{
  ℕ, zero, suc, ◌+◌, ◌-◌, ◌*◌, ◌<◌, Bool, true, false, ◌&&◌, ◌||◌, List, [], ◌∷◌, ◌++◌, ltb, leb,
  ◌==◌, if◌then◌else◌, u8, shl, bit_or, length, Result, ok, err, panic, ◌>>=◌, ◌>>◌, guard,
  invalid_data,
}

-- src/fe/sys.rs
pub data SecTone : Type 0 where
  tone_on tone_off : SecTone

pub data SecVoltage : Type 0 where
  v13 v18 voltage_off : SecVoltage

pub data SecMiniCmd : Type 0 where
  burst_a burst_b : SecMiniCmd

abbrev pub Duration : Type 0
Duration = ℕ

abbrev pub from_millis : ℕ → Duration
from_millis ms = ms * 1000000

pub data SecCommand : Type 0 where
  set_tone : SecTone → SecCommand
  set_voltage : SecVoltage → SecCommand
  send_burst : SecMiniCmd → SecCommand
  send_master_command : List ℕ → SecCommand
  wait : Duration → SecCommand

-- `is_ascii_whitespace` and `is_ascii_digit`.
abbrev pub is_space : ℕ → Bool
is_space c = c == 32 || c == 9 || c == 10 || c == 12 || c == 13

abbrev pub is_digit : ℕ → Bool
is_digit c = leb b'0' c && leb c b'9'

-- `skip_whitespace`: what is left after the blanks.
pub skip_whitespace : List ℕ → List ℕ
skip_whitespace [] = []
skip_whitespace (c ∷ rest) =
    let skipped = skip_whitespace rest in if is_space c then skipped else c ∷ rest

abbrev pub u64_limit : ℕ
u64_limit = 18446744073709551616

-- The loop of `parse_wait`: `checked_mul(10)` and `checked_add` on `u64`.
parse_digits : ℕ → List ℕ → Result (ℕ × List ℕ)
parse_digits value [] = ok (value, [])
parse_digits value (c ∷ rest) =
    let more = (do
      guard (ltb (value * 10) u64_limit) invalid_data
      guard (ltb (value * 10 + (c - b'0')) u64_limit) invalid_data
      parse_digits (value * 10 + (c - b'0')) rest) in
    if is_digit c then more else ok (value, c ∷ rest)

starts_with_digit : List ℕ → Bool
starts_with_digit [] = false
starts_with_digit (c ∷ rest) = is_digit c

pub parse_wait : List ℕ → Result (ℕ × List ℕ)
unfolding parse_digits starts_with_digit
parse_wait bytes = do
  (value, rest) ← parse_digits 0 bytes
  guard (starts_with_digit bytes) invalid_data
  ok (value, rest)

hex_value : ℕ → Result ℕ
hex_value c =
    if is_digit c
    then ok (c - b'0')
    else if leb b'a' c && leb c b'f'
    then ok (c - b'a' + 10)
    else if leb b'A' c && leb c b'F'
    then ok (c - b'A' + 10)
    else err invalid_data

pub parse_hex_nibble : List ℕ → Result (ℕ × List ℕ)
unfolding hex_value
parse_hex_nibble [] = err invalid_data
parse_hex_nibble (c ∷ rest) = do nibble ← hex_value c; ok (nibble, rest)

-- One round of the loop of `parse_master_command`: a byte, or the closing bracket.
pub data MasterItem : Type 0 where
  closing : (rest : List ℕ) → MasterItem
  byte : (value : ℕ) (rest : List ℕ) → MasterItem

master_item : List ℕ → Result MasterItem
unfolding parse_hex_nibble
master_item [] = err invalid_data
master_item (c ∷ bytes) = if c == b']' then ok (closing bytes) else (do
  (high, rest) ← parse_hex_nibble (c ∷ bytes)
  (low, rest') ← parse_hex_nibble rest
  ok (byte (bit_or (u8 (shl high 4)) low) rest'))

-- A round takes two bytes at least, so one round more than there are bytes is enough; `panic` is a
-- loop that is not done then.
master_loop : ℕ → List ℕ → List ℕ → Result (List ℕ × List ℕ)
unfolding master_item
master_loop zero msg bytes = panic
master_loop (suc fuel) msg bytes = elim (master_item (skip_whitespace bytes)) [
  | ok (closing rest) ↦ ok (msg, rest)
  | ok (byte value rest) ↦ master_loop fuel (msg ++ (value ∷ [])) rest
  | err e ↦ err e
  | panic ↦ panic
]

-- What follows the `[`.
pub parse_master_command : List ℕ → Result (SecCommand × List ℕ)
unfolding master_loop
parse_master_command bytes = do
  (msg, rest) ← master_loop (suc (length bytes)) [] bytes
  guard (leb 3 (length msg) && leb (length msg) 6) invalid_data
  ok (send_master_command msg, rest)

parse_wait_command : List ℕ → Result (SecCommand × List ℕ)
parse_wait_command bytes = do (ms, rest) ← parse_wait bytes; ok (wait (from_millis ms), rest)

-- The `match` on the current byte.
parse_command : ℕ → List ℕ → Result (SecCommand × List ℕ)
unfolding parse_wait_command
parse_command c rest =
    if c == b't'
    then ok (set_tone tone_off, rest)
    else if c == b'T'
    then ok (set_tone tone_on, rest)
    else if c == b'v'
    then ok (set_voltage v13, rest)
    else if c == b'V'
    then ok (set_voltage v18, rest)
    else if c == b'A'
    then ok (send_burst burst_a, rest)
    else if c == b'B'
    then ok (send_burst burst_b, rest)
    else if c == b'W'
    then parse_wait_command rest
    else if c == b'['
    then parse_master_command rest
    else err invalid_data

-- The loop of `parse`, on fuel as above.
parse_loop : ℕ → List SecCommand → List ℕ → Result (List SecCommand)
unfolding parse_command
parse_loop zero commands bytes = panic
parse_loop (suc fuel) commands bytes = elim (skip_whitespace bytes) [
  | [] ↦ ok commands
  | c ∷ rest ↦ elim (parse_command c rest) [
    | ok (command, left) ↦ parse_loop fuel (commands ++ (command ∷ [])) left
    | err e ↦ err e
    | panic ↦ panic
  ]
]

pub parse_sec_sequence : List ℕ → Result (List SecCommand)
unfolding parse_loop
parse_sec_sequence input = parse_loop (suc (length input)) [] input
