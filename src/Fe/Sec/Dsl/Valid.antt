-- ===== src/Fe/Sec/Dsl/Valid.antt =====
-- What the parser returns: it always ends, and its master commands can be sent.
use libdvb.Prelude.{
  ℕ, zero, suc, ◌+◌, ◌-◌, ◌*◌, ◌≤◌, ◌<◌, ◌≡◌, arith, List, [], ◌∷◌, ◌++◌, length, All, All-append,
  IsByte, bit_or, shl, u8, Result, ok, err, panic, Yields, Yields-bind, Yields-guard, Yields-if,
  Yields-map, leb, ◌==◌, ◌&&◌, invalid_data,
}
use libdvb.Prelude.Bits.{bit_or_disjoint}
use libdvb.Fe.Sec.Dsl.{
  SecCommand, send_master_command, set_tone, set_voltage, send_burst, wait, skip_whitespace,
  parse_digits, parse_wait, parse_wait_command, hex_value, parse_hex_nibble, MasterItem, closing,
  byte, master_item, master_loop, parse_master_command, parse_command, parse_loop,
  parse_sec_sequence,
}

-- A master command has three to six bytes.
abbrev pub IsSendable : SecCommand → Type 0
IsSendable (send_master_command msg) = (3 ≤ length msg) × (length msg ≤ 6) × All IsByte msg
IsSendable (set_tone tone) = Unit
IsSendable (set_voltage voltage) = Unit
IsSendable (send_burst burst) = Unit
IsSendable (wait duration) = Unit

length-skip_whitespace : (bytes : List ℕ) → length (skip_whitespace bytes) ≤ length bytes
unfolding skip_whitespace
length-skip_whitespace [] = omega arith
length-skip_whitespace (c ∷ rest) = ground (arith, length-skip_whitespace rest)

-- `P` of what is read, and what is left is no longer than `n`.
abbrev Leaves : {A : Type 0} → (A → Type 0) → ℕ → A × List ℕ → Type 0
Leaves P n (a, rest) = P a × (length rest ≤ n)

parse_digits_left :
    (value : ℕ) (bytes : List ℕ)
    → Yields (Leaves (λ _. Unit) (length bytes)) (parse_digits value bytes)
unfolding parse_digits
parse_digits_left value [] = (tt, omega arith)
parse_digits_left value (c ∷ rest) =
    ground (arith, parse_digits_left (value * 10 + (c - b'0')) rest)

hex_value_bound : (c : ℕ) → Yields (λ v. v < 16) (hex_value c)
unfolding hex_value
hex_value_bound c = ground arith

parse_hex_nibble_bound :
    (bytes : List ℕ)
    → Yields (λ r. (r.0 < 16) × (length r.1 + 1 ≡ length bytes)) (parse_hex_nibble bytes)
unfolding parse_hex_nibble
parse_hex_nibble_bound [] = tt
parse_hex_nibble_bound (c ∷ rest) = ground (arith, hex_value_bound c)

or_nibbles : (high low : ℕ) → high < 16 → low < 16 → IsByte (bit_or (u8 (shl high 4)) low)
or_nibbles high low h k = ground (arith, bit_or_disjoint 4 high low)

abbrev Item : ℕ → MasterItem → Type 0
Item n (closing rest) = length rest < n
Item n (byte value rest) = IsByte value × (length rest < n)

master_item_bound : (bytes : List ℕ) → Yields (Item (length bytes)) (master_item bytes)
unfolding master_item
master_item_bound [] = tt
master_item_bound (c ∷ rest) =
    Yields-if (Item (suc (length rest))) (c == b']') (ok (closing rest)) _ (omega arith) (
      Yields-bind _ _ (parse_hex_nibble (c ∷ rest)) _ (parse_hex_nibble_bound (c ∷ rest)) λ r h.
        Yields-bind _ _ (parse_hex_nibble r.1) _ (parse_hex_nibble_bound r.1)
          λ r' h'. (or_nibbles r.0 r'.0 h.0 h'.0, omega (arith, h.1, h'.1)))

master_loop_bound :
    (fuel : ℕ) (msg bytes : List ℕ)
    → All IsByte msg
    → length bytes < fuel
    → Yields (Leaves (All IsByte) (length bytes)) (master_loop fuel msg bytes)
unfolding master_loop
master_loop_bound zero msg bytes h k = absurd (omega arith)
master_loop_bound (suc fuel) msg bytes h k =
    go (master_loop_bound fuel) (master_item (skip_whitespace bytes))
      (master_item_bound (skip_whitespace bytes))
  where
    go :
        ((read left : List ℕ)
          → All IsByte read
          → length left < fuel
          → Yields (Leaves (All IsByte) (length left)) (master_loop fuel read left))
        → (r : Result MasterItem) → Yields (Item (length (skip_whitespace bytes))) r
        → Yields (Leaves (All IsByte) (length bytes)) (elim r [
          | ok (closing rest) ↦ ok (msg, rest)
          | ok (byte value rest) ↦ master_loop fuel (msg ++ (value ∷ [])) rest
          | err e ↦ err e
          | panic ↦ panic
        ])
    go again (ok (closing rest)) e = (h, omega (arith, length-skip_whitespace bytes))
    go again (ok (byte value rest)) e =
        Yields-map _ _ (master_loop fuel (msg ++ (value ∷ [])) rest)
          (again (msg ++ (value ∷ [])) rest (All-append IsByte msg (value ∷ []) h (e.0, tt))
            (omega (arith, length-skip_whitespace bytes, e.1)))
          λ a l. (l.0, omega (arith, length-skip_whitespace bytes, e.1, l.1))
    go again (err e') e = tt
    go again panic e = e

-- The command that one round of the loop reads, and what it leaves.
abbrev Command : ℕ → SecCommand × List ℕ → Type 0
Command n = Leaves IsSendable n

parse_master_command_bound :
    (bytes : List ℕ) → Yields (Command (length bytes)) (parse_master_command bytes)
unfolding parse_master_command
parse_master_command_bound bytes =
    Yields-bind _ _ (master_loop (suc (length bytes)) [] bytes) _
      (master_loop_bound (suc (length bytes)) [] bytes tt (omega arith))
      λ r h.
        Yields-guard _ (leb 3 (length r.0) && leb (length r.0) 6) invalid_data _
          λ e. ((ground arith, ground arith, h.0), h.1)

parse_wait_command_bound :
    (bytes : List ℕ) → Yields (Command (length bytes)) (parse_wait_command bytes)
unfolding parse_wait_command parse_wait
parse_wait_command_bound bytes = ground (arith, parse_digits_left 0 bytes)

parse_command_bound :
    (c : ℕ) (rest : List ℕ) → Yields (Command (length rest)) (parse_command c rest)
unfolding parse_command
parse_command_bound c rest =
    ground (arith, parse_wait_command_bound rest, parse_master_command_bound rest)

parse_loop_bound :
    (fuel : ℕ) (commands : List SecCommand) (bytes : List ℕ)
    → All IsSendable commands
    → length bytes < fuel
    → Yields (All IsSendable) (parse_loop fuel commands bytes)
unfolding parse_loop
parse_loop_bound zero commands bytes h k = absurd (omega arith)
parse_loop_bound (suc fuel) commands bytes h k =
    start (parse_loop_bound fuel) (skip_whitespace bytes) (length-skip_whitespace bytes)
  where
    next :
        ((read : List SecCommand) (left : List ℕ)
          → All IsSendable read
          → length left < fuel
          → Yields (All IsSendable) (parse_loop fuel read left))
        → (n : ℕ) → n < fuel
        → (r : Result (SecCommand × List ℕ)) → Yields (Command n) r
        → Yields (All IsSendable) (elim r [
          | ok (command, left) ↦ parse_loop fuel (commands ++ (command ∷ [])) left
          | err e ↦ err e
          | panic ↦ panic
        ])
    next again n b (ok (command, left)) e =
        again (commands ++ (command ∷ [])) left
          (All-append IsSendable commands (command ∷ []) h (e.0, tt)) (omega (arith, e.1))
    next again n b (err e') e = tt
    next again n b panic e = e

    start :
        ((read : List SecCommand) (left : List ℕ)
          → All IsSendable read
          → length left < fuel
          → Yields (All IsSendable) (parse_loop fuel read left))
        → (found : List ℕ) → length found ≤ length bytes
        → Yields (All IsSendable) (elim found [
          | [] ↦ ok commands
          | c ∷ rest ↦ elim (parse_command c rest) [
            | ok (command, left) ↦ parse_loop fuel (commands ++ (command ∷ [])) left
            | err e ↦ err e
            | panic ↦ panic
          ]
        ])
    start again [] l = h
    start again (c ∷ rest) l =
        next again (length rest) (omega arith) (parse_command c rest) (parse_command_bound c rest)

-- The parser ends on every text, without an index out of range, and each master command that it
-- returns has three to six bytes.
pub parse_sec_sequence_total : (input : List ℕ) → Yields (All IsSendable) (parse_sec_sequence input)
unfolding parse_sec_sequence
parse_sec_sequence_total input = parse_loop_bound (suc (length input)) [] input tt (omega arith)
