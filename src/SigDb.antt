-- ===== src/SigDb.antt =====
-- helpers/sig_db.c: the signatures and exclusions that the operator keeps on the card. Here: hex
-- text, addresses, and the line format of learned.txt and ignored.txt.
pub mod Storage
pub mod Lines
pub mod Learn
pub mod Hex
pub mod Text
pub mod Append
pub mod Exclusion
pub mod Refine
use flip_de_flock.Common.{
  Bool, List, Option, [], false, if◌then◌else◌, ltb, map, none, some, true, ℕ, ◌%◌, ◌*◌, ◌++◌, ◌+◌,
  ◌-◌, ◌/◌, ◌==◌, ◌>>=◌, ◌^◌, ◌||◌, ◌∷◌,
}
use flip_de_flock.Common.Bytes.{Bytes, between}
use flip_de_flock.Common.Mac.{Mac, mac_eq}
use flip_de_flock.Common.Print.{hex_digit, hex_u32}

-- A hex digit's value; `none` is the -1 of the source.
unfoldable pub sig_hex_nibble : ℕ → Option ℕ
sig_hex_nibble c =
    if between b'0' b'9' c
    then some (c - b'0')
    else if between b'a' b'f' c
    then some (c - b'a' + 10)
    else if between b'A' b'F' c
    then some (c - b'A' + 10)
    else none

abbrev pub is_blank : ℕ → Bool
is_blank c = c == b' ' || c == b'\t'

unfoldable pub skip_blanks : Bytes → Bytes
skip_blanks [] = []
skip_blanks (c ∷ s) = let rest = skip_blanks s in if is_blank c then rest else c ∷ s

-- The loop over the digits; `none` is the early `return 0`. Twelve digits fit a `uint64_t`, and the
-- low bits of `v << 4` are free, so `|` is a sum.
unfoldable pub learned_digits : ℕ → ℕ → Bytes → Option (ℕ × ℕ)
learned_digits digits v [] = some (digits, v)
learned_digits digits v (c ∷ s) =
    if c == b'\r' || c == b'\n' then some (digits, v) else elim (sig_hex_nibble c) [
      | none ↦ none
      | some d ↦ elim (ltb 12 (digits + 1)) [
        | true ↦ none
        | false ↦ learned_digits (digits + 1) (v * 16 + d) s
      ]
    ]

-- What follows the loop.
unfoldable pub learned_width : ℕ × ℕ → Option (ℕ × ℕ)
learned_width (digits, v) =
    if v == 0 then none else if digits == 8 || digits == 12 then some (digits, v) else none

-- The number of digits and the value; `none` is the 0 of the source.
unfoldable pub sig_learned_parse_line : Bytes → Option (ℕ × ℕ)
sig_learned_parse_line line = parsed (skip_blanks line)
  where
    parsed : Bytes → Option (ℕ × ℕ)
    parsed [] = none
    parsed (c ∷ s) = if c == b'#' then none else learned_digits 0 0 (c ∷ s) >>= learned_width

-- `(v >> ((5 - b) * 8)) & 0xFF`
abbrev pub mac_of_value : ℕ → Mac
mac_of_value v = record {
  b0 = v / 2 ^ 40 % 256;
  b1 = v / 2 ^ 32 % 256;
  b2 = v / 2 ^ 24 % 256;
  b3 = v / 2 ^ 16 % 256;
  b4 = v / 2 ^ 8 % 256;
  b5 = v % 256;
}

-- The addresses that no device has: all zero, and broadcast.
unfoldable pub is_no_device : Mac → Bool
is_no_device m = mac_eq m (mac_of_value 0) || mac_eq m (mac_of_value (2 ^ 48 - 1))

abbrev pub mac_nibbles : Mac → List ℕ
mac_nibbles m =
    m.b0 / 16
    ∷ m.b0 % 16
    ∷ m.b1 / 16
    ∷ m.b1 % 16
    ∷ m.b2 / 16
    ∷ m.b2 % 16
    ∷ m.b3 / 16
    ∷ m.b3 % 16
    ∷ m.b4 / 16
    ∷ m.b4 % 16
    ∷ m.b5 / 16
    ∷ m.b5 % 16
    ∷ []

-- The line of an address, `%02x` for each byte, which fits the buffer of 16 bytes.
unfoldable pub mac_line : Mac → Bytes
mac_line m = map hex_digit (mac_nibbles m) ++ b'\n' ∷ []

unfoldable pub fp_line : ℕ → Bytes
fp_line fp = hex_u32 fp ++ b'\n' ∷ []
