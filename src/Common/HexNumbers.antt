-- ===== src/Common/HexNumbers.antt =====
-- Hex numbers that were printed are read back.
use flip_de_flock.Common.{
  List, [], arith, false, ltb, map, refl, true, ℕ, ◌%◌, ◌*◌, ◌+◌, ◌/◌, ◌<◌, ◌==◌, ◌^◌, ◌∙◌, ◌∷◌,
  ◌≡◌,
}
use flip_de_flock.Common.Bytes.{Bytes}
use flip_de_flock.Common.Libc.{
  digit_value, is_space, read_digits, read_sign, skip_0x, skip_space, strtoul, u32_max,
}
use flip_de_flock.Common.Print.{hex_digit, hex_u32, u32_nibbles}
use flip_de_flock.Common.Search.{All}

-- Hex digits, in lower case.
abbrev pub IsNibble : ℕ → Type 0
IsNibble n = n < 16

-- The number that the digits spell, behind what was read before.
abbrev pub spelled_hex : ℕ → List ℕ → ℕ
spelled_hex v [] = v
spelled_hex v (n ∷ ns) = spelled_hex (v * 16 + n) ns

read_nibble :
    (acc n : ℕ) (s : Bytes)
    → n < 16
    → read_digits 16 acc (hex_digit n ∷ s) ≡ read_digits 16 (acc * 16 + n) s
unfolding read_digits digit_value
read_nibble acc n s h = ground arith

read_nibbles :
    (acc : ℕ) (ns : List ℕ)
    → All IsNibble ns
    → read_digits 16 acc (map hex_digit ns) ≡ (spelled_hex acc ns, [])
unfolding read_digits
read_nibbles acc [] a = refl
read_nibbles acc (n ∷ ns) a =
    read_nibble acc n (map hex_digit ns) a.0 ∙ read_nibbles (acc * 16 + n) ns a.1

pub u32_spelled : (v : ℕ) → v < 2 ^ 32 → spelled_hex 0 (u32_nibbles v) ≡ v
u32_spelled v h = omega arith

hex_value : (n : ℕ) → n < 16 → digit_value (hex_digit n) ≡ n
unfolding digit_value
hex_value n h = ground arith

no_prefix :
    (a b c : ℕ) (s : Bytes)
    → (b == b'x') ≡ false
    → (b == b'X') ≡ false
    → skip_0x 16 (a ∷ (b ∷ (c ∷ s))) ≡ a ∷ (b ∷ (c ∷ s))
unfolding skip_0x
no_prefix a b c s p q = ground arith

pub strtoul-hex_u32 : (v : ℕ) → v < 2 ^ 32 → strtoul 16 (hex_u32 v) ≡ (v, [])
unfolding strtoul skip_space read_sign hex_u32
strtoul-hex_u32 v h =
    let first = v / 2 ^ 28 % 16 in
    let second = v / 2 ^ 24 % 16 in
    let no_blank : is_space (hex_digit first) ≡ false = ground arith in
    let no_minus : (hex_digit first == b'-') ≡ false = ground arith in
    let no_plus : (hex_digit first == b'+') ≡ false = ground arith in
    let no_x : (hex_digit second == b'x') ≡ false = ground arith in
    let no_large_x : (hex_digit second == b'X') ≡ false = ground arith in
    let below : ltb first 16 ≡ true = ground arith in
    let small : ltb u32_max v ≡ false = ground arith in
    rw (
      no_blank,
      no_minus,
      no_plus,
      no_prefix (hex_digit first) (hex_digit second) _ _ no_x no_large_x,
      hex_value first (omega arith),
      below,
      read_nibbles 0 (u32_nibbles v) (omega arith),
      u32_spelled v h,
      small,
    )
