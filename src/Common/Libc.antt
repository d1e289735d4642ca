-- ===== src/Common/Libc.antt =====
-- `atoi`, `strtoul` and the casts of their results to narrower integers, as the sources use them.
-- `unsigned long` has 32 bits, as on the device. `atoi` is exact: a value past `int` is undefined
-- in C, and no caller is asked for one.
use flip_de_flock.Common.{
  Bool, [], false, if◌then◌else◌, ltb, min, true, ℕ, ◌%◌, ◌&&◌, ◌*◌, ◌+◌, ◌-◌, ◌==◌, ◌^◌, ◌||◌, ◌∷◌,
}
use flip_de_flock.Common.Bytes.{Bytes, between, char_at}
use flip_de_flock.Common.Int.{negsuc, pos, ℤ, ◌-ℤ◌}

abbrev pub is_space : ℕ → Bool
is_space c = c == b' ' || between 9 13 c

unfoldable pub skip_space : Bytes → Bytes
skip_space [] = []
skip_space (c ∷ s) = let rest = skip_space s in if is_space c then rest else c ∷ s

-- Whether a minus sign leads, and what follows the sign.
unfoldable pub read_sign : Bytes → Bool × Bytes
read_sign [] = (false, [])
read_sign (c ∷ s) =
    if c == b'-' then (true, s) else if c == b'+' then (false, s) else (false, c ∷ s)

-- The value of a digit in bases up to 16; 16 is no digit.
unfoldable pub digit_value : ℕ → ℕ
digit_value c =
    if between b'0' b'9' c
    then c - b'0'
    else if between b'a' b'f' c
    then c - b'a' + 10
    else if between b'A' b'F' c
    then c - b'A' + 10
    else 16

-- The value of the leading digits, and what follows them.
unfoldable pub read_digits : ℕ → ℕ → Bytes → ℕ × Bytes
read_digits base acc [] = (acc, [])
read_digits base acc (c ∷ s) =
    let more = read_digits base (acc * base + digit_value c) s in
    if ltb (digit_value c) base then more else (acc, c ∷ s)

abbrev pub signed_value : Bool → ℕ → ℤ
signed_value true n = pos 0 -ℤ pos n
signed_value false n = pos n

unfoldable pub atoi : Bytes → ℤ
atoi s =
    let (minus, t) = read_sign (skip_space s) in
    let (n, rest) = read_digits 10 0 t in signed_value minus n

abbrev pub u32_max : ℕ
u32_max = 2 ^ 32 - 1

-- The "0x" that `strtoul` takes in base 16, if a digit follows.
unfoldable pub skip_0x : ℕ → Bytes → Bytes
skip_0x base (a ∷ (b ∷ (c ∷ s))) =
    if base == 16 && (a == b'0' && ((b == b'x' || b == b'X') && ltb (digit_value c) 16))
    then c ∷ s
    else a ∷ (b ∷ (c ∷ s))
skip_0x base s = s

abbrev pub negate_u32 : Bool → ℕ → ℕ
negate_u32 minus n = if ltb u32_max n then u32_max else if minus then (2 ^ 32 - n) % 2 ^ 32 else n

-- The value, and what `end` points to: the text itself where there is no digit.
unfoldable pub strtoul : ℕ → Bytes → ℕ × Bytes
strtoul base s =
    let (minus, t) = read_sign (skip_space s) in
    let u = skip_0x base t in
    if ltb (digit_value (char_at u 0)) base
    then (let (n, rest) = read_digits base 0 u in (negate_u32 minus n, rest))
    else (0, s)

abbrev pub strtoul_value : ℕ → Bytes → ℕ
strtoul_value base s = (strtoul base s).0

-- The value of `strtol` with base 10, clamped to a `long`, and what `end` points to.
unfoldable pub strtol : Bytes → ℤ × Bytes
strtol s =
    let (minus, t) = read_sign (skip_space s) in
    let (n, rest) = read_digits 10 0 t in
    if ltb (digit_value (char_at t 0)) 10
    then (signed_value minus (min n (if minus then 2 ^ 31 else 2 ^ 31 - 1)), rest)
    else (pos 0, s)

-- The residue of an integer modulo 2 ^ w, which is its cast to an unsigned type of `w` bits.
abbrev pub wrap : ℕ → ℤ → ℕ
wrap w (pos n) = n % 2 ^ w
wrap w (negsuc n) = 2 ^ w - 1 - n % 2 ^ w

abbrev pub to_u8 : ℤ → ℕ
to_u8 = wrap 8

abbrev pub to_u16 : ℤ → ℕ
to_u16 = wrap 16

-- The casts to `int8_t` and `int16_t`.
abbrev pub to_i8 : ℤ → ℤ
to_i8 x = let u = wrap 8 x in if ltb u 128 then pos u else negsuc (255 - u)

abbrev pub to_i16 : ℤ → ℤ
to_i16 x = let u = wrap 16 x in if ltb u 32768 then pos u else negsuc (65535 - u)
