-- ===== src/Common/Print.antt =====
-- The conversions of `printf` that the sources use on integers.
use flip_de_flock.Common.{
  List, [], if◌then◌else◌, ltb, map, suc, zero, ℕ, ◌%◌, ◌+◌, ◌-◌, ◌/◌, ◌==◌, ◌^◌, ◌∷◌,
}
use flip_de_flock.Common.Bytes.{Bytes}
use flip_de_flock.Common.Int.{negsuc, pos, ℤ}

-- A digit of `%x`.
abbrev pub hex_digit : ℕ → ℕ
hex_digit n = if ltb n 10 then b'0' + n else b'a' + n - 10

abbrev pub u32_nibbles : ℕ → List ℕ
u32_nibbles v =
    v / 2 ^ 28 % 16
    ∷ v / 2 ^ 24 % 16
    ∷ v / 2 ^ 20 % 16
    ∷ v / 2 ^ 16 % 16
    ∷ v / 2 ^ 12 % 16
    ∷ v / 2 ^ 8 % 16
    ∷ v / 2 ^ 4 % 16
    ∷ v % 16
    ∷ []

-- `%08lx` of a `uint32_t`.
unfoldable pub hex_u32 : ℕ → Bytes
hex_u32 v = map hex_digit (u32_nibbles v)

-- The digits of a number in front of `rest`, with fuel for that many digits.
unfoldable pub decimal_loop : ℕ → ℕ → Bytes → Bytes
decimal_loop zero n rest = rest
decimal_loop (suc f) n rest =
    let out = (b'0' + n % 10) ∷ rest in
    let more = decimal_loop f (n / 10) out in if n / 10 == 0 then out else more

-- `%u` and `%lu`: a `uint32_t` has at most ten digits.
unfoldable pub decimal : ℕ → Bytes
unfolding decimal_loop
decimal n = decimal_loop 10 n []

-- `%d`
unfoldable pub decimal_ℤ : ℤ → Bytes
decimal_ℤ (pos n) = decimal n
decimal_ℤ (negsuc n) = b'-' ∷ decimal (n + 1)
