-- ===== src/Common/Numbers.antt =====
-- Numbers that were printed are read back.
use native.Mathlib.Nat.{pow-suc}
use flip_de_flock.Common.{
  ==_iff, Bool-cases, [], ap, arith, false, inl, inr, length, ltb, min, refl, suc, true, zero, ℕ,
  ◌%◌, ◌*◌, ◌+◌, ◌-◌, ◌/◌, ◌<◌, ◌==◌, ◌^◌, ◌∙◌, ◌∷◌, ◌≡◌, ◌≤◌,
}
use flip_de_flock.Common.Bytes.{Bytes, char_at}
use flip_de_flock.Common.Int.{negsuc, pos, ℤ, ◌-ℤ◌}
use flip_de_flock.Common.Libc.{
  digit_value, read_digits, read_sign, skip_0x, skip_space, strtol, strtoul, u32_max,
}
use flip_de_flock.Common.Print.{decimal, decimal_loop, decimal_ℤ}
use flip_de_flock.Common.Search.{All}

-- What stands behind a number does not go on with a digit.
abbrev pub NoDigit : Bytes → Type 0
NoDigit s = ltb (digit_value (char_at s 0)) 10 ≡ false

read_one :
    (acc d : ℕ) (s : Bytes)
    → d < 10
    → read_digits 10 acc ((b'0' + d) ∷ s) ≡ read_digits 10 (acc * 10 + d) s
unfolding read_digits digit_value
read_one acc d s h = ground arith

read_none : (acc : ℕ) (s : Bytes) → NoDigit s → read_digits 10 acc s ≡ (acc, s)
unfolding read_digits
read_none acc [] h = refl
read_none acc (c ∷ s) h = rw h

decimal_loop_read :
    (f n : ℕ) (rest : Bytes)
    → n < 10 ^ f
    → 0 < f
    → read_digits 10 0 (decimal_loop f n rest) ≡ read_digits 10 n rest
unfolding decimal_loop
decimal_loop_read zero n rest h p = absurd (omega arith)
decimal_loop_read (suc zero) n rest h p =
    let small : (n / 10 == 0) ≡ true = (==_iff (n / 10) 0).1 (omega arith) in
    rw small
      (read_one 0 (n % 10) rest (omega arith) ∙ ap (λ m. read_digits 10 m rest) (omega arith))
decimal_loop_read (suc (suc f)) n rest h p = elim (Bool-cases (n / 10 == 0)) [
  | inl small ↦
      let none_left = (==_iff (n / 10) 0).0 small in
      rw small
        (read_one 0 (n % 10) rest (omega arith) ∙ ap (λ m. read_digits 10 m rest) (omega arith))
  | inr large ↦ rw large (
      decimal_loop_read (suc f) (n / 10) ((b'0' + n % 10) ∷ rest)
        (omega (arith, h, pow-suc 10 (suc f))) (omega arith)
      ∙ read_one (n / 10) (n % 10) rest (omega arith)
      ∙ ap (λ m. read_digits 10 m rest) (omega arith))
]

pub decimal_read : (n : ℕ) → n < 2 ^ 32 → read_digits 10 0 (decimal n) ≡ (n, [])
unfolding decimal digit_value
decimal_read n h = decimal_loop_read 10 n [] (omega arith) (omega arith) ∙ read_none n [] refl

abbrev pub IsDigit : ℕ → Type 0
IsDigit c = (b'0' ≤ c) × (c ≤ b'9')

decimal_loop-All : (f n : ℕ) (rest : Bytes) → All IsDigit rest → All IsDigit (decimal_loop f n rest)
unfolding decimal_loop
decimal_loop-All zero n rest a = a
decimal_loop-All (suc f) n rest a = elim (Bool-cases (n / 10 == 0)) [
  | inl small ↦ rw small ((omega arith, omega arith), a)
  | inr large ↦
      rw large
        (decimal_loop-All f (n / 10) ((b'0' + n % 10) ∷ rest) ((omega arith, omega arith), a))
]

pub decimal-All : (n : ℕ) → All IsDigit (decimal n)
unfolding decimal
decimal-All n = decimal_loop-All 10 n [] tt

length-decimal_loop :
    (f n : ℕ) (rest : Bytes)
    → (length rest < length (decimal_loop (suc f) n rest))
      × (length (decimal_loop f n rest) ≤ f + length rest)
unfolding decimal_loop
length-decimal_loop zero n rest = elim (Bool-cases (n / 10 == 0)) [
  | inl small ↦ rw small (omega arith, omega arith)
  | inr large ↦ rw large (omega arith, omega arith)
]
length-decimal_loop (suc f) n rest = elim (Bool-cases (n / 10 == 0)) [
  | inl small ↦ rw small (omega arith, omega arith)
  | inr large ↦
      let (more, most) = length-decimal_loop f (n / 10) ((b'0' + n % 10) ∷ rest) in
      rw large (omega arith, omega arith)
]

-- A number has one digit at least, and ten at most.
pub length-decimal : (n : ℕ) → (0 < length (decimal n)) × (length (decimal n) ≤ 10)
unfolding decimal
length-decimal n = ((length-decimal_loop 9 n []).0, omega (arith, (length-decimal_loop 10 n []).1))

decimal_loop_width :
    (f k n : ℕ) (rest : Bytes)
    → n < 10 ^ suc k
    → length (decimal_loop f n rest) ≤ suc k + length rest
unfolding decimal_loop
decimal_loop_width zero k n rest h = omega arith
decimal_loop_width (suc f) zero n rest h =
    let small : (n / 10 == 0) ≡ true = (==_iff (n / 10) 0).1 (omega arith) in rw small (omega arith)
decimal_loop_width (suc f) (suc k) n rest h = elim (Bool-cases (n / 10 == 0)) [
  | inl small ↦ rw small (omega arith)
  | inr large ↦
      let ih =
        decimal_loop_width f k (n / 10) ((b'0' + n % 10) ∷ rest)
          (omega (arith, h, pow-suc 10 (suc k))) in
      rw large (omega arith)
]

-- A number below a power of ten has no more digits than that.
pub decimal_width : (k n : ℕ) → n < 10 ^ suc k → length (decimal n) ≤ suc k
unfolding decimal
decimal_width k n h = omega (arith, decimal_loop_width 10 k n [] h)

-- A text that starts with a digit has no blank and no sign in front.
skip_space-digit : (c : ℕ) (s : Bytes) → IsDigit c → skip_space (c ∷ s) ≡ c ∷ s
unfolding skip_space
skip_space-digit c s h = ground arith

read_sign-digit : (c : ℕ) (s : Bytes) → IsDigit c → read_sign (c ∷ s) ≡ (false, c ∷ s)
unfolding read_sign
read_sign-digit c s h = ground arith

skip_0x-decimal : (s : Bytes) → skip_0x 10 s ≡ s
unfolding skip_0x
skip_0x-decimal [] = refl
skip_0x-decimal (a ∷ []) = refl
skip_0x-decimal (a ∷ (b ∷ [])) = refl
skip_0x-decimal (a ∷ (b ∷ (c ∷ s))) = refl

digit_below : (c : ℕ) → IsDigit c → ltb (digit_value c) 10 ≡ true
unfolding digit_value
digit_below c h = ground arith

pub strtoul-digits :
    (s : Bytes) (n : ℕ)
    → 0 < length s
    → All IsDigit s
    → n < 2 ^ 32
    → read_digits 10 0 s ≡ (n, [])
    → strtoul 10 s ≡ (n, [])
unfolding strtoul
strtoul-digits [] n l a h e = elim l [ ]
strtoul-digits (c ∷ s) n l a h e =
    let short : ltb u32_max n ≡ false = ground arith in
    rw (
      skip_space-digit c s a.0,
      read_sign-digit c s a.0,
      skip_0x-decimal (c ∷ s),
      digit_below c a.0,
      e,
      short,
    )

pub strtoul-decimal : (n : ℕ) → n < 2 ^ 32 → strtoul 10 (decimal n) ≡ (n, [])
strtoul-decimal n h =
    strtoul-digits (decimal n) n (length-decimal n).0 (decimal-All n) h (decimal_read n h)

strtol_plus :
    (s : Bytes) (n : ℕ)
    → 0 < length s
    → All IsDigit s
    → n ≤ 2 ^ 31 - 1
    → read_digits 10 0 s ≡ (n, [])
    → strtol s ≡ (pos n, [])
unfolding strtol
strtol_plus [] n l a h e = elim l [ ]
strtol_plus (c ∷ s) n l a h e =
    let fits : min n (2 ^ 31 - 1) ≡ n = omega arith in
    rw (skip_space-digit c s a.0, read_sign-digit c s a.0, digit_below c a.0, e, fits)

strtol_minus :
    (s : Bytes) (n : ℕ)
    → 0 < length s
    → All IsDigit s
    → n + 1 ≤ 2 ^ 31
    → read_digits 10 0 s ≡ (n + 1, [])
    → strtol (b'-' ∷ s) ≡ (negsuc n, [])
unfolding strtol skip_space read_sign
strtol_minus [] n l a h e = elim l [ ]
strtol_minus (c ∷ s) n l a h e =
    let fits : min (n + 1) (2 ^ 31) ≡ n + 1 = omega arith in
    rw (digit_below c a.0, e, fits) (unfold ◌-ℤ◌ in ground arith)

abbrev pub IsI32 : ℤ → Type 0
IsI32 (pos n) = n ≤ 2 ^ 31 - 1
IsI32 (negsuc n) = n + 1 ≤ 2 ^ 31

pub strtol-decimal_ℤ : (x : ℤ) → IsI32 x → strtol (decimal_ℤ x) ≡ (x, [])
unfolding decimal_ℤ
strtol-decimal_ℤ (pos n) h =
    strtol_plus (decimal n) n (length-decimal n).0 (decimal-All n) h (decimal_read n (omega arith))
strtol-decimal_ℤ (negsuc n) h =
    strtol_minus (decimal (n + 1)) n (length-decimal (n + 1)).0 (decimal-All (n + 1)) h
      (decimal_read (n + 1) (omega arith))
