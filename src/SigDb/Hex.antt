-- ===== src/SigDb/Hex.antt =====
-- A line that was written for an address or a fingerprint is read back as that.
use flip_de_flock.Common.{
  ==_iff, Bool-cases, List, [], ap, arith, false, inl, inr, length, ltb, map, some, true, ℕ, ◌%◌,
  ◌*◌, ◌+◌, ◌/◌, ◌<◌, ◌==◌, ◌>>=◌, ◌^◌, ◌||◌, ◌∙◌, ◌∷◌, ◌≡◌, ◌≢◌, ◌≤◌,
}
use flip_de_flock.Common.Bytes.{Bytes}
use flip_de_flock.Common.HexNumbers.{IsNibble, spelled_hex, u32_spelled}
use flip_de_flock.Common.Mac.{Mac, mac_eq}
use flip_de_flock.Common.Print.{hex_digit, hex_u32, u32_nibbles}
use flip_de_flock.Common.Search.{All}
use flip_de_flock.FlockStore.RoundTrip.{IsMac}
use flip_de_flock.SigDb.{
  is_blank, is_no_device, learned_digits, learned_width, mac_nibbles, mac_of_value, sig_hex_nibble,
  sig_learned_parse_line, skip_blanks,
}

nibble_digit : (n : ℕ) → n < 16 → sig_hex_nibble (hex_digit n) ≡ some n
unfolding sig_hex_nibble
nibble_digit n h = ground arith

not_end : (n : ℕ) → n < 16 → (hex_digit n == b'\r' || hex_digit n == b'\n') ≡ false
not_end n h = ground arith

digit_step :
    (k v n : ℕ) (s : Bytes)
    → k < 12
    → n < 16
    → learned_digits k v (hex_digit n ∷ s) ≡ learned_digits (k + 1) (v * 16 + n) s
unfolding learned_digits
digit_step k v n s hk hn =
    let room : ltb 12 (k + 1) ≡ false = ground arith in rw (not_end n hn, nibble_digit n hn, room)

digits_read :
    (k v : ℕ) (ns : List ℕ)
    → All IsNibble ns
    → k + length ns ≤ 12
    → learned_digits k v (map hex_digit ns) ≡ some (k + length ns, spelled_hex v ns)
unfolding learned_digits
digits_read k v [] a h = ap (λ j. some (j, v)) (omega arith)
digits_read k v (n ∷ ns) a h =
    digit_step k v n (map hex_digit ns) (omega arith) a.0
    ∙ digits_read (k + 1) (v * 16 + n) ns a.1 (omega arith)
    ∙ ap (λ j. some (j, spelled_hex (v * 16 + n) ns)) (omega arith)

-- The first digit of a line is neither blank nor the start of a comment.
line_starts :
    (n : ℕ) (s : Bytes)
    → n < 16
    → sig_learned_parse_line (hex_digit n ∷ s)
      ≡ (learned_digits 0 0 (hex_digit n ∷ s) >>= learned_width)
unfolding sig_learned_parse_line skip_blanks
line_starts n s h =
    let solid : is_blank (hex_digit n) ≡ false = ground arith in
    let code_line : (hex_digit n == b'#') ≡ false = ground arith in rw (solid, code_line)

pub mac_nibbles-IsNibble : (m : Mac) → IsMac m → All IsNibble (mac_nibbles m)
mac_nibbles-IsNibble m v = omega arith

mac_spelled : (m : Mac) → IsMac m → mac_of_value (spelled_hex 0 (mac_nibbles m)) ≡ m
mac_spelled m v = ground arith

mac_zero : (m : Mac) → spelled_hex 0 (mac_nibbles m) ≡ 0 → is_no_device m ≡ true
unfolding is_no_device mac_eq
mac_zero m h = ground arith

-- The line of an address that a device can have gives the address back.
pub parse-mac_nibbles :
    (m : Mac)
    → IsMac m
    → is_no_device m ≡ false
    → (v : ℕ) × (sig_learned_parse_line (map hex_digit (mac_nibbles m)) ≡ some (12, v))
      × (mac_of_value v ≡ m)
unfolding learned_width
parse-mac_nibbles m v d =
    let w = spelled_hex 0 (mac_nibbles m) in
    let some_bit : (w == 0) ≡ false = elim (Bool-cases (w == 0)) [
      | inl z ↦ absurd (cc (mac_zero m ((==_iff w 0).0 z)))
      | inr p ↦ p
    ] in
    (
      w,
      line_starts (m.b0 / 16) _ (omega arith)
          ∙ rw (digits_read 0 0 (mac_nibbles m) (mac_nibbles-IsNibble m v) (omega arith), some_bit),
      mac_spelled m v,
    )

pub parse-hex_u32 :
    (fp : ℕ) → fp < 2 ^ 32 → fp ≢ 0 → sig_learned_parse_line (hex_u32 fp) ≡ some (8, fp)
unfolding learned_width hex_u32
parse-hex_u32 fp h z =
    let some_bit : (fp == 0) ≡ false = ground arith in
    line_starts (fp / 2 ^ 28 % 16) _ (omega arith)
    ∙ rw (digits_read 0 0 (u32_nibbles fp) (omega arith) (omega arith), u32_spelled fp h, some_bit)
