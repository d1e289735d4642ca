-- ===== src/EspParser/Payload.antt =====
-- Bytes sent as hex.
use flip_de_flock.Common.{
  Bool, Option-cases, [], ap₂, arith, false, if◌then◌else◌, inl, inr, length, ltb, none, refl, some,
  subst, suc, sym, true, zero, ℕ, ◌%◌, ◌*◌, ◌++◌, ◌+◌, ◌-◌, ◌/◌, ◌<◌, ◌∙◌, ◌∷◌, ◌≡◌, ◌≤◌,
}
use flip_de_flock.Common.Bytes.{Bytes, char_at}
use flip_de_flock.Common.Search.{All}
use flip_de_flock.EspParser.Fields.{esp_hexval, hex_bytes}
use flip_de_flock.ReportFmt.{hex_upper}

-- A digit in one of its two spellings: `%X` or `%x`.
abbrev pub hex_spelled : Bool → ℕ → ℕ
hex_spelled true n = hex_upper n
hex_spelled false n = if ltb n 10 then b'0' + n else b'a' + n - 10

-- Two digits for each byte, each digit in the case that `upper` names for its place.
abbrev pub hex_text : (ℕ → Bool) → Bytes → Bytes
hex_text upper [] = []
hex_text upper (b ∷ bs) =
    hex_spelled (upper 0) (b / 16)
    ∷ hex_spelled (upper 1) (b % 16)
    ∷ hex_text (λ place. upper (place + 2)) bs

abbrev pub IsByte : ℕ → Type 0
IsByte b = b < 256

hexval-hex_spelled : (u : Bool) (n : ℕ) → n < 16 → esp_hexval (hex_spelled u n) ≡ some n
unfolding esp_hexval
hexval-hex_spelled true n h = ground arith
hexval-hex_spelled false n h = ground arith

hexval-lt : (c n : ℕ) → esp_hexval c ≡ some n → n < 16
unfolding esp_hexval
hexval-lt c n h = ground arith

-- The two ways that a step of the loop ends.
hex_bytes-stop : (room a : ℕ) (s : Bytes) → esp_hexval a ≡ none → hex_bytes (suc room) (a ∷ s) ≡ []
unfolding hex_bytes
hex_bytes-stop room a [] e = refl
hex_bytes-stop room a (b ∷ s) e = ground (arith, e)

hex_bytes-stop_low :
    (room a b : ℕ) (s : Bytes) → esp_hexval b ≡ none → hex_bytes (suc room) (a ∷ b ∷ s) ≡ []
unfolding hex_bytes
hex_bytes-stop_low room a b s e = ground (arith, e)

hex_bytes-step :
    (room a b hi lo : ℕ) (s : Bytes)
    → esp_hexval a ≡ some hi
    → esp_hexval b ≡ some lo
    → hex_bytes (suc room) (a ∷ b ∷ s) ≡ (hi * 16 + lo) ∷ hex_bytes room s
unfolding hex_bytes
hex_bytes-step room a b hi lo s e k = ground (arith, e, k)

abbrev Fits : ℕ → Bytes → Type 0
Fits room s = (length s ≤ room) × All IsByte s

-- Whatever the text, what is read of it fits the buffer and consists of bytes.
pub hex_bytes_fits :
    (room : ℕ) (s : Bytes) → (length (hex_bytes room s) ≤ room) × All IsByte (hex_bytes room s)
unfolding hex_bytes
hex_bytes_fits zero s = (omega arith, tt)
hex_bytes_fits (suc room) [] = (omega arith, tt)
hex_bytes_fits (suc room) (a ∷ []) = (omega arith, tt)
hex_bytes_fits (suc room) (a ∷ (b ∷ s)) =
    let ih = hex_bytes_fits room s in
    elim (Option-cases (esp_hexval a)) [
      | inl h ↦ subst (Fits (suc room)) (sym (hex_bytes-stop room a (b ∷ s) h)) (omega arith, tt)
      | inr (hi, h) ↦ elim (Option-cases (esp_hexval b)) [
        | inl k ↦ subst (Fits (suc room)) (sym (hex_bytes-stop_low room a b s k)) (omega arith, tt)
        | inr (lo, k) ↦
            subst (Fits (suc room)) (sym (hex_bytes-step room a b hi lo s h k))
              (omega (arith, ih.0), (omega (arith, hexval-lt a hi h, hexval-lt b lo k), ih.1))
      ]
    ]

-- Bytes that fit the buffer, written as hex in either case, are read back, whatever is not hex
-- follows them.
pub hex_bytes_reads_back :
    (upper : ℕ → Bool) (room : ℕ) (bs rest : Bytes)
    → All IsByte bs
    → length bs ≤ room
    → esp_hexval (char_at rest 0) ≡ none
    → hex_bytes room (hex_text upper bs ++ rest) ≡ bs
unfolding hex_bytes
hex_bytes_reads_back upper zero [] rest p l e = refl
hex_bytes_reads_back upper (suc room) [] [] p l e = refl
hex_bytes_reads_back upper (suc room) [] (c ∷ rest) p l e = hex_bytes-stop room c rest e
hex_bytes_reads_back upper zero (b ∷ bs) rest p l e = absurd (omega arith)
hex_bytes_reads_back upper (suc room) (b ∷ bs) rest p l e =
    let later = λ (place : ℕ). upper (place + 2) in
    hex_bytes-step room (hex_spelled (upper 0) (b / 16)) (hex_spelled (upper 1) (b % 16)) (b / 16)
      (b % 16) (hex_text later bs ++ rest)
      (hexval-hex_spelled (upper 0) (b / 16) (omega (arith, p.0)))
      (hexval-hex_spelled (upper 1) (b % 16) (omega arith))
    ∙ ap₂ (λ x xs. x ∷ xs) (omega arith)
        (hex_bytes_reads_back later room bs rest p.1 (omega arith) e)
