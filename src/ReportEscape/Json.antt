-- ===== src/ReportEscape/Json.antt =====
-- The JSON output against the grammar of RFC 8259.
use flip_de_flock.Common.{
  Bool-cases, [], arith, inl, inr, ltb, ltb→lt, refl, some, subst, suc, sym, take, ℕ, ◌%◌, ◌++◌,
  ◌/◌, ◌<◌, ◌==◌, ◌∷◌, ◌≡◌, ◌≢◌, ◌≤◌, ◌⊎◌,
}
use flip_de_flock.Common.Bytes.{Bytes}
use flip_de_flock.Common.Print.{hex_digit}
use flip_de_flock.ReportEscape.{json_escape, json_seq, quote}
use flip_de_flock.ReportEscape.Loop.{escape_with_cuts, spelled}

abbrev pub IsHex : ℕ → Type 0
IsHex c = ((b'0' ≤ c) × (c ≤ b'9')) ⊎ ((b'a' ≤ c) × (c ≤ b'f'))

-- The content of a JSON string: plain characters, which are no control characters and neither a
-- quote nor a backslash, two-byte escapes, and \u with four hex digits.
pub data JsonBody : Bytes → Type 0 where
  done : JsonBody []
  plain : {c : ℕ} {s : Bytes} → 0x20 ≤ c → c ≢ quote → c ≢ b'\\' → JsonBody s → JsonBody (c ∷ s)
  short :
      {b c : ℕ} {s : Bytes}
      → b ≡ b'\\'
      → (c ≡ quote) ⊎ ((c ≡ b'\\') ⊎ ((c ≡ b'n') ⊎ ((c ≡ b'r') ⊎ (c ≡ b't'))))
      → JsonBody s
      → JsonBody (b ∷ c ∷ s)
  unicode :
      {b u d e f g : ℕ} {s : Bytes}
      → b ≡ b'\\'
      → u ≡ b'u'
      → IsHex d × IsHex e × IsHex f × IsHex g
      → JsonBody s
      → JsonBody (b ∷ u ∷ d ∷ e ∷ f ∷ g ∷ s)

-- The ways in which a byte is spelled.
data Spelling (c : ℕ) : Bytes → Type 0 where
  itself : 0x20 ≤ c → c ≢ quote → c ≢ b'\\' → Spelling c (c ∷ [])
  pair :
      {b d : ℕ}
      → b ≡ b'\\'
      → (d ≡ quote) ⊎ ((d ≡ b'\\') ⊎ ((d ≡ b'n') ⊎ ((d ≡ b'r') ⊎ (d ≡ b't'))))
      → Spelling c (b ∷ d ∷ [])
  control :
      {b u d e f g : ℕ}
      → b ≡ b'\\'
      → u ≡ b'u'
      → IsHex d × IsHex e × IsHex f × IsHex g
      → Spelling c (b ∷ u ∷ d ∷ e ∷ f ∷ g ∷ [])

hex_digit-IsHex : (n : ℕ) → n < 16 → IsHex (hex_digit n)
hex_digit-IsHex n h = ground arith

json_seq-Spelling : (c : ℕ) → Spelling c (json_seq c)
unfolding json_seq
json_seq-Spelling c = elim (Bool-cases (c == quote)) [
  | inl q ↦ rw q (pair refl (inl refl))
  | inr nq ↦ elim (Bool-cases (c == b'\\')) [
    | inl b ↦ rw (nq, b) (pair refl (inr (inl refl)))
    | inr nb ↦ elim (Bool-cases (c == b'\n')) [
      | inl n ↦ rw (nq, nb, n) (pair refl (inr (inr (inl refl))))
      | inr nn ↦ elim (Bool-cases (c == b'\r')) [
        | inl r ↦ rw (nq, nb, nn, r) (pair refl (inr (inr (inr (inl refl)))))
        | inr nr ↦ elim (Bool-cases (c == b'\t')) [
          | inl t ↦ rw (nq, nb, nn, nr, t) (pair refl (inr (inr (inr (inr refl)))))
          | inr nt ↦ elim (Bool-cases (ltb c 0x20)) [
            | inl low ↦
                rw (nq, nb, nn, nr, nt, low) (control refl refl (digits c (ltb→lt c 0x20 low)))
            | inr high ↦
                rw (nq, nb, nn, nr, nt, high)
                  (itself (ground arith) (λ e. ground arith) (λ e. ground arith))
          ]
        ]
      ]
    ]
  ]
]
  where
    digits :
        (c : ℕ)
        → c < 0x20
        → IsHex b'0' × IsHex b'0' × IsHex (hex_digit (c / 16)) × IsHex (hex_digit (c % 16))
    digits c h = (
      inl (omega arith, omega arith),
      inl (omega arith, omega arith),
      hex_digit-IsHex (c / 16) (omega arith),
      hex_digit-IsHex (c % 16) (omega arith),
    )

JsonBody-Spelling : {c : ℕ} {e s : Bytes} → Spelling c e → JsonBody s → JsonBody (e ++ s)
JsonBody-Spelling (itself l q b) s = plain l q b s
JsonBody-Spelling (pair b d) s = short b d s
JsonBody-Spelling (control b u h) s = unicode b u h s

spelled-JsonBody : (s : Bytes) → JsonBody (spelled json_seq s)
spelled-JsonBody [] = done
spelled-JsonBody (c ∷ s) = JsonBody-Spelling (json_seq-Spelling c) (spelled-JsonBody s)

-- Whatever bytes a name holds and wherever the buffer cuts it, what `json_escape` writes is the
-- content of a JSON string byte by byte: no control character, no bare quote, no backslash without
-- its escape. Nothing is said of the bytes from 128 on.
pub json_escape-JsonBody :
    (s : Bytes) (n : ℕ) → (out : Bytes) × (json_escape s (suc n) ≡ some out) × JsonBody out
unfolding json_escape
json_escape-JsonBody s n =
    let (out, k, written, is_spelled, len, full) = escape_with_cuts json_seq s n in
    (out, written, subst JsonBody (sym is_spelled) (spelled-JsonBody (take k s)))
