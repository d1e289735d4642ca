-- ===== src/FlockStore/Field.antt =====
-- Reading back what `csv_field_escape` wrote.
use flip_de_flock.Common.{
  Bool, Bool-cases, [], ap, arith, false, if◌then◌else◌, inl, inr, length, ltb, ltb→lt, refl, some,
  suc, take, true, zero, ℕ, ◌*◌, ◌++◌, ◌+◌, ◌<◌, ◌==◌, ◌∷◌, ◌≡◌, ◌≤◌,
}
use flip_de_flock.Common.Bytes.{Bytes}
use flip_de_flock.Common.Search.{any_of}
use flip_de_flock.FlockStore.{bump, put_part, read_plain, read_quoted}
use flip_de_flock.ReportEscape.{csv_special, quote, quote_body}

-- The bytes with each quote written twice.
abbrev pub doubled : Bytes → Bytes
doubled [] = []
doubled (c ∷ s) = if c == quote then quote ∷ quote ∷ doubled s else c ∷ doubled s

-- The escaped body is the doubled form of a prefix, which is all of the input if there is room.
pub quote_body-doubled :
    (limit j : ℕ) (s : Bytes)
    → (k : ℕ) × (quote_body limit j s ≡ doubled (take k s))
      × (k ≤ length s)
      × (j + 2 * length s ≤ limit → k ≡ length s)
unfolding quote_body
quote_body-doubled limit j [] = (0, refl, omega arith, λ h. refl)
quote_body-doubled limit j (c ∷ s) = elim (Bool-cases (c == quote)) [
  | inl q ↦ elim (Bool-cases (ltb limit (j + 2))) [
    | inl over ↦
        (0, rw (q, over), omega arith, λ h. absurd (omega (arith, ltb→lt limit (j + 2) over)))
    | inr room ↦
        let (k, e, le, all) = quote_body-doubled limit (j + 2) s in
        (
          suc k,
          rw (q, room) (ap (λ t. quote ∷ quote ∷ t) e),
          omega arith,
          λ h. ap suc (all (omega arith)),
        )
  ]
  | inr p ↦ elim (Bool-cases (ltb limit (j + 1))) [
    | inl over ↦
        (0, rw (p, over), omega arith, λ h. absurd (omega (arith, ltb→lt limit (j + 1) over)))
    | inr room ↦
        let (k, e, le, all) = quote_body-doubled limit (j + 1) s in
        (suc k, rw (p, room) (ap (λ t. c ∷ t) e), omega arith, λ h. ap suc (all (omega arith)))
  ]
]

read_quoted_plain :
    (n w c : ℕ) (t : Bytes)
    → (c == quote) ≡ false
    → read_quoted n w (c ∷ t) ≡ put_part n w c (read_quoted n (bump n w) t)
unfolding read_quoted
read_quoted_plain n w c [] h = rw h
read_quoted_plain n w c (d ∷ t) h = rw h

-- A buffer with room for the whole field loses nothing of it.
pub read_quoted-doubled :
    (n w : ℕ) (s : Bytes) (rest : Bytes)
    → w + length s < n
    → read_quoted n w (doubled s ++ (quote ∷ b',' ∷ rest)) ≡ some (s, b',' ∷ rest)
unfolding read_quoted
read_quoted-doubled n w [] rest h = refl
read_quoted-doubled n w (c ∷ s) rest h =
    let room : ltb (w + 1) n ≡ true = ground arith in
    let ih = read_quoted-doubled n (w + 1) s rest (omega arith) in
    elim (Bool-cases (c == quote)) [
      | inl q ↦ rw (q, room, ih) (ground arith)
      | inr p ↦
          rw (p, read_quoted_plain n w c (doubled s ++ (quote ∷ b',' ∷ rest)) p, room, ih)
            (ground arith)
    ]

-- A field with no comma is read up to the comma behind it.
pub read_plain_lem :
    (n w : ℕ) (s rest : Bytes)
    → any_of csv_special s ≡ false
    → w + length s < n
    → read_plain n w (s ++ (b',' ∷ rest)) ≡ (s, b',' ∷ rest)
unfolding read_plain any_of
read_plain_lem n w [] rest h l = refl
read_plain_lem n w (c ∷ s) rest h l =
    ground (arith, read_plain_lem n (w + 1) s rest (ground arith) (omega arith))

pub any_of-take :
    (p : ℕ → Bool) (k : ℕ) (s : Bytes) → any_of p s ≡ false → any_of p (take k s) ≡ false
unfolding any_of
any_of-take p zero s h = refl
any_of-take p (suc k) [] h = refl
any_of-take p (suc k) (c ∷ s) h = ground (arith, any_of-take p k s)
