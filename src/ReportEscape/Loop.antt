-- ===== src/ReportEscape/Loop.antt =====
-- The loop that the JSON, Markdown and XML functions share.
use flip_de_flock.Common.{
  Bool-cases, [], ap, arith, false, inl, inr, length, length-append, ltb, ltb→lt, refl, some, suc,
  take, ℕ, ◌++◌, ◌+◌, ◌-◌, ◌<◌, ◌∷◌, ◌≡◌, ◌≤◌, ◌⊎◌,
}
use flip_de_flock.Common.Bytes.{Bytes}
use flip_de_flock.ReportEscape.{escape_loop, escape_with}

-- The sequences of the bytes, joined.
abbrev pub spelled : (ℕ → Bytes) → Bytes → Bytes
spelled seq [] = []
spelled seq (c ∷ s) = seq c ++ spelled seq s

-- `k` is the number of bytes of the input that an output spells out.
pub record Cut (seq : ℕ → Bytes) (limit j : ℕ) (s out : Bytes) (k : ℕ) : Type 0 where
  pub whole : out ≡ spelled seq (take k s)
  pub fits : j ≤ limit → j + length out ≤ limit
  pub full : (k ≡ length s) ⊎ (limit < j + length (spelled seq (take (suc k) s)))

pub escape_loop-Cut :
    (seq : ℕ → Bytes) (limit j : ℕ) (s : Bytes)
    → (k : ℕ) × Cut seq limit j s (escape_loop seq limit j s) k
unfolding escape_loop
escape_loop-Cut seq limit j [] =
    (0, record { whole = refl; fits = λ h. omega arith; full = inl refl })
escape_loop-Cut seq limit j (c ∷ s) = elim (Bool-cases (ltb limit (j + length (seq c)))) [
  | inl over ↦ (
    0,
    rw over (record {
      whole = refl;
      fits = λ h. omega arith;
      full = inr (omega (arith, ltb→lt limit (j + length (seq c)) over, length-append (seq c) []));
    }),
  )
  | inr room ↦
      let (k, cut) = escape_loop-Cut seq limit (j + length (seq c)) s in
      let out = escape_loop seq limit (j + length (seq c)) s in
      (
        suc k,
        rw room (record {
          whole = ap (λ t. seq c ++ t) cut.whole;
          fits = λ h. fits_next c out room cut.fits;
          full = full_next c k cut.full;
        }),
      )
]
  where
    fits_next :
        (c : ℕ) (out : Bytes)
        → ltb limit (j + length (seq c)) ≡ false
        → (j + length (seq c) ≤ limit → j + length (seq c) + length out ≤ limit)
        → j + length (seq c ++ out) ≤ limit
    fits_next c out room next =
        let le : j + length (seq c) ≤ limit = ground arith in
        omega (arith, length-append (seq c) out, next le)

    full_next :
        (c k : ℕ)
        → (k ≡ length s) ⊎ (limit < j + length (seq c) + length (spelled seq (take (suc k) s)))
        → (suc k ≡ suc (length s)) ⊎ (limit < j + length (seq c ++ spelled seq (take (suc k) s)))
    full_next c k (inl e) = inl (omega arith)
    full_next c k (inr h) =
        inr (omega (arith, length-append (seq c) (spelled seq (take (suc k) s))))

-- Whatever the sequences are, the output of a buffer that is not empty spells out a prefix of the
-- input, sequence by sequence and none of them cut; it leaves room for the NUL; and the prefix is
-- the whole input unless one more byte would not have fitted.
pub escape_with_cuts :
    (seq : ℕ → Bytes) (s : Bytes) (n : ℕ)
    → (out : Bytes) × (k : ℕ) × (escape_with seq s (suc n) ≡ some out)
      × (out ≡ spelled seq (take k s))
      × (length out ≤ n)
      × ((k ≡ length s) ⊎ (n < length (spelled seq (take (suc k) s))))
unfolding escape_with
escape_with_cuts seq s n =
    let (k, cut) = escape_loop-Cut seq n 0 s in
    let e : suc n - 1 ≡ n = omega arith in
    (
      escape_loop seq n 0 s,
      k,
      rw e (ground arith),
      cut.whole,
      omega (arith, cut.fits (omega arith)),
      ground (arith, cut.full),
    )
