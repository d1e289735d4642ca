-- ===== src/ReportFmt/Shape.antt =====
-- What a report may reveal.
use flip_de_flock.Common.{
  Bool-cases, [], ap, arith, inl, inr, ltb, ltb→lt, map, some, subst, suc, take, take-nil, ℕ, ◌+◌,
  ◌-◌, ◌∙◌, ◌∷◌, ◌≡◌, ◌≢◌, ◌⊎◌,
}
use flip_de_flock.Common.Bytes.{Bytes}
use flip_de_flock.Common.Int.{pos, ℤ, ◌≤ℤ◌}
use flip_de_flock.Common.Search.{All}
use flip_de_flock.ReportFmt.{fmt_signal_level, fmt_ssid_shape, shape_loop, shape_of}

-- The bytes that a shape is written in.
abbrev pub IsMask : ℕ → Type 0
IsMask c =
    (c ≡ b'A')
    ⊎ ((c ≡ b'a') ⊎ ((c ≡ b'd') ⊎ ((c ≡ b'-') ⊎ ((c ≡ b'_') ⊎ ((c ≡ b'.') ⊎ (c ≡ b'?'))))))

shape_of-IsMask : (c : ℕ) → IsMask (shape_of c)
unfolding shape_of
shape_of-IsMask c = ground arith

shape_loop-IsMask : (n o : ℕ) (s : Bytes) → All IsMask (shape_loop n o s)
unfolding shape_loop
shape_loop-IsMask n o [] = tt
shape_loop-IsMask n o (c ∷ s) = ground (arith, shape_of-IsMask c, shape_loop-IsMask n (o + 1) s)

shape_loop-take : (n o : ℕ) (s : Bytes) → shape_loop n o s ≡ map shape_of (take (n - 1 - o) s)
unfolding shape_loop
shape_loop-take n o [] = rw (take-nil (n - 1 - o))
shape_loop-take n o (c ∷ s) = elim (Bool-cases (ltb (o + 1) n)) [
  | inl room ↦
      let e : n - 1 - o ≡ suc (n - 1 - (o + 1)) = omega (arith, ltb→lt (o + 1) n room) in
      rw (room, e) (ap (λ t. shape_of c ∷ t) (shape_loop-take n (o + 1) s))
  | inr over ↦ let e : n - 1 - o ≡ 0 = ground arith in rw (over, e)
]

-- The shape of a name that is not empty is its bytes one by one, cut to the buffer, each replaced
-- by one of seven mask characters: no letter and no digit of the name is in it.
ssid_shape_reveals_no_text :
    (n c : ℕ) (s : Bytes)
    → (fmt_ssid_shape (suc n) (some (c ∷ s)) ≡ some (map shape_of (take n (c ∷ s))))
      × All IsMask (map shape_of (take n (c ∷ s)))
unfolding fmt_ssid_shape
ssid_shape_reveals_no_text n c s =
    let e = shape_loop-take (suc n) 0 (c ∷ s) in
    let k : suc n - 1 - 0 ≡ n = omega arith in
    (
      ground (arith, e ∙ ap (λ t. map shape_of (take t (c ∷ s))) k),
      subst (All IsMask) (e ∙ ap (λ t. map shape_of (take t (c ∷ s))) k)
          (shape_loop-IsMask (suc n) 0 (c ∷ s)),
    )

-- A signal reading that is there (not 0) shows between one and four bars.
pub signal_level_bounds :
    (rssi : ℤ) → rssi ≢ pos 0 → (pos 1 ≤ℤ fmt_signal_level rssi) × (fmt_signal_level rssi ≤ℤ pos 4)
unfolding fmt_signal_level
signal_level_bounds rssi h = ground arith
