-- ===== src/GpsParser/Checksum.antt =====
-- The checksum of a sentence, and a byte that is changed.
use mathlib.Core.Option.{some-injective}
use flip_de_flock.Common.{
  Bool, Bool-cases, Option, [], ap, arith, bit_xor, false, inl, inr, ltb, none, refl, some, suc,
  sym, true, zero, ℕ, ◌&&◌, ◌++◌, ◌+◌, ◌<◌, ◌==◌, ◌∙◌, ◌∷◌, ◌≡◌, ◌≢◌, ◌≤◌, ◌⊎◌,
}
use flip_de_flock.Common.Bytes.{Bytes, c_string, nul}
use flip_de_flock.Common.Search.{All, All-append, any_of}
use flip_de_flock.GpsParser.{
  GpsFloats, NmeaFix, at_star, drop_checksum, nmea_parse_line, parse_text, stated_sum, sum_agrees,
  xor_bytes,
}

-- Over bytes, exclusive or with the same byte again gives the first one back.
-- The test at `more` numbers, from `k` upwards.
tested_from : ℕ → ℕ → (ℕ → Bool) → Bool
tested_from k zero test = true
tested_from k (suc more) test = test k && tested_from (k + 1) more test

same_or_above : (k b : ℕ) → k ≤ b → (k ≡ b) ⊎ (k + 1 ≤ b)
same_or_above k b low = elim (Bool-cases (k == b)) [
  | inl same ↦ inl (ground (arith, same))
  | inr other ↦ inr (ground (arith, other))
]

tested_from-lem :
    (k more : ℕ) (test : ℕ → Bool)
    → tested_from k more test ≡ true
    → (b : ℕ) → k ≤ b
    → b < k + more
    → test b ≡ true
unfolding tested_from
tested_from-lem k zero test h b low high = absurd (omega arith)
tested_from-lem k (suc more) test h b low high = elim (same_or_above k b low) [
  | inl here ↦ ground (arith, h, ap test here)
  | inr above ↦ tested_from-lem (k + 1) more test (ground (arith, h)) b above (omega arith)
]

abbrev undoes : ℕ → ℕ → Bool
undoes a b = bit_xor (bit_xor a b) b == a && (bit_xor a (bit_xor a b) == b && ltb (bit_xor a b) 256)

-- All pairs of bytes, by computation.
pairs_undone : tested_from 0 256 (λ a. tested_from 0 256 (undoes a)) ≡ true
unfolding tested_from
pairs_undone = refl

-- A byte of a C string, in front of its NUL.
abbrev pub IsTextByte : ℕ → Type 0
IsTextByte c = (0 < c) × (c < 256)

xor_row :
    (a b : ℕ)
    → a < 256
    → b < 256
    → (bit_xor (bit_xor a b) b ≡ a) × (bit_xor a (bit_xor a b) ≡ b) × (bit_xor a b < 256)
xor_row a b ha hb =
    let row = tested_from-lem 0 256 _ pairs_undone a (omega arith) ha in
    let here = tested_from-lem 0 256 (undoes a) row b (omega arith) hb in ground (arith, here)

xor_bytes-IsTextByte : (sum : ℕ) (s : Bytes) → sum < 256 → All IsTextByte s → xor_bytes sum s < 256
unfolding xor_bytes
xor_bytes-IsTextByte sum [] h a = h
xor_bytes-IsTextByte sum (c ∷ s) h a =
    xor_bytes-IsTextByte (bit_xor sum c) s (xor_row sum c h a.0.1).2 a.1

-- Different sums stay different over the same bytes.
xor_bytes-injective :
    (x y : ℕ) (s : Bytes)
    → x < 256
    → y < 256
    → All IsTextByte s
    → xor_bytes x s ≡ xor_bytes y s
    → x ≡ y
unfolding xor_bytes
xor_bytes-injective x y [] hx hy a e = e
xor_bytes-injective x y (c ∷ s) hx hy a e =
    let (back_x, _, bx) = xor_row x c hx a.0.1 in
    let (back_y, _, by') = xor_row y c hy a.0.1 in
    let step = xor_bytes-injective (bit_xor x c) (bit_xor y c) s bx by' a.1 e in
    sym back_x ∙ ap (λ z. bit_xor z c) step ∙ back_y

xor_bytes-append : (sum : ℕ) (s t : Bytes) → xor_bytes sum (s ++ t) ≡ xor_bytes (xor_bytes sum s) t
unfolding xor_bytes
xor_bytes-append sum [] t = refl
xor_bytes-append sum (c ∷ s) t = xor_bytes-append (bit_xor sum c) s t

-- One byte decides the sum.
one_byte_decides :
    (pre post : Bytes) (b c : ℕ)
    → All IsTextByte pre
    → All IsTextByte post
    → b < 256
    → c < 256
    → xor_bytes 0 (pre ++ b ∷ post) ≡ xor_bytes 0 (pre ++ c ∷ post)
    → b ≡ c
one_byte_decides pre post b c in_pre in_post hb hc e =
    let s = xor_bytes 0 pre in
    let hs = xor_bytes-IsTextByte 0 pre (omega arith) in_pre in
    let (_, back_b, sb) = xor_row s b hs hb in
    let (_, back_c, sc) = xor_row s c hs hc in
    let same = xor_bytes-injective (bit_xor s b) (bit_xor s c) post sb sc in_post (
      unfold xor_bytes in
      sym (xor_bytes-append 0 pre (b ∷ post)) ∙ e ∙ xor_bytes-append 0 pre (c ∷ post)) in
    sym back_b ∙ ap (bit_xor s) same ∙ back_c

at_star_lem :
    (pre post : Bytes)
    → All IsTextByte pre
    → any_of (λ x. x == b'*') pre ≡ false
    → at_star (pre ++ b'*' ∷ post) ≡ some (pre, post)
unfolding at_star any_of
at_star_lem [] post a h = refl
at_star_lem (c ∷ pre) post a h = ground (arith, a.0.0, at_star_lem pre post a.1 (ground (arith, h)))

c_string-append : (s t : Bytes) → All IsTextByte s → c_string (s ++ t) ≡ s ++ c_string t
unfolding c_string
c_string-append [] t a = refl
c_string-append (c ∷ s) t a =
    let no_nul : (c == nul) ≡ false = ground (arith, a.0.0) in
    rw no_nul (ap (λ x. c ∷ x) (c_string-append s t a.1))

-- A checksum that agrees is the sum.
sum_agrees-eq : (sum : ℕ) (o : Option ℕ) → sum_agrees sum o ≡ true → o ≡ some sum
sum_agrees-eq sum none h = cc
sum_agrees-eq sum (some stated) h = ap some (ground arith)

module _ {F : Type 0} (fl : GpsFloats F) where
  -- What the parser is given of a sentence.
  sentence_text :
      (s tail : Bytes)
      → All IsTextByte s
      → nmea_parse_line fl (b'$' ∷ (s ++ b'*' ∷ tail))
        ≡ parse_text fl (b'$' ∷ (s ++ b'*' ∷ c_string tail))
  unfolding nmea_parse_line c_string
  sentence_text s tail a = ap (λ x. parse_text fl (b'$' ∷ x)) (c_string-append s (b'*' ∷ tail) a)

  -- A sentence with a checksum is parsed only if the checksum is the sum of its bytes.
  accepted_sum :
      (s tail : Bytes) {fix : NmeaFix F}
      → All IsTextByte s
      → any_of (λ x. x == b'*') s ≡ false
      → parse_text fl (b'$' ∷ (s ++ b'*' ∷ tail)) ≡ some fix
      → stated_sum tail ≡ some (xor_bytes 0 s)
  unfolding drop_checksum
  accepted_sum s tail a none_in h =
      elim (Bool-cases (sum_agrees (xor_bytes 0 s) (stated_sum tail))) [
        | inl agrees ↦ sum_agrees-eq (xor_bytes 0 s) (stated_sum tail) agrees
        | inr differs ↦ absurd (ground (arith, h, at_star_lem s tail a none_in, differs))
      ]

  refused_sum :
      (s tail : Bytes)
      → All IsTextByte s
      → any_of (λ x. x == b'*') s ≡ false
      → sum_agrees (xor_bytes 0 s) (stated_sum tail) ≡ false
      → parse_text fl (b'$' ∷ (s ++ b'*' ∷ tail)) ≡ none
  unfolding drop_checksum
  refused_sum s tail a none_in differs = rw (at_star_lem s tail a none_in, differs) (ground arith)

  -- A sentence that is accepted, with a checksum behind its first star and no NUL in front of it, is
  -- refused if any one byte between the dollar and the star is another one, unless it becomes a star
  -- or a NUL.
  pub damaged_sentence_refused :
      (pre post tail : Bytes) (b c : ℕ) {fix : NmeaFix F}
      → All IsTextByte pre
      → All IsTextByte post
      → IsTextByte b
      → IsTextByte c
      → any_of (λ x. x == b'*') (pre ++ b ∷ post) ≡ false
      → any_of (λ x. x == b'*') (pre ++ c ∷ post) ≡ false
      → b ≢ c
      → nmea_parse_line fl (b'$' ∷ ((pre ++ b ∷ post) ++ b'*' ∷ tail)) ≡ some fix
      → nmea_parse_line fl (b'$' ∷ ((pre ++ c ∷ post) ++ b'*' ∷ tail)) ≡ none
  damaged_sentence_refused pre post tail b c in_pre in_post hb hc star_b star_c d h =
      let with_b = All-append IsTextByte pre (b ∷ post) in_pre (hb, in_post) in
      let with_c = All-append IsTextByte pre (c ∷ post) in_pre (hc, in_post) in
      let cut = c_string tail in
      let stated =
        accepted_sum (pre ++ b ∷ post) cut with_b star_b
          (sym (sentence_text (pre ++ b ∷ post) tail with_b) ∙ h) in
      let s = xor_bytes 0 (pre ++ c ∷ post) in
      elim (Bool-cases (sum_agrees s (stated_sum cut))) [
        | inr differs ↦
            sentence_text (pre ++ c ∷ post) tail with_c
            ∙ refused_sum (pre ++ c ∷ post) cut with_c star_c differs
        | inl agrees ↦ absurd (
            d (
              one_byte_decides pre post b c in_pre in_post hb.1 hc.1
                (some-injective _ _ (sym stated ∙ sum_agrees-eq s (stated_sum cut) agrees))))
      ]
