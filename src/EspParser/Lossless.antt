-- ===== src/EspParser/Lossless.antt =====
-- Splitting a line into fields loses nothing.
use flip_de_flock.Common.{
  Bool-cases, List, [], ap, arith, false, inl, inr, length, refl, suc, zero, ℕ, ◌++◌, ◌+◌, ◌<◌,
  ◌==◌, ◌∙◌, ◌∷◌, ◌≡◌, ◌≤◌,
}
use flip_de_flock.Common.Bytes.{Bytes, has_byte}
use flip_de_flock.EspParser.Fields.{esp_split_fields, prepend, split_more}

-- The fields with a comma between neighbours.

abbrev pub join : List Bytes → Bytes
join [] = []
join (f ∷ []) = f
join (f ∷ (g ∷ fs)) = f ++ b',' ∷ join (g ∷ fs)

-- Every field but the last is free of commas.
abbrev pub CommaFreeInit : List Bytes → Type 0
CommaFreeInit [] = Unit {0}
CommaFreeInit (f ∷ []) = Unit {0}
CommaFreeInit (f ∷ (g ∷ fs)) = (has_byte f b',' ≡ false) × CommaFreeInit (g ∷ fs)

length-prepend : (c : ℕ) (fs : List Bytes) → 0 < length fs → length (prepend c fs) ≡ length fs
length-prepend c [] h = ground arith
length-prepend c (f ∷ fs) h = refl

join-prepend : (c : ℕ) (fs : List Bytes) → join (prepend c fs) ≡ c ∷ join fs
join-prepend c [] = refl
join-prepend c (f ∷ []) = refl
join-prepend c (f ∷ (g ∷ fs)) = refl

join-cons : (fs : List Bytes) → 0 < length fs → join ([] ∷ fs) ≡ b',' ∷ join fs
join-cons [] h = ground arith
join-cons (f ∷ fs) h = refl

CommaFreeInit-prepend :
    (c : ℕ) (fs : List Bytes)
    → (c == b',') ≡ false
    → CommaFreeInit fs
    → CommaFreeInit (prepend c fs)
unfolding has_byte
CommaFreeInit-prepend c [] h k = tt
CommaFreeInit-prepend c (f ∷ []) h k = tt
CommaFreeInit-prepend c (f ∷ (g ∷ fs)) h k = (ground (arith, k.0), k.1)

CommaFreeInit-cons : (fs : List Bytes) → CommaFreeInit fs → CommaFreeInit ([] ∷ fs)
unfolding has_byte
CommaFreeInit-cons [] k = tt
CommaFreeInit-cons (f ∷ fs) k = (refl, k)

split_more-bounds :
    (room : ℕ) (s : Bytes)
    → (0 < length (split_more room s)) × (length (split_more room s) ≤ room + 1)
unfolding split_more
split_more-bounds room [] = ground arith
split_more-bounds zero (c ∷ s) = ground arith
split_more-bounds (suc room) (c ∷ s) =
    let here = split_more-bounds room s in
    let later = split_more-bounds (suc room) s in
    let e = length-prepend c (split_more (suc room) s) later.0 in
    elim (Bool-cases (c == b',')) [
      | inl h ↦ rw h (omega (arith, here))
      | inr h ↦ rw h (omega (arith, later, e))
    ]

split_more-join : (room : ℕ) (s : Bytes) → join (split_more room s) ≡ s
unfolding split_more
split_more-join room [] = refl
split_more-join zero (c ∷ s) = refl
split_more-join (suc room) (c ∷ s) =
    let here = split_more-join room s in
    let later = split_more-join (suc room) s in
    let e = join-cons (split_more room s) (split_more-bounds room s).0 in
    let e' = join-prepend c (split_more (suc room) s) in
    elim (Bool-cases (c == b',')) [
      | inl h ↦ rw h (ground (arith, here, e))
      | inr h ↦ rw h (ground (arith, later, e'))
    ]

split_more-CommaFreeInit : (room : ℕ) (s : Bytes) → CommaFreeInit (split_more room s)
unfolding split_more
split_more-CommaFreeInit room [] = tt
split_more-CommaFreeInit zero (c ∷ s) = tt
split_more-CommaFreeInit (suc room) (c ∷ s) =
    let here = split_more-CommaFreeInit room s in
    let later = split_more-CommaFreeInit (suc room) s in
    elim (Bool-cases (c == b',')) [
      | inl h ↦ rw h (CommaFreeInit-cons (split_more room s) here)
      | inr h ↦ rw h (CommaFreeInit-prepend c (split_more (suc room) s) h later)
    ]

-- For any line and a positive number of slots, the fields joined by commas give the line back,
-- at least one and at most that many fields are filled, and no field but the last holds a comma.
pub split_fields_lossless :
    (line : Bytes) (max : ℕ)
    → 0 < max
    → (join (esp_split_fields line max) ≡ line)
      × (0 < length (esp_split_fields line max))
      × (length (esp_split_fields line max) ≤ max)
      × CommaFreeInit (esp_split_fields line max)
unfolding esp_split_fields
split_fields_lossless line zero h = elim h [ ]
split_fields_lossless line (suc room) h = (
  split_more-join room line,
  (split_more-bounds room line).0,
  omega (arith, (split_more-bounds room line).1),
  split_more-CommaFreeInit room line,
)

-- Reading a field that holds no comma, up to the comma that ends it.
split_more-append :
    (room : ℕ) (f rest : Bytes)
    → has_byte f b',' ≡ false
    → split_more (suc room) (f ++ b',' ∷ rest) ≡ f ∷ split_more room rest
unfolding split_more has_byte
split_more-append room [] rest h = refl
split_more-append room (c ∷ f) rest h =
    let ih = split_more-append room f rest (ground arith) in
    elim (Bool-cases (c == b',')) [ inl e ↦ ground arith | inr e ↦ rw (e, ih) ]

split_more-free : (room : ℕ) (f : Bytes) → has_byte f b',' ≡ false → split_more room f ≡ f ∷ []
unfolding split_more has_byte
split_more-free room [] h = refl
split_more-free zero (c ∷ f) h = refl
split_more-free (suc room) (c ∷ f) h =
    let ih = split_more-free (suc room) f (ground arith) in
    elim (Bool-cases (c == b',')) [ inl e ↦ ground arith | inr e ↦ rw (e, ih) ]

-- No field holds a comma.
abbrev pub CommaFree : List Bytes → Type 0
CommaFree [] = Unit {0}
CommaFree (f ∷ fs) = (has_byte f b',' ≡ false) × CommaFree fs

-- Fields without commas, at least one of them, joined by commas and split into at least as many
-- slots as there are fields, come back as they were.
pub split_fields-join :
    (fs : List Bytes) (max : ℕ)
    → CommaFree fs
    → 0 < length fs
    → length fs ≤ max
    → esp_split_fields (join fs) max ≡ fs
unfolding esp_split_fields
split_fields-join [] max k h le = ground arith
split_fields-join (f ∷ []) zero k h le = ground arith
split_fields-join (f ∷ []) (suc room) k h le = split_more-free room f k.0
split_fields-join (f ∷ (g ∷ fs)) zero k h le = ground arith
split_fields-join (f ∷ (g ∷ fs)) (suc zero) k h le = ground arith
split_fields-join (f ∷ (g ∷ fs)) (suc (suc room)) k h le =
    split_more-append room f (join (g ∷ fs)) k.0
    ∙ ap (λ gs. f ∷ gs) (split_fields-join (g ∷ fs) (suc room) k.1 (omega arith) (omega arith))
