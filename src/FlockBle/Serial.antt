-- ===== src/FlockBle/Serial.antt =====
-- The serial that is extracted.
use flip_de_flock.Common.{
  Bool-cases, Option, Option-cases, [], ap, arith, drop, if◌then◌else◌, inl, inr, leb, length,
  length-take, ltb, none, refl, some, subst, suc, take, true, zero, ℕ, ◌&&◌, ◌++◌, ◌+◌, ◌-◌, ◌<◌,
  ◌==◌, ◌^◌, ◌∙◌, ◌∷◌, ◌≡◌, ◌⊎◌,
}
use flip_de_flock.Common.Bytes.{Bytes, char_at, codes}
use flip_de_flock.Common.Search.{All, All-append}
use flip_de_flock.FlockBle.{
  Scan, all_alnum, alnum, any_digit, ascii_upper, bind_or, cut_to, flock_ble_extract_serial,
  last_place, no_run, of_mfg, of_name, prefix_upper, scan_from, scan_mfg, scan_step, serial_byte,
  serial_of_mfg, serial_of_name,
}

abbrev slice : Bytes → ℕ → ℕ → Bytes
slice m s n = take n (drop s m)

abbrev IsSerial : Bytes → Type 0
IsSerial s = All (λ c. serial_byte c ≡ true) s

slice_snoc :
    (m : Bytes) (s n : ℕ)
    → s + n < length m
    → slice m s (suc n) ≡ slice m s n ++ (char_at m (s + n) ∷ [])
slice_snoc [] s n h = absurd (omega arith)
slice_snoc (c ∷ m) zero zero h = ap (λ t. t ∷ []) (ground arith)
slice_snoc (c ∷ m) zero (suc n) h =
    ap (λ t. c ∷ t)
      (slice_snoc m zero n (omega arith) ∙ ap (λ k. take n (drop 0 m) ++ (k ∷ [])) step)
  where
    step : char_at m (0 + n) ≡ char_at (c ∷ m) (0 + suc n)
    step = ground arith
slice_snoc (c ∷ m) (suc s) n h =
    slice_snoc m s n (omega arith) ∙ ap (λ k. take n (drop s m) ++ (k ∷ [])) step
  where
    step : char_at m (s + n) ≡ char_at (c ∷ m) (suc s + n)
    step = ground arith

-- What the scan knows before it reads the byte at `i`.
record ScanInv (m : Bytes) (i : ℕ) (sc : Scan) : Type 0 where
  run_end : (sc.run_len ≡ 0) ⊎ (sc.run_start + sc.run_len ≡ i)
  run_serial : IsSerial (slice m sc.run_start sc.run_len)
  best_serial : IsSerial (slice m sc.best_start sc.best_len)

extend :
    (m : Bytes) (s n i : ℕ)
    → s + n ≡ i
    → i < length m
    → serial_byte (char_at m i) ≡ true
    → IsSerial (slice m s n)
    → IsSerial (slice m s (n + 1))
extend m s n i e h ok run =
    let more : n + 1 ≡ suc n = omega arith in
    rw (more, slice_snoc m s n (omega arith), e)
      (All-append (λ c. serial_byte c ≡ true) (slice m s n) (char_at m i ∷ []) run (ok, tt))

scan_step-ScanInv :
    (m : Bytes) (i : ℕ) (sc : Scan) → ScanInv m i sc → ScanInv m (i + 1) (scan_step m i sc)
unfolding scan_step
scan_step-ScanInv m i sc v = elim (Bool-cases (ltb i (length m) && serial_byte (char_at m i))) [
  | inl good ↦ elim (Bool-cases (sc.run_len == 0)) [
    | inl fresh ↦
        rw (good, fresh)
          (record {
            run_end = inr (ground arith);
            run_serial =
                let z : sc.run_len ≡ 0 = ground arith in
                rw z (extend m i 0 i (omega arith) (ground arith) (ground arith) tt);
            best_serial = v.best_serial;
          })
    | inr going ↦
        let e : sc.run_start + sc.run_len ≡ i = ground (arith, v.run_end) in
        rw (good, going)
          (record {
            run_end = inr (omega arith);
            run_serial =
                extend m sc.run_start sc.run_len i e (ground arith) (ground arith) v.run_serial;
            best_serial = v.best_serial;
          })
  ]
  | inr stop ↦ elim (Bool-cases (ltb sc.best_len sc.run_len)) [
    | inl longer ↦
        rw (stop, longer)
          (record { run_end = inl refl; run_serial = tt; best_serial = v.run_serial })
    | inr shorter ↦
        rw (stop, shorter)
          (record { run_end = inl refl; run_serial = tt; best_serial = v.best_serial })
  ]
]

scan_from-ScanInv :
    (m : Bytes) (rounds i : ℕ) (sc : Scan)
    → ScanInv m i sc
    → IsSerial (slice m (scan_from m rounds i sc).best_start (scan_from m rounds i sc).best_len)
unfolding scan_from
scan_from-ScanInv m zero i sc v = v.best_serial
scan_from-ScanInv m (suc rounds) i sc v =
    scan_from-ScanInv m rounds (i + 1) (scan_step m i sc) (scan_step-ScanInv m i sc v)

All-take : (P : ℕ → Type 0) (n : ℕ) (s : Bytes) → All P s → All P (take n s)
All-take P zero s a = tt
All-take P (suc n) [] a = tt
All-take P (suc n) (c ∷ s) a = (a.0, All-take P n s a.1)

alnum_serial : (c : ℕ) → alnum c ≡ true → serial_byte c ≡ true
unfolding ascii_upper
alnum_serial c h = ground arith

all_alnum-IsSerial : (s : Bytes) → all_alnum s ≡ true → IsSerial s
unfolding all_alnum
all_alnum-IsSerial [] h = tt
all_alnum-IsSerial (c ∷ s) h = (alnum_serial c (ground arith), all_alnum-IsSerial s (ground arith))

-- A buffer that has room for the NUL.
abbrev IsBuffer : ℕ → Type 0
IsBuffer cap = (0 < cap) × (cap < 2 ^ 32)

last_place-lt : (cap : ℕ) → IsBuffer cap → last_place cap < cap
last_place-lt cap (p, q) = omega (arith, p, q)

length-cut_to : (cap : ℕ) (s : Bytes) → IsBuffer cap → length (cut_to cap s) < cap
length-cut_to cap s ok =
    let w = last_place cap in
    let small : w < cap = last_place-lt cap ok in
    elim (Bool-cases (ltb w (length s))) [
      | inl cut ↦ rw cut (omega (arith, small, length-take w s))
      | inr whole ↦ rw whole (ground (arith, small, whole, length-take (length s) s))
    ]

-- A serial fits its buffer with the NUL and holds digits and letters only.
abbrev pub IsPlausible : ℕ → Bytes → Type 0
IsPlausible cap s = (length s < cap) × All (λ c. serial_byte c ≡ true) s

cut_to-IsPlausible :
    (cap : ℕ) (s : Bytes) → IsBuffer cap → IsSerial s → IsPlausible cap (cut_to cap s)
cut_to-IsPlausible cap s ok v = (length-cut_to cap s ok, All-take (λ c. serial_byte c ≡ true) _ s v)

serial_of_mfg-IsPlausible :
    (m : Bytes) (cap : ℕ) {s : Bytes}
    → IsBuffer cap
    → serial_of_mfg m cap ≡ some s
    → IsPlausible cap s
unfolding serial_of_mfg scan_mfg
serial_of_mfg-IsPlausible m cap {s} ok h =
    let sc = scan_mfg m in
    let start : ScanInv m 2 no_run = record {
      run_end = inl refl;
      run_serial = tt;
      best_serial = tt;
    } in
    let v =
      cut_to-IsPlausible cap (slice m sc.best_start sc.best_len) ok
        (scan_from-ScanInv m (length m - 1) 2 no_run start) in
    elim (Bool-cases (ltb 2 (length m) && leb 6 sc.best_len)) [
      | inl found ↦ subst (IsPlausible cap) (ground arith) v
      | inr lost ↦ ground arith
    ]

serial_of_name-IsPlausible :
    (n : Bytes) (cap : ℕ) {s : Bytes}
    → IsBuffer cap
    → serial_of_name n cap ≡ some s
    → IsPlausible cap s
unfolding serial_of_name
serial_of_name-IsPlausible n cap {s} ok h =
    let p = if prefix_upper n (codes "PENGUIN-") then drop 8 n else n in
    elim (Bool-cases (all_alnum p && (leb 6 (length p) && any_digit p))) [
      | inl found ↦
          subst (IsPlausible cap) (ground arith)
            (cut_to-IsPlausible cap p ok (all_alnum-IsSerial p (ground arith)))
      | inr lost ↦ ground arith
    ]

of_name-IsPlausible :
    (name : Option Bytes) (cap : ℕ) {s : Bytes}
    → IsBuffer cap
    → of_name name cap ≡ some s
    → IsPlausible cap s
of_name-IsPlausible none cap ok h = ground arith
of_name-IsPlausible (some n) cap ok h = serial_of_name-IsPlausible n cap ok (ground arith)

of_both-IsPlausible :
    (mfg name : Option Bytes) (cap : ℕ) {s : Bytes}
    → IsBuffer cap
    → bind_or (of_mfg mfg cap) (of_name name cap) ≡ some s
    → IsPlausible cap s
of_both-IsPlausible none name cap ok h = of_name-IsPlausible name cap ok (ground arith)
of_both-IsPlausible (some m) name cap {s} ok h = elim (Option-cases (serial_of_mfg m cap)) [
  | inr (t, e) ↦ serial_of_mfg-IsPlausible m cap ok (ground arith)
  | inl e ↦ of_name-IsPlausible name cap ok (ground arith)
]

-- Whatever the payload and the name hold, and whatever capacity the caller states, a `size_t` of 32
-- bits that may be 0: a serial that is extracted is shorter than that capacity, so it fits together with its NUL, and is
-- made of ASCII digits and letters alone.
pub extract_serial-IsPlausible :
    (mfg name : Option Bytes) (cap : ℕ) {s : Bytes}
    → cap < 2 ^ 32
    → flock_ble_extract_serial mfg name cap ≡ some s
    → IsPlausible cap s
unfolding flock_ble_extract_serial
extract_serial-IsPlausible mfg name cap b h = elim (Bool-cases (cap == 0)) [
  | inl z ↦ absurd (ground (arith, h, z))
  | inr some_room ↦
      of_both-IsPlausible mfg name cap (ground (arith, some_room), b) (rw some_room at h)
]
