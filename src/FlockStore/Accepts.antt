-- ===== src/FlockStore/Accepts.antt =====
-- What a line that is accepted holds, whoever wrote it.
use mathlib.Core.Option.{some-injective}
use flip_de_flock.Common.{
  Bool-cases, List, Option, Option-cases, [], arith, false, get_or, inl, inr, leb, length,
  length-take, none, refl, some, subst, take, true, ℕ, ◌<◌, ◌==◌, ◌>>=◌, ◌||◌, ◌∷◌, ◌≡◌, ◌≤◌, ◌⊎◌,
}
use flip_de_flock.Common.Bytes.{Bytes, has_byte, is_empty}
use flip_de_flock.Common.Int.{negsuc, pos, ℤ}
use flip_de_flock.FlockDb.Fingerprint.{flock_ie_fp_is_generic}
use flip_de_flock.FlockStore.{fs_parse_mac}
use flip_de_flock.FlockStore.Line.{FloatText, FlockStoreRec, flock_store_line_max}
use flip_de_flock.FlockStore.Parse.{
  Later, flock_store_cols, flock_store_cols_v1, flock_store_cols_v3, flock_store_parse_line,
  fs_parse_coord, fs_parse_i32, fs_parse_u32, is_col_count, no_later, parse_class, parse_fields,
  parse_ftype, parse_ie_fp, parse_label, parse_record, parse_rssi, parse_tail, parse_upto,
  read_fields, strip_eol,
}
use flip_de_flock.FlockStore.Stored.{IsI8}
use flip_de_flock.ReportFmt.{flock_ftype_set}

-- Where there is a value, it has the property.
data Ensures {A : Type 0} (P : A → Type 0) : Option A → Type 0 where
  no_value : Ensures P none
  value : (a : A) → P a → Ensures P (some a)

ensured : {A : Type 0} {P : A → Type 0} (o : Option A) → ((a : A) → o ≡ some a → P a) → Ensures P o
ensured none h = no_value
ensured (some a) h = value a (h a refl)

ensured_at : {A : Type 0} {P : A → Type 0} {o : Option A} {a : A} → Ensures P o → o ≡ some a → P a
ensured_at no_value h = cc
ensured_at {P = P} (value b p) h = subst P (some-injective _ _ h) p

bind-Ensures :
    {A B : Type 0} {P : A → Type 0} {Q : B → Type 0} (m : Option A) (f : A → Option B)
    → Ensures P m
    → ((a : A) → P a → Ensures Q (f a))
    → Ensures Q (m >>= f)
bind-Ensures none f p k = no_value
bind-Ensures (some a) f (value _ p) k = k a p

-- Nothing is asked of the value.
abbrev Anything : {A : Type 0} → A → Type 0
Anything a = Unit {0}

whatever : {A : Type 0} (o : Option A) → Ensures Anything o
whatever none = no_value
whatever (some a) = value a tt

parse_upto-le : (most : ℕ) (s : Bytes) {u : ℕ} → parse_upto most s ≡ some u → u ≤ most
unfolding parse_upto
parse_upto-le most s h = elim (Option-cases (fs_parse_u32 s)) [
  | inl e ↦ absurd (ground (arith, e))
  | inr (u, e) ↦ ground (arith, e)
]

pos_in : (n : ℕ) → n ≤ 127 → IsI8 (pos n)
pos_in n h = h

negsuc_in : (n : ℕ) → n ≤ 127 → IsI8 (negsuc n)
negsuc_in n h = h

parse_rssi-IsI8 : (s : Bytes) {x : ℤ} → parse_rssi s ≡ some x → IsI8 x
unfolding parse_rssi
parse_rssi-IsI8 s h = elim (Option-cases (fs_parse_i32 s)) [
  | inl e ↦ absurd (ground (arith, e))
  | inr (pos n, e) ↦ subst IsI8 {x = pos n} (ground (arith, e, h)) (pos_in n (ground (arith, e, h)))
  | inr (negsuc n, e) ↦
      subst IsI8 {x = negsuc n} (ground (arith, e, h)) (negsuc_in n (ground (arith, e, h)))
]

abbrev IsFtype : ℕ → Type 0
IsFtype t = (t ≡ 0) ⊎ (has_byte flock_ftype_set t ≡ true)

parse_ftype-IsFtype : (s : Bytes) {t : ℕ} → parse_ftype s ≡ some t → IsFtype t
unfolding parse_ftype
parse_ftype-IsFtype [] h = inl (ground (arith, h))
parse_ftype-IsFtype (c ∷ []) h = inr (ground (arith, h))
parse_ftype-IsFtype (c ∷ (d ∷ s)) h = cc

parse_ie_fp-specific :
    (s : Bytes) {fp : ℕ} → parse_ie_fp s ≡ some fp → flock_ie_fp_is_generic fp ≡ false
unfolding parse_ie_fp flock_ie_fp_is_generic
parse_ie_fp-specific s h = ground arith

-- The numbers of columns that the four versions have.
abbrev pub HasColumns : ℕ → Type 0
HasColumns n = (n ≡ 13) ⊎ ((n ≡ 15) ⊎ ((n ≡ 16) ⊎ (n ≡ 19)))

is_col_count-HasColumns : (n : ℕ) → is_col_count n ≡ true → HasColumns n
is_col_count-HasColumns n h = ground (arith, h)

-- A record within the ranges of its columns.
pub record IsAccepted {F : Type 0} (r : FlockStoreRec F) : Type 0 where
  pub name_fits : length r.ssid ≤ 32
  pub label_fits : length r.label ≤ 24
  pub rssi : IsI8 r.rssi
  pub channel : r.channel ≤ 255
  pub ftype : IsFtype r.ftype
  pub conf : r.conf ≤ 4
  pub specific : flock_ie_fp_is_generic r.ie_fp ≡ false
  pub dev_class : r.dev_class ≤ 4
  pub ua_type : r.ua_type ≤ 15

module _ {F : Type 0} (fl : FloatText F) where
  record IsLater (l : Later F) : Type 0 where
    pub dev_class : l.dev_class ≤ 4
    pub ua_type : l.ua_type ≤ 15
    pub label_fits : length l.label ≤ 24

  parse_class-IsLater :
      (n : ℕ) (f : List Bytes) (l : Later F) → IsLater l → Ensures IsLater (parse_class fl n f l)
  unfolding parse_class
  parse_class-IsLater n f l v = elim (Bool-cases (n == flock_store_cols_v1)) [
    | inl first ↦ rw first (value l v)
    | inr later_one ↦ rw later_one (
        bind-Ensures _ _
          (ensured {P = λ u. u ≤ 4} (parse_upto 4 (get_or f 13 []))
            (λ u. parse_upto-le 4 (get_or f 13 [])))
          λ c hc. bind-Ensures _ _ (whatever (parse_upto 1 (get_or f 14 []))) λ b hb.
            value _ (record { dev_class = hc; ua_type = v.ua_type; label_fits = v.label_fits }))
  ]

  parse_tail-IsLater :
      (n : ℕ) (f : List Bytes) (l : Later F) → IsLater l → Ensures IsLater (parse_tail fl n f l)
  unfolding parse_tail
  parse_tail-IsLater n f l v = elim (Bool-cases (n == flock_store_cols)) [
    | inr older ↦ rw older (value l v)
    | inl newest ↦ rw newest (
        bind-Ensures _ _ (whatever (fs_parse_coord fl (get_or f 16 []))) λ la ha.
          bind-Ensures _ _ (whatever (fs_parse_coord fl (get_or f 17 []))) λ lo hb.
            bind-Ensures _ _
              (ensured {P = λ u. u ≤ 15} (parse_upto 15 (get_or f 18 []))
                (λ u. parse_upto-le 15 (get_or f 18 [])))
              λ u hc.
                value _
                  (record { dev_class = v.dev_class; ua_type = hc; label_fits = v.label_fits }))
  ]

  take-fits : (n : ℕ) (s : Bytes) → length (take n s) ≤ n
  take-fits n s = omega (arith, length-take n s)

  parse_label-IsLater :
      (n : ℕ) (f : List Bytes) (l : Later F) → IsLater l → IsLater (parse_label fl n f l)
  unfolding parse_label
  parse_label-IsLater n f l v =
      elim (Bool-cases (n == flock_store_cols || n == flock_store_cols_v3)) [
        | inr older ↦ rw older v
        | inl named ↦ rw named (record {
          dev_class = v.dev_class;
          ua_type = v.ua_type;
          label_fits = take-fits 24 (get_or f 15 []);
        })
      ]

  parse_record-IsAccepted : (n : ℕ) (f : List Bytes) → Ensures IsAccepted (parse_record fl n f)
  unfolding parse_record
  parse_record-IsAccepted n f = bind-Ensures _ _ (whatever (fs_parse_mac (get_or f 0 []))) λ mac h0.
      bind-Ensures _ _
        (ensured {P = IsI8} (parse_rssi (get_or f 2 [])) (λ x. parse_rssi-IsI8 (get_or f 2 [])))
        λ rssi h1.
          bind-Ensures _ _
            (ensured {P = λ u. u ≤ 255} (parse_upto 255 (get_or f 3 []))
              (λ x. parse_upto-le 255 (get_or f 3 [])))
            λ channel h2.
              bind-Ensures _ _
                (ensured {P = IsFtype} (parse_ftype (get_or f 4 []))
                  (λ x. parse_ftype-IsFtype (get_or f 4 [])))
                λ ftype h3.
                  bind-Ensures _ _
                    (ensured {P = λ u. u ≤ 4} (parse_upto 4 (get_or f 5 []))
                      (λ x. parse_upto-le 4 (get_or f 5 [])))
                    λ conf h4.
                      bind-Ensures _ _
                        (ensured {P = λ u. flock_ie_fp_is_generic u ≡ false}
                          (parse_ie_fp (get_or f 6 [])) (λ x. parse_ie_fp-specific (get_or f 6 [])))
                        λ fp h5.
                          bind-Ensures _ _ (whatever (fs_parse_coord fl (get_or f 7 []))) λ lat h6.
                            bind-Ensures _ _ (whatever (fs_parse_coord fl (get_or f 8 [])))
                              λ lon h7.
                                bind-Ensures _ _ (whatever (fs_parse_coord fl (get_or f 9 [])))
                                  λ heading h8.
                                    bind-Ensures _ _ (whatever (fs_parse_u32 (get_or f 10 [])))
                                      λ count h9.
                                        bind-Ensures _ _ (whatever (parse_upto 3 (get_or f 11 [])))
                                          λ marks h10.
                                            bind-Ensures _ _
                                              (whatever (fs_parse_u32 (get_or f 12 [])))
                                              λ epoch h11.
                                                bind-Ensures _ _
                                                  (parse_class-IsLater n f (no_later fl) (record {
                                                    dev_class = omega arith;
                                                    ua_type = omega arith;
                                                    label_fits = omega arith;
                                                  }))
                                                  λ classed v.
                                                    bind-Ensures _ _
                                                      (parse_tail-IsLater n f classed v)
                                                      λ tailed w.
                                                        let l = parse_label-IsLater n f tailed w in
                                                        value _ (record {
                                                          name_fits = take-fits 32 (get_or f 1 []);
                                                          label_fits = l.label_fits;
                                                          rssi = h1;
                                                          channel = h2;
                                                          ftype = h3;
                                                          conf = h4;
                                                          specific = h5;
                                                          dev_class = l.dev_class;
                                                          ua_type = l.ua_type;
                                                        })

  fields-IsAccepted :
      (o : Option (List Bytes × Bytes)) {r : FlockStoreRec F}
      → parse_fields fl o ≡ some r
      → IsAccepted r × ((f : List Bytes) × (o ≡ some (f, [])) × (is_col_count (length f) ≡ true))
  fields-IsAccepted none h = cc
  fields-IsAccepted (some (f, c ∷ rest)) h = absurd (ground (arith, h))
  fields-IsAccepted (some (f, [])) h = elim (Bool-cases (is_col_count (length f))) [
    | inr other ↦ absurd (ground (arith, h, other))
    | inl known ↦
        (ensured_at (parse_record-IsAccepted (length f) f) (rw known at h), (f, refl, known))
  ]

  -- Whatever the text, a record that is read from it is within the ranges of its columns: signal and
  -- channel of their types, a rung, a class and an aircraft type that exist, a name and a label that
  -- fit their buffers, a frame type that is known or absent, no fingerprint known as a common pattern.
  -- The line has fewer than 256 bytes without its line end, and reading at most 19 columns of it, each
  -- with a comma that stands behind it (the 19th too), leaves nothing and gives 13, 15, 16 or 19
  -- columns.
  pub parse_line-IsAccepted :
      (line : Bytes) {r : FlockStoreRec F}
      → flock_store_parse_line fl line ≡ some r
      → IsAccepted r
        × (length (strip_eol line) < 256)
        × ((f : List Bytes) × (read_fields 19 (strip_eol line) ≡ some (f, []))
            × HasColumns (length f))
  unfolding flock_store_parse_line
  parse_line-IsAccepted line h =
      let buf = strip_eol line in
      elim (Bool-cases (is_empty buf || leb flock_store_line_max (length buf))) [
        | inl bad ↦ absurd (ground (arith, h, bad))
        | inr fits ↦
            let (ok, cols) = fields-IsAccepted (read_fields flock_store_cols buf) (rw fits at h) in
            let (f, read, known) = cols in
            (ok, ground (arith, fits), (f, read, is_col_count-HasColumns (length f) known))
      ]
