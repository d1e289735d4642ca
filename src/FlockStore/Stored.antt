-- ===== src/FlockStore/Stored.antt =====
-- A stored hit comes back from its line.
use flip_de_flock.Common.{
  Bool-cases, [], arith, false, if◌then◌else◌, inl, inr, length, not, refl, some, ℕ, ◌&&◌, ◌<◌,
  ◌==◌, ◌^◌, ◌∷◌, ◌≡◌, ◌≤◌,
}
use flip_de_flock.Common.Bytes.{Bytes, has_byte, is_empty, nul}
use flip_de_flock.Common.HexNumbers.{strtoul-hex_u32}
use flip_de_flock.Common.Int.{negsuc, pos, ℤ}
use flip_de_flock.Common.Numbers.{IsI32, length-decimal, strtol-decimal_ℤ, strtoul-decimal}
use flip_de_flock.Common.Print.{decimal, decimal_ℤ, hex_u32}
use flip_de_flock.Common.Search.{any_of}
use flip_de_flock.FlockDb.Fingerprint.{flock_ie_fp_is_generic}
use flip_de_flock.FlockStore.Columns.{IsPlain}
use flip_de_flock.FlockStore.Line.{FloatText, fmt_coord, ftype_text}
use flip_de_flock.FlockStore.Parse.{
  fs_parse_coord, fs_parse_i32, fs_parse_u32, parse_ftype, parse_ie_fp, parse_rssi, parse_upto,
}
use flip_de_flock.FlockStore.RoundTrip.{take_all}
use flip_de_flock.ReportEscape.{csv_special}
use flip_de_flock.ReportFmt.{flock_ftype_set}

pub nonempty : (s : Bytes) → 0 < length s → is_empty s ≡ false
nonempty [] h = elim h [ ]
nonempty (c ∷ s) h = refl

pub fs_parse_u32-decimal : (n : ℕ) → n < 2 ^ 32 → fs_parse_u32 (decimal n) ≡ some n
unfolding fs_parse_u32
fs_parse_u32-decimal n h = rw (strtoul-decimal n h, nonempty (decimal n) (length-decimal n).0)

pub parse_upto-decimal :
    (most n : ℕ) → n ≤ most → most < 2 ^ 32 → parse_upto most (decimal n) ≡ some n
unfolding parse_upto
parse_upto-decimal most n h l = ground (arith, fs_parse_u32-decimal n (omega arith))

abbrev pub IsI8 : ℤ → Type 0
IsI8 (pos n) = n ≤ 127
IsI8 (negsuc n) = n ≤ 127

nonempty_ℤ : (x : ℤ) → is_empty (decimal_ℤ x) ≡ false
unfolding decimal_ℤ
nonempty_ℤ (pos n) = nonempty (decimal n) (length-decimal n).0
nonempty_ℤ (negsuc n) = refl

IsI8-IsI32 : (x : ℤ) → IsI8 x → IsI32 x
IsI8-IsI32 (pos n) h = omega arith
IsI8-IsI32 (negsuc n) h = omega arith

fs_parse_i32-decimal : (x : ℤ) → IsI8 x → fs_parse_i32 (decimal_ℤ x) ≡ some x
unfolding fs_parse_i32
fs_parse_i32-decimal x h = rw (strtol-decimal_ℤ x (IsI8-IsI32 x h), nonempty_ℤ x)

pub parse_rssi-decimal : (x : ℤ) → IsI8 x → parse_rssi (decimal_ℤ x) ≡ some x
unfolding parse_rssi
parse_rssi-decimal (pos n) h = ground (arith, fs_parse_i32-decimal (pos n) h)
parse_rssi-decimal (negsuc n) h = ground (arith, fs_parse_i32-decimal (negsuc n) h)

-- What a line keeps of a frame type and of a fingerprint.
abbrev pub kept_ftype : ℕ → ℕ
kept_ftype t = if not (t == nul) && has_byte flock_ftype_set t then t else 0

abbrev pub kept_ie_fp : ℕ → ℕ
kept_ie_fp fp = if flock_ie_fp_is_generic fp then 0 else fp

pub parse_ftype_lem : (t : ℕ) → parse_ftype (ftype_text t) ≡ some (kept_ftype t)
unfolding ftype_text
parse_ftype_lem t = elim (Bool-cases (not (t == nul) && has_byte flock_ftype_set t)) [
  | inr unknown_type ↦ rw unknown_type (unfold parse_ftype in refl)
  | inl known ↦ rw known (unfold parse_ftype in ground (arith, known))
]

pub parse_ie_fp_lem : (fp : ℕ) → fp < 2 ^ 32 → parse_ie_fp (hex_u32 fp) ≡ some (kept_ie_fp fp)
unfolding parse_ie_fp
parse_ie_fp_lem fp h = rw (strtoul-hex_u32 fp h) (unfold hex_u32 in refl)

module _ {F : Type 0} (fl : FloatText F) where
  -- What is read back of a coordinate.
  abbrev pub kept_coord : F → F
  kept_coord x = if fl.isnan x then fl.nan else (fl.strtof (fl.print_6 x)).0

  -- A coordinate that is not NAN prints as a number of at most 11 bytes, which `strtof` reads whole.
  pub record IsCoord (x : F) : Type 0 where
    pub clean : fl.isnan x ≡ false → any_of csv_special (fl.print_6 x) ≡ false
    pub narrow : fl.isnan x ≡ false → length (fl.print_6 x) ≤ 11
    pub printed : fl.isnan x ≡ false → 0 < length (fl.print_6 x)
    pub read_whole : fl.isnan x ≡ false → (fl.strtof (fl.print_6 x)).1 ≡ []

  pub coord_text :
      (x : F) → IsCoord x → (length (fmt_coord fl 16 x []) ≤ 11) × IsPlain (fmt_coord fl 16 x [])
  unfolding fmt_coord any_of
  coord_text x v = elim (Bool-cases (fl.isnan x)) [
    | inl absent ↦ rw absent (omega arith, record { clean = refl; short_text = omega arith })
    | inr fix ↦
        rw (fix, take_all 15 (fl.print_6 x) (omega (arith, v.narrow fix)))
          (v.narrow fix, record { clean = v.clean fix; short_text = omega (arith, v.narrow fix) })
  ]

  pub coord_read :
      (x : F) → IsCoord x → fs_parse_coord fl (fmt_coord fl 16 x []) ≡ some (kept_coord x)
  unfolding fmt_coord fs_parse_coord
  coord_read x v = elim (Bool-cases (fl.isnan x)) [
    | inl absent ↦ rw absent
    | inr fix ↦ rw (
      fix,
      take_all 15 (fl.print_6 x) (omega (arith, v.narrow fix)),
      nonempty (fl.print_6 x) (v.printed fix),
      v.read_whole fix,
    )
  ]
