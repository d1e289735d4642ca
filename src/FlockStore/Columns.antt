-- ===== src/FlockStore/Columns.antt =====
-- The columns of a line, one by one: what is written is what is read.
use flip_de_flock.Common.{
  Bool-cases, List, [], arith, false, inl, inr, length, length-map, length-take, map, not, refl,
  some, suc, take, true, zero, ℕ, ◌%◌, ◌&&◌, ◌++◌, ◌+◌, ◌-◌, ◌/◌, ◌<◌, ◌==◌, ◌∷◌, ◌≡◌, ◌≤◌,
}
use flip_de_flock.Common.Bytes.{Bytes, has_byte, nul}
use flip_de_flock.Common.HexNumbers.{IsNibble}
use flip_de_flock.Common.Int.{negsuc, pos, ℤ}
use flip_de_flock.Common.Mac.{Mac}
use flip_de_flock.Common.Numbers.{IsDigit, decimal-All, length-decimal}
use flip_de_flock.Common.Print.{decimal, decimal_ℤ, hex_digit, hex_u32, u32_nibbles}
use flip_de_flock.Common.Search.{All, any_of}
use flip_de_flock.FlockStore.{fs_next_field, past_comma, read_plain}
use flip_de_flock.FlockStore.Line.{
  esc_ssid_max, escaped_text, flat_byte, flatten, ftype_text, joined,
}
use flip_de_flock.FlockStore.Parse.{read_fields}
use flip_de_flock.FlockStore.RoundTrip.{IsMac, csv_field_survives, plain_field}
use flip_de_flock.ReportEscape.{csv_special}
use flip_de_flock.ReportFmt.{flock_ftype_set, fmt_mac, hex_upper}

-- The reader finds the text `t` in what was written as `e`, in front of the next column.
abbrev pub Reads : Bytes → Bytes → Type 0
Reads e t = (rest : Bytes) → fs_next_field (e ++ b',' ∷ rest) esc_ssid_max ≡ some (t, rest, true)

abbrev pub ReadsLast : Bytes → Bytes → Type 0
ReadsLast e t = fs_next_field e esc_ssid_max ≡ some (t, [], false)

-- Texts column by column, the last one at the end of the line.
abbrev pub ReadsAll : List Bytes → List Bytes → Type 0
ReadsAll [] ts = ⊥
ReadsAll (e ∷ es) [] = ⊥
ReadsAll (e ∷ []) (t ∷ []) = ReadsLast e t
ReadsAll (e ∷ []) (t ∷ (u ∷ ts)) = ⊥
ReadsAll (e ∷ (f ∷ es)) (t ∷ ts) = Reads e t × ReadsAll (f ∷ es) ts

pub read_fields-joined :
    (n : ℕ) (es ts : List Bytes)
    → length es ≤ n
    → ReadsAll es ts
    → read_fields n (joined es) ≡ some (ts, [])
unfolding read_fields joined
read_fields-joined n [] ts h r = elim r [ ]
read_fields-joined zero (e ∷ es) ts h r = absurd (omega arith)
read_fields-joined (suc n) (e ∷ []) [] h r = elim r [ ]
read_fields-joined (suc n) (e ∷ []) (t ∷ []) h r = ground (arith, r)
read_fields-joined (suc n) (e ∷ []) (t ∷ (u ∷ ts)) h r = elim r [ ]
read_fields-joined (suc n) (e ∷ (f ∷ es)) [] h r = elim r [ ]
read_fields-joined (suc n) (e ∷ (f ∷ es)) (t ∷ ts) h r =
    ground (arith, r.0 (joined (f ∷ es)), read_fields-joined n (f ∷ es) ts (omega arith) r.1)

-- A short text with nothing to escape.
pub record IsPlain (t : Bytes) : Type 0 where
  pub clean : any_of csv_special t ≡ false
  pub short_text : length t < esc_ssid_max

pub plain-Reads : (t : Bytes) → IsPlain t → Reads t t
plain-Reads t p rest = plain_field esc_ssid_max t rest p.clean p.short_text

read_plain_end :
    (n w : ℕ) (s : Bytes)
    → any_of csv_special s ≡ false
    → w + length s < n
    → read_plain n w s ≡ (s, [])
unfolding read_plain any_of
read_plain_end n w [] h l = refl
read_plain_end n w (c ∷ s) h l =
    ground (arith, read_plain_end n (w + 1) s (ground arith) (omega arith))

pub plain-ReadsLast : (t : Bytes) → IsPlain t → ReadsLast t t
unfolding fs_next_field past_comma any_of
plain-ReadsLast [] p = refl
plain-ReadsLast (c ∷ t) p =
    ground
      (arith, p.clean, read_plain_end esc_ssid_max 0 (c ∷ t) p.clean (omega (arith, p.short_text)))

digits_clean : (s : Bytes) → All IsDigit s → any_of csv_special s ≡ false
unfolding any_of
digits_clean [] a = refl
digits_clean (c ∷ s) a = ground (arith, digits_clean s a.1)

pub decimal-IsPlain : (n : ℕ) → IsPlain (decimal n)
decimal-IsPlain n = record {
  clean = digits_clean (decimal n) (decimal-All n);
  short_text = omega (arith, (length-decimal n).1);
}

pub decimal_ℤ-IsPlain : (x : ℤ) → IsPlain (decimal_ℤ x)
unfolding decimal_ℤ any_of
decimal_ℤ-IsPlain (pos n) = decimal-IsPlain n
decimal_ℤ-IsPlain (negsuc n) = record {
  clean = digits_clean (decimal (n + 1)) (decimal-All (n + 1));
  short_text = omega (arith, (length-decimal (n + 1)).1);
}

nibbles_clean : (ns : List ℕ) → All IsNibble ns → any_of csv_special (map hex_digit ns) ≡ false
unfolding any_of
nibbles_clean [] a = refl
nibbles_clean (n ∷ ns) a = ground (arith, nibbles_clean ns a.1)

pub hex_u32-IsPlain : (v : ℕ) → IsPlain (hex_u32 v)
unfolding hex_u32
hex_u32-IsPlain v = record {
  clean = nibbles_clean (u32_nibbles v) (omega arith);
  short_text = omega arith;
}

pub ftype-IsPlain : (t : ℕ) → IsPlain (ftype_text t)
unfolding ftype_text has_byte any_of
ftype-IsPlain t = elim (Bool-cases (not (t == nul) && has_byte flock_ftype_set t)) [
  | inr unknown_type ↦ rw unknown_type (record { clean = refl; short_text = omega arith })
  | inl known ↦ rw known (record { clean = ground (arith, known); short_text = omega arith })
]

upper_clean : (n : ℕ) → n < 16 → csv_special (hex_upper n) ≡ false
upper_clean n h = ground arith

pub mac-IsPlain : (m : Mac) → IsMac m → IsPlain (fmt_mac 18 m)
unfolding fmt_mac any_of
mac-IsPlain m v = record {
  clean = rw (
    upper_clean (m.b0 / 16) (omega (arith, v.byte0)),
    upper_clean (m.b0 % 16) (omega arith),
    upper_clean (m.b1 / 16) (omega (arith, v.byte1)),
    upper_clean (m.b1 % 16) (omega arith),
    upper_clean (m.b2 / 16) (omega (arith, v.byte2)),
    upper_clean (m.b2 % 16) (omega arith),
    upper_clean (m.b3 / 16) (omega (arith, v.byte3)),
    upper_clean (m.b3 % 16) (omega arith),
    upper_clean (m.b4 / 16) (omega (arith, v.byte4)),
    upper_clean (m.b4 % 16) (omega arith),
    upper_clean (m.b5 / 16) (omega (arith, v.byte5)),
    upper_clean (m.b5 % 16) (omega arith),
  );
  short_text = omega arith;
}

pub length-flatten : (len : ℕ) (s : Bytes) → length (flatten len s) ≤ len - 1
unfolding flatten
length-flatten len s =
    omega (arith, length-map (take (len - 1) s) flat_byte, length-take (len - 1) s)

-- A text of up to 33 bytes is escaped, and read back without its control characters.
pub escaped-Reads : (len : ℕ) (s : Bytes) → len ≤ 34 → Reads (escaped_text len s) (flatten len s)
unfolding escaped_text
escaped-Reads len s h rest =
    let (e, p, r) =
      csv_field_survives (flatten len s) rest esc_ssid_max esc_ssid_max
        (omega (arith, length-flatten len s)) (omega (arith, length-flatten len s)) in
    rw p r
