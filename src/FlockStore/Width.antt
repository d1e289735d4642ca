-- ===== src/FlockStore/Width.antt =====
-- How long a line can get.
use flip_de_flock.Common.{
  Bool, Bool-cases, List, [], arith, false, inl, inr, length, length-append, length-take, ltb, refl,
  true, ℕ, ◌*◌, ◌+◌, ◌-◌, ◌<◌, ◌==◌, ◌^◌, ◌∷◌, ◌≡◌, ◌≤◌,
}
use flip_de_flock.Common.Bytes.{Bytes}
use flip_de_flock.Common.Int.{negsuc, pos, ℤ}
use flip_de_flock.Common.Mac.{Mac}
use flip_de_flock.Common.Numbers.{decimal_width, length-decimal}
use flip_de_flock.Common.Print.{decimal_ℤ, hex_u32}
use flip_de_flock.FlockStore.Columns.{length-flatten}
use flip_de_flock.FlockStore.Line.{
  FloatText, FlockStoreRec, bit_of, columns, esc_ssid_max, escaped_text, flatten,
  flock_store_label_len, flock_store_ssid_len, ftype_text, joined, text_in,
}
use flip_de_flock.FlockStore.RoundTrip.{IsMac}
use flip_de_flock.FlockStore.Stored.{IsCoord, IsI8, coord_text}
use flip_de_flock.ReportEscape.{csv_field_escape, quote, quote_body}
use flip_de_flock.ReportFmt.{fmt_mac}

quote_body-width : (limit j : ℕ) (s : Bytes) → length (quote_body limit j s) ≤ 2 * length s
unfolding quote_body
quote_body-width limit j [] = omega arith
quote_body-width limit j (c ∷ s) = elim (Bool-cases (c == quote)) [
  | inl q ↦ elim (Bool-cases (ltb limit (j + 2))) [
    | inl over ↦ rw (q, over) (omega arith)
    | inr room ↦ rw (q, room) (omega (arith, quote_body-width limit (j + 2) s))
  ]
  | inr p ↦ elim (Bool-cases (ltb limit (j + 1))) [
    | inl over ↦ rw (p, over) (omega arith)
    | inr room ↦ rw (p, room) (omega (arith, quote_body-width limit (j + 1) s))
  ]
]

csv-width : (s : Bytes) (n : ℕ) → length (text_in (csv_field_escape s n)) ≤ 2 * length s + 2
unfolding csv_field_escape
csv-width s n = ground (
  arith,
  length-take (n - 1) s,
  length-append (quote_body (n - 2) 1 s) (quote ∷ []),
  quote_body-width (n - 2) 1 s,
)

pub escaped-width : (len : ℕ) (s : Bytes) → length (escaped_text len s) ≤ 2 * (len - 1) + 2
unfolding escaped_text
escaped-width len s = omega (arith, csv-width (flatten len s) esc_ssid_max, length-flatten len s)

-- The bytes of the columns, and a comma in front of each but the first.
abbrev total : List Bytes → ℕ
total [] = 0
total (e ∷ []) = length e
total (e ∷ (f ∷ es)) = length e + (1 + total (f ∷ es))

length-joined : (es : List Bytes) → length (joined es) ≡ total es
unfolding joined
length-joined [] = refl
length-joined (e ∷ []) = refl
length-joined (e ∷ (f ∷ es)) =
    omega (arith, length-append e (b',' ∷ joined (f ∷ es)), length-joined (f ∷ es))

ftype-width : (t : ℕ) → length (ftype_text t) ≤ 1
unfolding ftype_text
ftype-width t = ground arith

rssi-width : (x : ℤ) → IsI8 x → length (decimal_ℤ x) ≤ 4
unfolding decimal_ℤ
rssi-width (pos n) h = omega (arith, decimal_width 2 n (omega arith))
rssi-width (negsuc n) h = omega (arith, decimal_width 2 (n + 1) (omega arith))

mac-width : (m : Mac) → length (fmt_mac 18 m) ≡ 17
unfolding fmt_mac
mac-width m = refl

hex-width : (v : ℕ) → length (hex_u32 v) ≡ 8
unfolding hex_u32
hex-width v = refl

-- A record as the application keeps it: values of their types, rungs and classes that exist, and
-- coordinates as they can be read back.
pub record IsStorable {F : Type 0} (fl : FloatText F) (r : FlockStoreRec F) : Type 0 where
  pub mac : IsMac r.mac
  pub rssi : IsI8 r.rssi
  pub channel : r.channel ≤ 255
  pub conf : r.conf ≤ 4
  pub ie_fp : r.ie_fp < 2 ^ 32
  pub count : r.count < 2 ^ 32
  pub epoch : r.epoch < 2 ^ 32
  pub dev_class : r.dev_class ≤ 4
  pub ua_type : r.ua_type ≤ 15
  pub lat : IsCoord fl r.lat
  pub lon : IsCoord fl r.lon
  pub heading : IsCoord fl r.heading
  pub op_lat : IsCoord fl r.op_lat
  pub op_lon : IsCoord fl r.op_lon

bit-small : (b : Bool) → bit_of b ≤ 1
bit-small true = omega arith
bit-small false = omega arith

module _ {F : Type 0} (fl : FloatText F) where
  -- Every record that the application keeps has a line that fits the buffer of 256 bytes.
  pub line_fits : (r : FlockStoreRec F) → IsStorable fl r → length (joined (columns fl r)) ≤ 248
  unfolding columns
  line_fits r v = omega (
    arith,
    length-joined (columns fl r),
    mac-width r.mac,
    escaped-width flock_store_ssid_len r.ssid,
    rssi-width r.rssi v.rssi,
    decimal_width 2 r.channel (omega (arith, v.channel)),
    ftype-width r.ftype,
    decimal_width 0 r.conf (omega (arith, v.conf)),
    hex-width r.ie_fp,
    (coord_text fl r.lat v.lat).0,
    (coord_text fl r.lon v.lon).0,
    (coord_text fl r.heading v.heading).0,
    (length-decimal r.count).1,
    decimal_width 0 (bit_of r.marked + 2 * bit_of r.seen_by_operator)
        (omega (arith, bit-small r.marked, bit-small r.seen_by_operator)),
    (length-decimal r.epoch).1,
    decimal_width 0 r.dev_class (omega (arith, v.dev_class)),
    decimal_width 0 (bit_of r.hidden) (omega (arith, bit-small r.hidden)),
    escaped-width flock_store_label_len r.label,
    (coord_text fl r.op_lat v.op_lat).0,
    (coord_text fl r.op_lon v.op_lon).0,
    decimal_width 1 r.ua_type (omega (arith, v.ua_type)),
  )
