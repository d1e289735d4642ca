-- ===== src/ReportFmt.antt =====
-- helpers/report_fmt.c: addresses, SSID shapes, frame types and signal bars. The
-- coordinates are in FlockStore/Line.
pub mod Shape
use flip_de_flock.Common.{
  Option, [], if◌then◌else◌, ltb, none, not, some, take, ℕ, ◌%◌, ◌&&◌, ◌+◌, ◌-◌, ◌/◌, ◌==◌, ◌||◌,
  ◌∷◌,
}
use flip_de_flock.Common.Bytes.{Bytes, between, codes, has_byte, nul}
use flip_de_flock.Common.Int.{ltb_ℤ, negsuc, pos, ℤ}
use flip_de_flock.Common.Mac.{Mac}

-- A digit of `%X`.
abbrev pub hex_upper : ℕ → ℕ
hex_upper n = if ltb n 10 then b'0' + n else b'A' + n - 10

-- `%02X`
abbrev pub hex_byte : ℕ → Bytes → Bytes
hex_byte b rest = hex_upper (b / 16) ∷ hex_upper (b % 16) ∷ rest

mac_text : Mac → Bytes
mac_text m = hex_byte m.b0 (
    b':'
    ∷ hex_byte m.b1 (
        b':'
        ∷ hex_byte m.b2 (b':' ∷ hex_byte m.b3 (b':' ∷ hex_byte m.b4 (b':' ∷ hex_byte m.b5 [])))))

-- `snprintf` into a buffer of `out_len` bytes, of which one is for the NUL.
unfoldable pub fmt_mac : ℕ → Mac → Bytes
unfolding mac_text
fmt_mac out_len m = take (out_len - 1) (mac_text m)

unfoldable pub fmt_mac_oui : ℕ → Mac → Bytes
fmt_mac_oui out_len m =
    take (out_len - 1)
      (hex_byte m.b0 (b':' ∷ hex_byte m.b1 (b':' ∷ hex_byte m.b2 (codes ":xx:xx:xx"))))

unfoldable pub shape_of : ℕ → ℕ
shape_of c =
    if between b'A' b'Z' c
    then b'A'
    else if between b'a' b'z' c
    then b'a'
    else if between b'0' b'9' c
    then b'd'
    else if c == b'-' || (c == b'_' || c == b'.')
    then c
    else b'?'

-- The loop, with `o` bytes written.
unfoldable pub shape_loop : ℕ → ℕ → Bytes → Bytes
shape_loop out_len o [] = []
shape_loop out_len o (c ∷ s) =
    let rest = shape_loop out_len (o + 1) s in if ltb (o + 1) out_len then shape_of c ∷ rest else []

-- `none` is a buffer of no bytes, which is left alone.
unfoldable pub fmt_ssid_shape : ℕ → Option Bytes → Option Bytes
fmt_ssid_shape out_len ssid = if out_len == 0 then none else some (shaped ssid)
  where
    shaped : Option Bytes → Bytes
    shaped none = take (out_len - 1) (codes "(none)")
    shaped (some []) = take (out_len - 1) (codes "(none)")
    shaped (some (c ∷ s)) = shape_loop out_len 0 (c ∷ s)

-- `FLOCK_FTYPE_SET`
abbrev pub flock_ftype_set : Bytes
flock_ftype_set = codes "PBROFLS"

unfoldable pub fmt_frame_char : ℕ → ℕ
fmt_frame_char ftype = if not (ftype == nul) && has_byte flock_ftype_set ftype then ftype else b'?'

unfoldable pub fmt_signal_level : ℤ → ℤ
fmt_signal_level rssi =
    if ltb_ℤ rssi (pos 0) || ltb_ℤ (pos 0) rssi
    then if not (ltb_ℤ rssi (negsuc 49))
      then pos 4
      else if not (ltb_ℤ rssi (negsuc 61))
      then pos 3
      else if not (ltb_ℤ rssi (negsuc 73))
      then pos 2
      else pos 1
    else negsuc 0
