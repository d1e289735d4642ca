-- ===== src/FlockStore/Line.antt =====
-- helpers/flock_store.c: a stored hit as a line of hits.csv.
use flip_de_flock.Common.{
  Bool, List, Option, [], if◌then◌else◌, leb, length, ltb, map, none, not, some, take, ℕ, ◌&&◌, ◌*◌,
  ◌++◌, ◌+◌, ◌-◌, ◌==◌, ◌||◌, ◌∷◌,
}
use flip_de_flock.Common.Bytes.{Bytes, has_byte, nul}
use flip_de_flock.Common.Int.{ℤ}
use flip_de_flock.Common.Mac.{Mac}
use flip_de_flock.Common.Print.{decimal, decimal_ℤ, hex_u32}
use flip_de_flock.ReportEscape.{csv_field_escape}
use flip_de_flock.ReportFmt.{flock_ftype_set, fmt_mac}

-- What the code asks of floats: NAN, `isnan`, "%.6f", and `strtof` with what `end` points to.
pub record FloatText (F : Type 0) : Type 0 where
  pub nan : F
  pub isnan : F → Bool
  pub print_6 : F → Bytes
  pub strtof : Bytes → F × Bytes

-- helpers/report_fmt.c: `fmt_coord`
unfoldable pub fmt_coord : {F : Type 0} → FloatText F → ℕ → F → Bytes → Bytes
fmt_coord fl out_len value fallback =
    take (out_len - 1) (if fl.isnan value then fallback else fl.print_6 value)

-- `confirmed` of the source is `seen_by_operator` here.
pub record FlockStoreRec (F : Type 0) : Type 0 where
  pub mac : Mac
  pub ssid : Bytes
  pub rssi : ℤ
  pub channel : ℕ
  pub ftype : ℕ
  pub conf : ℕ
  pub ie_fp : ℕ
  pub lat : F
  pub lon : F
  pub heading : F
  pub count : ℕ
  pub marked : Bool
  pub seen_by_operator : Bool
  pub epoch : ℕ
  pub dev_class : ℕ
  pub hidden : Bool
  pub label : Bytes
  pub op_lat : F
  pub op_lon : F
  pub ua_type : ℕ

abbrev pub flock_store_ssid_len : ℕ
flock_store_ssid_len = 33

abbrev pub flock_store_label_len : ℕ
flock_store_label_len = 25

abbrev pub flock_store_line_max : ℕ
flock_store_line_max = 256

-- `ESC_SSID_MAX`
abbrev pub esc_ssid_max : ℕ
esc_ssid_max = flock_store_ssid_len * 2 + 3

-- Control characters become spaces.
abbrev pub flat_byte : ℕ → ℕ
flat_byte c = if ltb c 0x20 || c == 0x7F then b' ' else c

-- The loop that copies a text into a buffer of `len` bytes.
unfoldable pub flatten : ℕ → Bytes → Bytes
flatten len s = map flat_byte (take (len - 1) s)

abbrev pub text_in : Option Bytes → Bytes
text_in none = []
text_in (some e) = e

-- `ssid_esc` and `label_esc`
unfoldable pub escaped_text : ℕ → Bytes → Bytes
escaped_text len s = text_in (csv_field_escape (flatten len s) esc_ssid_max)

unfoldable pub ftype_text : ℕ → Bytes
ftype_text t = if not (t == nul) && has_byte flock_ftype_set t then t ∷ [] else []

abbrev pub bit_of : Bool → ℕ
bit_of b = if b then 1 else 0

-- The columns, in order.
unfoldable pub columns : {F : Type 0} → FloatText F → FlockStoreRec F → List Bytes
columns fl r =
    fmt_mac 18 r.mac
    ∷ escaped_text flock_store_ssid_len r.ssid
    ∷ decimal_ℤ r.rssi
    ∷ decimal r.channel
    ∷ ftype_text r.ftype
    ∷ decimal r.conf
    ∷ hex_u32 r.ie_fp
    ∷ fmt_coord fl 16 r.lat []
    ∷ fmt_coord fl 16 r.lon []
    ∷ fmt_coord fl 16 r.heading []
    ∷ decimal r.count
    ∷ decimal (bit_of r.marked + 2 * bit_of r.seen_by_operator)
    ∷ decimal r.epoch
    ∷ decimal r.dev_class
    ∷ decimal (bit_of r.hidden)
    ∷ escaped_text flock_store_label_len r.label
    ∷ fmt_coord fl 16 r.op_lat []
    ∷ fmt_coord fl 16 r.op_lon []
    ∷ decimal r.ua_type
    ∷ []

unfoldable pub joined : List Bytes → Bytes
joined [] = []
joined (t ∷ []) = t
joined (t ∷ (u ∷ ts)) = t ++ b',' ∷ joined (u ∷ ts)

-- The text in `out`; its length is the result, and where the line does not fit there is none.
unfoldable pub flock_store_fmt_line : {F : Type 0} → FloatText F → ℕ → FlockStoreRec F → Bytes
flock_store_fmt_line fl out_len r =
    let text = joined (columns fl r) ++ b'\n' ∷ [] in if leb out_len (length text) then [] else text
