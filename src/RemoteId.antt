-- ===== src/RemoteId.antt =====
-- helpers/open_drone_id.c: ASTM F3411 messages. Bytes are numbers below 256.
pub mod Text
pub mod Merge
pub mod Whole
use flip_de_flock.Common.{
  Bool, List, Option, [], drop, false, if◌then◌else◌, leb, length, ltb, none, not, some, suc, take,
  true, zero, ℕ, ◌%◌, ◌&&◌, ◌*◌, ◌+◌, ◌-◌, ◌/◌, ◌==◌, ◌^◌, ◌||◌, ◌∷◌,
}
use flip_de_flock.Common.Bytes.{Bytes, between, char_at, is_empty}
use flip_de_flock.Common.Int.{negsuc, pos, ℤ}

-- What the decoder does with floats: int32 to degrees, the tests for a place off the globe, and
-- the scales of direction, speed and altitude.
pub record OdidFloats (F : Type 0) : Type 0 where
  pub nan : F
  pub of_ℕ : ℕ → F
  pub degrees : ℤ → F
  pub lat_off : F → Bool
  pub lon_off : F → Bool
  pub add_180 : F → F
  pub speed_low : F → F
  pub speed_high : F → F
  pub altitude : F → F

pub record OdidReport (F : Type 0) : Type 0 where
  pub have_id : Bool
  pub uas_id : Bytes
  pub id_type : ℕ
  pub ua_type : ℕ
  pub have_location : Bool
  pub lat : F
  pub lon : F
  pub alt_geo_m : F
  pub height_m : F
  pub speed_mps : F
  pub direction_deg : F
  pub have_system : Bool
  pub op_lat : F
  pub op_lon : F
  pub have_operator_id : Bool
  pub operator_id : Bytes

unfoldable pub rd_u16 : Bytes → ℕ → ℕ
rd_u16 p at = char_at p at + 256 * char_at p (at + 1)

abbrev to_i32 : ℕ → ℤ
to_i32 v = if ltb v (2 ^ 31) then pos v else negsuc (2 ^ 32 - 1 - v)

unfoldable pub rd_i32 : Bytes → ℕ → ℤ
rd_i32 p at = to_i32 (rd_u16 p at + 65536 * rd_u16 p (at + 2))

abbrev pub is_zero_i32 : ℤ → Bool
is_zero_i32 (pos n) = n == 0
is_zero_i32 (negsuc n) = false

unfoldable pub decode_latlon : {F : Type 0} → OdidFloats F → ℤ → ℤ → Option (F × F)
decode_latlon fl lat_enc lon_enc =
    if is_zero_i32 lat_enc && is_zero_i32 lon_enc
    then none
    else if fl.lat_off (fl.degrees lat_enc) || fl.lon_off (fl.degrees lon_enc)
    then none
    else some (fl.degrees lat_enc, fl.degrees lon_enc)

-- The loop of `copy_text`, with room for `room` more bytes.
unfoldable pub copy_printable : ℕ → Bytes → Bytes
copy_printable room [] = []
copy_printable zero (c ∷ s) = []
copy_printable (suc room) (c ∷ s) =
    let kept = copy_printable room s in
    let dropped = copy_printable (suc room) s in
    if c == 0 then [] else if between 0x20 0x7e c then c ∷ kept else dropped

unfoldable pub trim_end : Bytes → Bytes
trim_end [] = []
trim_end (c ∷ s) = let rest = trim_end s in if c == b' ' && is_empty rest then [] else c ∷ rest

unfoldable pub copy_text : Bytes → ℕ → ℕ → Bytes
copy_text src n dst_len = trim_end (copy_printable (dst_len - 1) (take n src))

unfoldable pub odid_report_init : {F : Type 0} → OdidFloats F → OdidReport F
odid_report_init fl = record {
  have_id = false;
  uas_id = [];
  id_type = 0;
  ua_type = 0;
  have_location = false;
  lat = fl.nan;
  lon = fl.nan;
  alt_geo_m = fl.nan;
  height_m = fl.nan;
  speed_mps = fl.nan;
  direction_deg = fl.nan;
  have_system = false;
  op_lat = fl.nan;
  op_lon = fl.nan;
  have_operator_id = false;
  operator_id = [];
}

-- The four message types that are used, each from the 25 bytes of a message.
unfoldable pub parse_basic_id : {F : Type 0} → Bytes → OdidReport F → OdidReport F
parse_basic_id m out =
    let id = copy_text (drop 2 m) 20 21 in
    record out {
      uas_id = if is_empty id then out.uas_id else id;
      id_type = if is_empty id then out.id_type else char_at m 1 / 16;
      ua_type = char_at m 1 % 16;
      have_id = true;
    }

abbrev pub fst_or : {F : Type 0} → Option (F × F) → F → F
fst_or none old = old
fst_or (some (a, b)) old = a

abbrev pub snd_or : {F : Type 0} → Option (F × F) → F → F
snd_or none old = old
snd_or (some (a, b)) old = b

unfoldable pub parse_location : {F : Type 0} → OdidFloats F → Bytes → OdidReport F → OdidReport F
parse_location fl m out =
    let place = decode_latlon fl (rd_i32 m 4) (rd_i32 m 8) in
    let dir = fl.of_ℕ (char_at m 2) in
    let speed = fl.of_ℕ (char_at m 3) in
    record out {
      lat = fst_or place out.lat;
      lon = snd_or place out.lon;
      direction_deg =
          if leb (char_at m 2) 179
          then if char_at m 1 / 2 % 2 == 1 then fl.add_180 dir else dir
          else fl.nan;
      speed_mps = if char_at m 1 % 2 == 1 then fl.speed_high speed else fl.speed_low speed;
      alt_geo_m = if rd_u16 m 14 == 0 then fl.nan else fl.altitude (fl.of_ℕ (rd_u16 m 14));
      height_m = if rd_u16 m 16 == 0 then fl.nan else fl.altitude (fl.of_ℕ (rd_u16 m 16));
      have_location = true;
    }

unfoldable pub parse_system : {F : Type 0} → OdidFloats F → Bytes → OdidReport F → OdidReport F
parse_system fl m out = elim (decode_latlon fl (rd_i32 m 2) (rd_i32 m 6)) [
  | none ↦ out
  | some (la, lo) ↦ record out { op_lat = la; op_lon = lo; have_system = true }
]

unfoldable pub parse_operator_id : {F : Type 0} → Bytes → OdidReport F → OdidReport F
parse_operator_id m out =
    let id = copy_text (drop 2 m) 20 21 in
    record out {
      operator_id = if is_empty id then out.operator_id else id;
      have_operator_id = not (is_empty id) || out.have_operator_id;
    }

-- The report after a message, and whether the message was used.
unfoldable pub parse_one : {F : Type 0} → OdidFloats F → Bytes → OdidReport F → OdidReport F × Bool
parse_one fl m out =
    if char_at m 0 / 16 == 0
    then (parse_basic_id m out, true)
    else if char_at m 0 / 16 == 1
    then (parse_location fl m out, true)
    else if char_at m 0 / 16 == 4
    then (parse_system fl m out, true)
    else if char_at m 0 / 16 == 5
    then (parse_operator_id m out, true)
    else (out, false)

abbrev pub odid_message_size : ℕ
odid_message_size = 25

-- `n` messages one behind the other.
unfoldable pub messages : ℕ → Bytes → List Bytes
messages zero s = []
messages (suc n) s = take odid_message_size s ∷ messages n (drop odid_message_size s)

-- What the loops decode: the contents of a pack whose counts fit, or all the whole messages.
unfoldable pub messages_in : Bytes → List Bytes
messages_in msgs =
    if char_at msgs 0 / 16 == 15
    then if not (char_at msgs 1 == odid_message_size)
      then []
      else if char_at msgs 2 == 0 || ltb 9 (char_at msgs 2)
      then []
      else if ltb (length msgs) (char_at msgs 2 * odid_message_size + 3)
      then []
      else messages (char_at msgs 2) (drop 3 msgs)
    else messages (length msgs / odid_message_size) msgs

unfoldable pub parse_all :
    {F : Type 0} → OdidFloats F → List Bytes → OdidReport F → OdidReport F × Bool
parse_all fl [] out = (out, false)
parse_all fl (m ∷ ms) out =
    let (first, used) = parse_one fl m out in
    let (rest, any) = parse_all fl ms first in (rest, used || any)

unfoldable pub odid_parse_messages :
    {F : Type 0} → OdidFloats F → Bytes → OdidReport F → OdidReport F × Bool
odid_parse_messages fl msgs out =
    if ltb (length msgs) odid_message_size
    then (out, false)
    else parse_all fl (messages_in msgs) out

abbrev pub odid_ble_app_code : ℕ
odid_ble_app_code = 0x0d

unfoldable pub odid_parse_ble_service_data :
    {F : Type 0} → OdidFloats F → Bytes → OdidReport F → OdidReport F × Bool
odid_parse_ble_service_data fl sd out =
    if ltb (length sd) (2 + odid_message_size)
    then (out, false)
    else if not (char_at sd 0 == odid_ble_app_code)
    then (out, false)
    else odid_parse_messages fl (drop 2 sd) out
