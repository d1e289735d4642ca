-- ===== src/GpsParser.antt =====
-- helpers/gps_parser.c and helpers/gps_rpc_convert.c: positions from NMEA sentences and from the
-- phone.
pub mod Checksum
pub mod Convert
use flip_de_flock.Common.{
  Bool, List, Option, [], bit_xor, drop, false, get_or, if◌then◌else◌, leb, length, none, not, some,
  true, ℕ, ◌&&◌, ◌*◌, ◌+◌, ◌-◌, ◌==◌, ◌>>=◌, ◌||◌, ◌∷◌,
}
use flip_de_flock.Common.Bytes.{
  Bytes, between, c_string, char_at, codes, is_empty, nul, starts_with,
}
use flip_de_flock.Common.Int.{ltb_ℤ, negsuc, pos, ℤ}
use flip_de_flock.Common.Libc.{atoi}
use flip_de_flock.EspParser.Fields.{esp_split_fields, split_more}

-- What the code does with floats. `of_ℤ` is the conversion of an integer, `trunc` the cast back.
pub record GpsFloats (F : Type 0) : Type 0 where
  pub nan : F
  pub isnan : F → Bool
  pub lt : F → F → Bool
  pub of_ℤ : ℤ → F
  pub trunc : F → ℤ
  pub add : F → F → F
  pub sub : F → F → F
  pub mul : F → F → F
  pub div : F → F → F
  pub neg : F → F
  -- 0.0001f
  pub tiny : F
  pub strtof : Bytes → F

-- One hex nibble; `none` is the -1 of the source.
unfoldable pub nmea_hex : ℕ → Option ℕ
nmea_hex c =
    if between b'0' b'9' c
    then some (c - b'0')
    else if between b'A' b'F' c
    then some (c - b'A' + 10)
    else if between b'a' b'f' c
    then some (c - b'a' + 10)
    else none

-- The loop is that of `esp_split_fields`.
unfoldable pub nmea_tokenize : Bytes → ℕ → List Bytes
unfolding esp_split_fields split_more
nmea_tokenize = esp_split_fields

unfoldable pub xor_bytes : ℕ → Bytes → ℕ
xor_bytes sum [] = sum
xor_bytes sum (c ∷ s) = xor_bytes (bit_xor sum c) s

abbrev pub in_front : ℕ → Option (Bytes × Bytes) → Option (Bytes × Bytes)
in_front c none = none
in_front c (some (pre, post)) = some (c ∷ pre, post)

-- `strchr(line, '*')`, which stops at a NUL: what stands in front of the star, and behind it.
unfoldable pub at_star : Bytes → Option (Bytes × Bytes)
at_star [] = none
at_star (c ∷ s) =
    let rest = at_star s in
    if c == nul then none else if c == b'*' then some ([], s) else in_front c rest

-- `(hi << 4) | lo` of the two digits behind the star.
unfoldable pub stated_sum : Bytes → Option ℕ
stated_sum post = do
  hi ← nmea_hex (char_at post 0)
  lo ← nmea_hex (char_at post 1)
  some (hi * 16 + lo)

-- The sentence without its checksum, if that is right or there is none. `body` follows the dollar.
abbrev pub sum_agrees : ℕ → Option ℕ → Bool
sum_agrees sum none = false
sum_agrees sum (some stated) = stated == sum

abbrev pub checked_at : Bytes → Option (Bytes × Bytes) → Option Bytes
checked_at body none = some body
checked_at body (some (pre, post)) =
    if sum_agrees (xor_bytes 0 pre) (stated_sum post) then some pre else none

unfoldable pub drop_checksum : Bytes → Option Bytes
drop_checksum body = checked_at body (at_star body)

pub record NmeaFix (F : Type 0) : Type 0 where
  pub valid : Bool
  pub lat : F
  pub lon : F
  pub sats : ℤ
  pub has_course : Bool
  pub course : F

module _ {F : Type 0} (fl : GpsFloats F) where
  -- The magnitude, before the sign of the hemisphere.
  unfoldable pub degrees_of : F → F
  degrees_of raw =
      let hundred = fl.of_ℤ (pos 100) in
      let deg = fl.of_ℤ (fl.trunc (fl.div raw hundred)) in
      let minutes = fl.sub raw (fl.mul deg hundred) in
      fl.add deg (fl.div minutes (fl.of_ℤ (pos 60)))

  unfoldable pub nmea_to_decimal : Bytes → Bytes → F
  nmea_to_decimal [] dir = fl.nan
  nmea_to_decimal (c ∷ s) dir =
      let dec = degrees_of (fl.strtof (c ∷ s)) in
      if char_at dir 0 == b'S' || char_at dir 0 == b'W' then fl.neg dec else dec

  abbrev in_range : F → ℕ → Bool
  in_range x most = not (fl.lt x (fl.neg (fl.of_ℤ (pos most))) || fl.lt (fl.of_ℤ (pos most)) x)

  abbrev near_zero : F → Bool
  near_zero x = fl.lt (fl.neg fl.tiny) x && fl.lt x fl.tiny

  unfoldable pub gps_coord_sane : F → F → Bool
  gps_coord_sane lat lon =
      not (fl.isnan lat || fl.isnan lon)
      && (in_range lat 90 && (in_range lon 180 && not (near_zero lat && near_zero lon)))

  abbrev pub no_fix : NmeaFix F
  no_fix = record {
    valid = false;
    lat = fl.nan;
    lon = fl.nan;
    sats = negsuc 0;
    has_course = false;
    course = fl.of_ℤ (pos 0);
  }

  abbrev pub position : List Bytes → ℕ → NmeaFix F → NmeaFix F
  position f i fix = record fix {
    lat = nmea_to_decimal (get_or f i []) (get_or f (i + 1) []);
    lon = nmea_to_decimal (get_or f (i + 2) []) (get_or f (i + 3) []);
  }

  unfoldable pub parse_rmc : List Bytes → NmeaFix F
  parse_rmc f =
      let valid = char_at (get_or f 2 []) 0 == b'A' in
      let course = get_or f 8 [] in
      let fix = position f 3 (record no_fix { valid = valid }) in
      if valid && (leb 9 (length f) && not (is_empty course))
      then record fix { has_course = true; course = fl.strtof course }
      else fix

  unfoldable pub clamp_sats : ℤ → ℤ
  clamp_sats s = if ltb_ℤ s (pos 0) then pos 0 else if ltb_ℤ (pos 64) s then pos 64 else s

  unfoldable pub parse_gga : List Bytes → NmeaFix F
  parse_gga f = position f 2 (record no_fix {
    sats = clamp_sats (atoi (get_or f 7 []));
    valid = ltb_ℤ (pos 0) (atoi (get_or f 6 []));
  })

  unfoldable pub parse_gll : List Bytes → NmeaFix F
  parse_gll f = position f 1 (record no_fix { valid = char_at (get_or f 6 []) 0 == b'A' })

  -- The cases for the type of the sentence, three bytes behind the dollar and the talker.
  unfoldable pub parse_typed : Bytes → List Bytes → Option (NmeaFix F)
  parse_typed type f =
      if starts_with type (codes "RMC") && leb 7 (length f)
      then some (parse_rmc f)
      else if starts_with type (codes "GGA") && leb 8 (length f)
      then some (parse_gga f)
      else if starts_with type (codes "GLL") && leb 7 (length f)
      then some (parse_gll f)
      else none

  abbrev pub parse_body : Option Bytes → Option (NmeaFix F)
  parse_body none = none
  parse_body (some body) = parse_typed (drop 2 body) (nmea_tokenize (b'$' ∷ body) 20)

  abbrev pub parse_text : Bytes → Option (NmeaFix F)
  parse_text [] = none
  parse_text (c ∷ body) =
      if c == b'$' && leb 7 (length (c ∷ body)) then parse_body (drop_checksum body) else none

  -- `none` is the result `false`. The line is a C string: it ends at the first NUL.
  unfoldable pub nmea_parse_line : Bytes → Option (NmeaFix F)
  nmea_parse_line line = parse_text (c_string line)
