-- ===== src/Tests/Gps.antt =====
-- Positions from a receiver and from a phone, on whole degrees.
use flip_de_flock.Common.{
  Bool, Bool-cases, List, [], arith, false, inl, inr, leb, map, none, refl, some, true, ℕ, ◌++◌,
  ◌==◌, ◌||◌, ◌∷◌, ◌≡◌,
}
use flip_de_flock.Common.Bytes.{Bytes, c_string, codes, starts_with}
use flip_de_flock.Common.Int.{ltb_ℤ, negsuc, pos, pos_part, ℤ, ◌*ℤ◌, ◌+ℤ◌, ◌-ℤ◌}
use flip_de_flock.Common.Libc.{atoi, digit_value, read_digits, read_sign, skip_space}
use flip_de_flock.Common.Search.{All, any_of}
use flip_de_flock.EspParser.Fields.{esp_split_fields, split_more}
use flip_de_flock.GpsLink.{GpsLink}
use flip_de_flock.GpsLink.Phone.{
  GpsLocation, IsHonest, gps_rpc_on_location, on_location-IsHonest, status_ok,
}
use flip_de_flock.GpsLink.Sane.{IsSound, gps_worker, stream-IsSound}
use flip_de_flock.GpsParser.{
  GpsFloats, at_star, degrees_of, drop_checksum, nmea_hex, nmea_parse_line, nmea_to_decimal,
  nmea_tokenize, parse_gll, parse_typed, stated_sum, xor_bytes,
}
use flip_de_flock.GpsParser.Checksum.{IsTextByte, damaged_sentence_refused}
use flip_de_flock.GpsParser.Convert.{quot_ℤ}
use flip_de_flock.ReconApp.Types.{GpsState}

abbrev pub whole_degrees : GpsFloats ℤ
whole_degrees = record {
  nan = negsuc 999;
  isnan = λ x. ltb_ℤ x (negsuc 900);
  lt = ltb_ℤ;
  of_ℤ = λ x. x;
  trunc = λ x. x;
  add = λ x y. x +ℤ y;
  sub = λ x y. x -ℤ y;
  mul = λ x y. x *ℤ y;
  div = λ x y. quot_ℤ x (pos_part y);
  neg = λ x. pos 0 -ℤ x;
  tiny = pos 1;
  strtof = atoi;
}

abbrev pub no_position : GpsState ℤ
no_position = record {
  valid = false;
  lat = pos 0;
  lon = pos 0;
  course = pos 0;
  sats = 0;
  fix_tick = 0;
}

abbrev no_byte : ℕ → Bool
no_byte c = c == 0 || leb 256 c

bytes_in : (s : Bytes) → any_of no_byte s ≡ false → All IsTextByte s
unfolding any_of
bytes_in [] h = tt
bytes_in (c ∷ s) h = elim (Bool-cases (no_byte c)) [
  | inl big ↦ absurd (cc (h, big))
  | inr small ↦ ((ground (arith, small), ground (arith, small)), bytes_in s (rw small at h))
]

abbrev talker : Bytes
talker = codes "GPGLL,"

abbrev behind : Bytes
behind = codes "200,N,01300,E,0,A"

abbrev sum_text : Bytes
sum_text = codes "1F"

sentence_fix :
    nmea_parse_line whole_degrees (b'$' ∷ ((talker ++ b'5' ∷ behind) ++ b'*' ∷ sum_text))
    ≡ some (record {
      valid = true;
      lat = pos 52;
      lon = pos 13;
      sats = negsuc 0;
      has_course = false;
      course = pos 0;
    })
unfolding nmea_parse_line c_string drop_checksum at_star stated_sum xor_bytes nmea_hex nmea_tokenize
    esp_split_fields split_more parse_typed parse_gll nmea_to_decimal degrees_of starts_with
    read_sign skip_space read_digits digit_value quot_ℤ ◌+ℤ◌ ◌-ℤ◌ ◌*ℤ◌ atoi
sentence_fix = refl

-- The 5 of a latitude turned into a 6.
damaged_sentence_refused_example :
    nmea_parse_line whole_degrees (b'$' ∷ ((talker ++ b'6' ∷ behind) ++ b'*' ∷ sum_text)) ≡ none
unfolding any_of
damaged_sentence_refused_example =
    damaged_sentence_refused whole_degrees talker behind sum_text b'5' b'6' (bytes_in talker refl)
      (bytes_in behind refl) (omega arith, omega arith) (omega arith, omega arith) refl refl
      (omega arith) sentence_fix

start : GpsLink whole_degrees
start = record { line = []; gps = no_position }

start-IsSound : IsSound whole_degrees start
unfolding start
start-IsSound = record { fits = omega arith; sane = ((λ h. cc), omega arith) }

abbrev stream : List (ℕ × ℕ)
stream = map (λ c. (70, c)) (b'$' ∷ (talker ++ b'5' ∷ behind) ++ b'*' ∷ (sum_text ++ b'\n' ∷ []))

stream-IsSound_example : IsSound whole_degrees (gps_worker whole_degrees stream start)
stream-IsSound_example = stream-IsSound whole_degrees stream start start-IsSound

-- Berlin, from a phone that is 8 m off and walks.
abbrev place : GpsLocation
place = record {
  latitude = pos 525200000;
  longitude = pos 134050000;
  heading = 9000;
  speed = 1400;
  accuracy = 8000;
  satellites = 0;
}

on_location-IsHonest_example :
    IsHonest whole_degrees 5000
      (gps_rpc_on_location whole_degrees 5000 status_ok (some place) no_position)
on_location-IsHonest_example =
    on_location-IsHonest whole_degrees 5000 status_ok (some place) no_position
