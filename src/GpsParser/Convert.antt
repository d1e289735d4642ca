-- ===== src/GpsParser/Convert.antt =====
-- helpers/gps_rpc_convert.c: a position from the phone, in integers.
use flip_de_flock.Common.{
  Bool-cases, arith, if◌then◌else◌, inl, inr, leb, min, not, true, ℕ, ◌%◌, ◌&&◌, ◌+◌, ◌/◌, ◌<◌,
  ◌==◌, ◌^◌, ◌||◌, ◌≡◌, ◌≤◌, ◌⊎◌,
}
use flip_de_flock.Common.Int.{neg_part, negsuc, pos, pos_part, ℤ, ◌*ℤ◌, ◌+ℤ◌, ◌-ℤ◌}
use flip_de_flock.Common.Numbers.{IsI32}
use flip_de_flock.GpsParser.{GpsFloats, NmeaFix, gps_coord_sane}

-- Division and remainder of C: the quotient is cut towards zero, the remainder has the sign of the
-- dividend.
unfoldable pub quot_ℤ : ℤ → ℕ → ℤ
quot_ℤ (pos n) d = pos (n / d)
quot_ℤ (negsuc n) d = pos 0 -ℤ pos ((n + 1) / d)

unfoldable pub rem_ℤ : ℤ → ℕ → ℤ
rem_ℤ (pos n) d = pos (n % d)
rem_ℤ (negsuc n) d = pos 0 -ℤ pos ((n + 1) % d)

abbrev pub e7 : ℕ
e7 = 10000000

abbrev pub gps_rpc_accuracy_max_mm : ℕ
gps_rpc_accuracy_max_mm = 100000

-- `GpsRpcFix` has the fields of `NmeaFix`.
module _ {F : Type 0} (fl : GpsFloats F) where
  unfoldable pub gps_rpc_deg_from_e7 : ℤ → F
  gps_rpc_deg_from_e7 scaled =
      fl.add (fl.of_ℤ (quot_ℤ scaled e7)) (fl.div (fl.of_ℤ (rem_ℤ scaled e7)) (fl.of_ℤ (pos e7)))

  unfoldable pub gps_rpc_convert : ℤ → ℤ → ℕ → ℕ → ℕ → ℕ → NmeaFix F
  gps_rpc_convert latitude_e7 longitude_e7 heading_centideg speed_mm_s accuracy_mm satellites =
      let lat = gps_rpc_deg_from_e7 latitude_e7 in
      let lon = gps_rpc_deg_from_e7 longitude_e7 in
      let accurate = accuracy_mm == 0 || leb accuracy_mm gps_rpc_accuracy_max_mm in
      let valid = gps_coord_sane fl lat lon && accurate in
      let has_course =
        valid
        && (leb heading_centideg 36000 && (not (heading_centideg == 0) || not (speed_mm_s == 0))) in
      record {
        valid = valid;
        lat = lat;
        lon = lon;
        sats = if satellites == 0 then negsuc 0 else pos (min satellites 64);
        has_course = has_course;
        course =
            if has_course
            then fl.div (fl.of_ℤ (pos heading_centideg)) (fl.of_ℤ (pos 100))
            else fl.of_ℤ (pos 0);
      }

-- The two halves of a scaled `int32_t` add up to it, and both are small enough to be exact in a
-- single-precision float: the remainder is below 2 ^ 24, and so is the quotient.
pub split_exact :
    (x : ℤ)
    → IsI32 x
    → (quot_ℤ x e7 *ℤ pos e7 +ℤ rem_ℤ x e7 ≡ x)
      × (pos_part (rem_ℤ x e7) + neg_part (rem_ℤ x e7) < 2 ^ 24)
      × (pos_part (quot_ℤ x e7) + neg_part (quot_ℤ x e7) ≤ 214)
unfolding quot_ℤ rem_ℤ ◌*ℤ◌ ◌+ℤ◌ ◌-ℤ◌
split_exact (pos n) h = (ground arith, ground arith, ground arith)
split_exact (negsuc n) h = (ground arith, ground arith, ground arith)

module _ {F : Type 0} (fl : GpsFloats F) where
  -- What the phone sends is taken as a fix only if the place is sane and its accuracy, where it is
  -- reported, is 100 m or better; a course comes only with a fix, within a full turn and with a
  -- heading or a speed that is not zero; and between 1 and 64 satellites are reported, or none.
  pub convert_gate :
      (lat lon : ℤ) (heading speed accuracy sats : ℕ)
      → let fix = gps_rpc_convert fl lat lon heading speed accuracy sats in
        (fix.valid ≡ true → (gps_coord_sane fl fix.lat fix.lon ≡ true) × (accuracy ≤ 100000))
        × (fix.has_course ≡ true → (fix.valid ≡ true) × (heading ≤ 36000) × (0 < heading + speed))
        × ((fix.sats ≡ negsuc 0) ⊎ ((0 < pos_part fix.sats) × (pos_part fix.sats ≤ 64)))
  unfolding gps_rpc_convert
  convert_gate lat lon heading speed accuracy sats = (
    (λ h. (ground arith, ground arith)),
    (λ h. (ground arith, ground arith, ground arith)),
    elim (Bool-cases (sats == 0)) [
      | inl none_given ↦ inl (rw none_given)
      | inr given ↦ inr (rw given (ground arith, ground arith))
    ],
  )
