-- ===== src/GpsLink.antt =====
-- helpers/gps_link.c: a receiver on the UART, and the position that the application keeps.
pub mod Sane
pub mod Phone
use flip_de_flock.Common.{
  Bool, Option, [], false, if◌then◌else◌, length, ltb, none, not, some, true, ℕ, ◌&&◌, ◌++◌, ◌-◌,
  ◌==◌, ◌||◌, ◌∷◌,
}
use flip_de_flock.Common.Bytes.{Bytes, c_string, is_empty}
use flip_de_flock.Common.Int.{ltb_ℤ, pos, pos_part, ℤ}
use flip_de_flock.GpsParser.{GpsFloats, NmeaFix, gps_coord_sane, nmea_parse_line}
use flip_de_flock.ReconApp.Types.{GpsState}

abbrev pub gps_line_max : ℕ
gps_line_max = 128

module _ {F : Type 0} (fl : GpsFloats F) where
  -- `gps_publish_fix`, at the time `now`.
  unfoldable pub gps_publish_fix : ℕ → F → F → ℤ → Bool → GpsState F → GpsState F
  gps_publish_fix now lat lon sats valid gps =
      let placed =
        if valid && gps_coord_sane fl lat lon
        then record gps { lat = lat; lon = lon; valid = true; fix_tick = now }
        else if not valid
        then record gps { valid = false }
        else gps in
      if ltb_ℤ sats (pos 0) then placed else record placed { sats = pos_part sats }

  abbrev pub apply_fix : ℕ → Option (NmeaFix F) → GpsState F → GpsState F
  apply_fix now none gps = gps
  apply_fix now (some fix) gps =
      let placed = gps_publish_fix now fix.lat fix.lon fix.sats fix.valid gps in
      if fix.has_course then record placed { course = fix.course } else placed

  unfoldable pub gps_apply_nmea : ℕ → Bytes → GpsState F → GpsState F
  gps_apply_nmea now line gps = apply_fix now (nmea_parse_line fl line) gps

  -- The worker's loop, for a byte: the line so far, and the position. The bytes of a line are a
  -- C string, which ends at a NUL.
  pub record GpsLink : Type 0 where
    pub line : Bytes
    pub gps : GpsState F

  unfoldable pub gps_worker_byte : ℕ → ℕ → GpsLink → GpsLink
  gps_worker_byte now c l =
      if c == b'\n' || c == b'\r'
      then (if is_empty l.line
          then l
          else record { line = []; gps = gps_apply_nmea now (c_string l.line) l.gps })
      else if ltb (length l.line) (gps_line_max - 1)
      then record l { line = l.line ++ c ∷ [] }
      else record l { line = [] }
