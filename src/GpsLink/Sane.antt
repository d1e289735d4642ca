-- ===== src/GpsLink/Sane.antt =====
-- A position that counts as a fix is a place on the globe.
use flip_de_flock.Common.{
  Bool, Bool-cases, List, Option, Option-cases, [], arith, drop, false, get_or, if◌then◌else◌, inl,
  inr, leb, length, length-append, ltb, ltb→lt, none, not, some, subst, true, ℕ, ◌&&◌, ◌-◌, ◌<◌,
  ◌==◌, ◌||◌, ◌∷◌, ◌≡◌, ◌≤◌,
}
use flip_de_flock.Common.Bytes.{Bytes, c_string, char_at, codes, is_empty, starts_with}
use flip_de_flock.Common.Int.{ltb_ℤ, negsuc, pos, pos_part, ℤ}
use flip_de_flock.Common.Libc.{atoi}
use flip_de_flock.GpsLink.{
  GpsLink, apply_fix, gps_apply_nmea, gps_line_max, gps_publish_fix, gps_worker_byte,
}
use flip_de_flock.GpsParser.{
  GpsFloats, NmeaFix, clamp_sats, drop_checksum, gps_coord_sane, nmea_parse_line, nmea_tokenize,
  parse_body, parse_gga, parse_gll, parse_rmc, parse_text, parse_typed,
}
use flip_de_flock.ReconApp.Types.{GpsState}

module _ {F : Type 0} (fl : GpsFloats F) where
  abbrev pub IsSane : GpsState F → Type 0
  IsSane gps = (gps.valid ≡ true → gps_coord_sane fl gps.lat gps.lon ≡ true) × (gps.sats ≤ 64)

  -- What an answer may claim of satellites.
  abbrev pub FewSats : ℤ → Type 0
  FewSats s = pos_part s ≤ 64

  placed-IsSane :
      (now : ℕ) (lat lon : F) (valid : Bool) (gps : GpsState F)
      → IsSane gps
      → IsSane (
          if valid && gps_coord_sane fl lat lon
          then record gps { lat = lat; lon = lon; valid = true; fix_tick = now }
          else if not valid
          then record gps { valid = false }
          else gps)
  placed-IsSane now lat lon false gps s = ((λ h. absurd (cc h)), s.1)
  placed-IsSane now lat lon true gps s = elim (Bool-cases (gps_coord_sane fl lat lon)) [
    | inl sane ↦ rw sane ((λ h. sane), s.1)
    | inr wild ↦ rw wild s
  ]

  publish-IsSane :
      (now : ℕ) (lat lon : F) (sats : ℤ) (valid : Bool) (gps : GpsState F)
      → FewSats sats
      → IsSane gps
      → IsSane (gps_publish_fix fl now lat lon sats valid gps)
  unfolding gps_publish_fix
  publish-IsSane now lat lon sats valid gps f s = elim (Bool-cases (ltb_ℤ sats (pos 0))) [
    | inl unreported ↦ rw unreported (placed-IsSane now lat lon valid gps s)
    | inr reported ↦ rw reported ((placed-IsSane now lat lon valid gps s).0, f)
  ]

  fix-IsSane :
      (now : ℕ) (fix : NmeaFix F) (gps : GpsState F)
      → FewSats fix.sats
      → IsSane gps
      → IsSane (apply_fix fl now (some fix) gps)
  fix-IsSane now fix gps f s =
      let p = publish-IsSane now fix.lat fix.lon fix.sats fix.valid gps f s in
      elim (Bool-cases fix.has_course) [
        | inl course ↦ rw course p
        | inr none_given ↦ rw none_given p
      ]

  rmc-FewSats : (f : List Bytes) → FewSats (parse_rmc fl f).sats
  unfolding parse_rmc
  rmc-FewSats f =
      elim (Bool-cases (
        char_at (get_or f 2 []) 0 == b'A'
        && (leb 9 (length f) && not (is_empty (get_or f 8 []))))) [
          | inl course ↦ rw course (omega arith)
          | inr none_given ↦ rw none_given (omega arith)
        ]

  clamp-FewSats : (s : ℤ) → FewSats (clamp_sats fl s)
  unfolding clamp_sats
  clamp-FewSats (pos n) = ground arith
  clamp-FewSats (negsuc n) = ground arith

  abbrev AnyFewSats : Option (NmeaFix F) → Type 0
  AnyFewSats none = Unit {0}
  AnyFewSats (some fix) = FewSats fix.sats

  typed-FewSats : (type : Bytes) (f : List Bytes) → AnyFewSats (parse_typed fl type f)
  unfolding parse_typed
  typed-FewSats type f = elim (Bool-cases (starts_with type (codes "RMC") && leb 7 (length f))) [
    | inl rmc ↦ rw rmc (rmc-FewSats f)
    | inr r ↦ elim (Bool-cases (starts_with type (codes "GGA") && leb 8 (length f))) [
      | inl gga ↦ rw (r, gga) (unfold parse_gga in clamp-FewSats (atoi (get_or f 7 [])))
      | inr g ↦ elim (Bool-cases (starts_with type (codes "GLL") && leb 7 (length f))) [
        | inl gll ↦ rw (r, g, gll) (unfold parse_gll in omega arith)
        | inr other ↦ rw (r, g, other) tt
      ]
    ]
  ]

  body-FewSats : (o : Option Bytes) → AnyFewSats (parse_body fl o)
  body-FewSats none = tt
  body-FewSats (some body) = typed-FewSats (drop 2 body) (nmea_tokenize (b'$' ∷ body) 20)

  text-FewSats : (text : Bytes) → AnyFewSats (parse_text fl text)
  text-FewSats [] = tt
  text-FewSats (c ∷ body) = elim (Bool-cases (c == b'$' && leb 7 (length (c ∷ body)))) [
    | inl sentence ↦ rw sentence (body-FewSats (drop_checksum body))
    | inr other ↦ rw other tt
  ]

  line-FewSats : (line : Bytes) → AnyFewSats (nmea_parse_line fl line)
  unfolding nmea_parse_line
  line-FewSats line = text-FewSats (c_string line)

  parse-FewSats :
      (line : Bytes) {fix : NmeaFix F} → nmea_parse_line fl line ≡ some fix → FewSats fix.sats
  parse-FewSats line h = subst AnyFewSats h (line-FewSats line)

  apply-IsSane :
      (now : ℕ) (line : Bytes) (gps : GpsState F)
      → IsSane gps
      → IsSane (gps_apply_nmea fl now line gps)
  unfolding gps_apply_nmea
  apply-IsSane now line gps s = elim (Option-cases (nmea_parse_line fl line)) [
    | inl e ↦ rw e s
    | inr (fix, e) ↦ rw e (fix-IsSane now fix gps (parse-FewSats line e) s)
  ]

  -- The states of the receiver's link: a line that fits, and a sane position.
  pub record IsSound (l : GpsLink fl) : Type 0 where
    pub fits : length l.line < 128
    pub sane : IsSane l.gps

  byte-IsSound : (now c : ℕ) (l : GpsLink fl) → IsSound l → IsSound (gps_worker_byte fl now c l)
  unfolding gps_worker_byte
  byte-IsSound now c l s = elim (Bool-cases (c == b'\n' || c == b'\r')) [
    | inl ends ↦ elim (Bool-cases (is_empty l.line)) [
      | inl bare ↦ rw (ends, bare) s
      | inr some_text ↦
          rw (ends, some_text)
            (record { fits = omega arith; sane = apply-IsSane now (c_string l.line) l.gps s.sane })
    ]
    | inr goes_on ↦ elim (Bool-cases (ltb (length l.line) (gps_line_max - 1))) [
      | inl room ↦
          rw (goes_on, room)
            (record {
              fits = omega (
                arith,
                length-append l.line (c ∷ []),
                ltb→lt (length l.line) (gps_line_max - 1) room,
              );
              sane = s.sane;
            })
      | inr full ↦ rw (goes_on, full) (record { fits = omega arith; sane = s.sane })
    ]
  ]

  -- Bytes one after the other, each with the tick at which it is read.
  abbrev pub gps_worker : List (ℕ × ℕ) → GpsLink fl → GpsLink fl
  gps_worker [] l = l
  gps_worker ((now, c) ∷ bs) l = gps_worker bs (gps_worker_byte fl now c l)

  -- Whatever bytes a receiver sends, in whatever order and however broken its sentences are, a
  -- position that counts as a fix passes the sanity test, at most 64 satellites are reported, and the
  -- line buffer of 128 bytes is never overrun.
  pub stream-IsSound : (bs : List (ℕ × ℕ)) (l : GpsLink fl) → IsSound l → IsSound (gps_worker bs l)
  stream-IsSound [] l s = s
  stream-IsSound ((now, c) ∷ bs) l s =
      stream-IsSound bs (gps_worker_byte fl now c l) (byte-IsSound now c l s)
