-- ===== src/Tests/Store.antt =====
-- A hit on the card.
use flip_de_flock.Common.{
  List, Option, [], arith, drop, false, length, none, refl, some, true, ℕ, ◌++◌, ◌+◌, ◌-◌, ◌<◌,
  ◌==◌, ◌∷◌, ◌≡◌,
}
use flip_de_flock.Common.Bytes.{Bytes, bytes_eq, c_string, codes, is_empty}
use flip_de_flock.Common.Int.{negsuc}
use flip_de_flock.Common.Print.{decimal, decimal_loop}
use flip_de_flock.Common.Search.{any_of}
use flip_de_flock.FlockStore.{flock_store_schema_supported}
use flip_de_flock.FlockStore.Accepts.{HasColumns, IsAccepted, parse_line-IsAccepted}
use flip_de_flock.FlockStore.Line.{FloatText, FlockStoreRec, flock_store_fmt_line}
use flip_de_flock.FlockStore.Parse.{flock_store_parse_line, read_fields, strip_eol}
use flip_de_flock.FlockStore.Stored.{IsCoord}
use flip_de_flock.FlockStore.Whole.{line_round_trip, stored}
use flip_de_flock.FlockStore.Width.{IsStorable}
use flip_de_flock.ReconApp.Load.{recon_hits_load, strip_cr, text_of_line, unknown_file_untouched}
use flip_de_flock.ReconApp.Saved.{Restored, add_read, recon_hits_rec_from_entry, saved_hit_returns}
use flip_de_flock.ReconApp.Types.{FlockEntry}
use flip_de_flock.ReportEscape.{csv_special}
use flip_de_flock.Tests.Table.{mac_b, row_a, row_b}

-- Coordinates that are whole degrees, and absent ones.
abbrev degrees : FloatText (Option ℕ)
degrees = record {
  nan = none;
  isnan = λ x. elim x [ none ↦ true | some n ↦ false ];
  print_6 = λ x. elim x [ none ↦ [] | some n ↦ decimal n ];
  strtof = λ s. (elim s [ [] ↦ none | c ∷ t ↦ some (c - 48) ], drop 1 s);
}

abbrev hit : FlockStoreRec (Option ℕ)
hit = record {
  mac = mac_b;
  ssid = codes "Flock, \"Lot 7\"";
  rssi = negsuc 60;
  channel = 11;
  ftype = b'S';
  conf = 3;
  ie_fp = 77;
  lat = some 5;
  lon = some 7;
  heading = none;
  count = 12;
  marked = true;
  seen_by_operator = false;
  epoch = 1700000000;
  dev_class = 4;
  hidden = true;
  label = codes "gate";
  op_lat = none;
  op_lon = some 3;
  ua_type = 15;
}

one_digit : (n : ℕ) → n < 10 → decimal n ≡ (48 + n) ∷ []
unfolding decimal decimal_loop
one_digit n h = ground arith

plain_digit : (n : ℕ) → n < 10 → any_of csv_special ((48 + n) ∷ []) ≡ false
unfolding any_of
plain_digit n h = ground arith

digit-IsCoord : (n : ℕ) → n < 10 → IsCoord degrees (some n)
digit-IsCoord n h =
    let one = one_digit n h in
    record {
      clean = λ e. rw one (plain_digit n h);
      narrow = λ e. rw one (omega arith);
      printed = λ e. rw one (omega arith);
      read_whole = λ e. rw one refl;
    }

none-IsCoord : IsCoord degrees none
none-IsCoord = record { clean = λ h. cc; narrow = λ h. cc; printed = λ h. cc; read_whole = λ h. cc }

hit-IsStorable : IsStorable degrees hit
hit-IsStorable = record {
  mac = record {
    byte0 = omega arith;
    byte1 = omega arith;
    byte2 = omega arith;
    byte3 = omega arith;
    byte4 = omega arith;
    byte5 = omega arith;
  };
  rssi = omega arith;
  channel = omega arith;
  conf = omega arith;
  ie_fp = omega arith;
  count = omega arith;
  epoch = omega arith;
  dev_class = omega arith;
  ua_type = omega arith;
  lat = digit-IsCoord 5 (omega arith);
  lon = digit-IsCoord 7 (omega arith);
  heading = none-IsCoord;
  op_lat = none-IsCoord;
  op_lon = digit-IsCoord 3 (omega arith);
}

line_round_trip_example :
    flock_store_parse_line degrees (flock_store_fmt_line degrees 256 hit)
    ≡ some (stored degrees hit)
line_round_trip_example = line_round_trip degrees hit 256 hit-IsStorable (omega arith)

parse_line-IsAccepted_example :
    let line = flock_store_fmt_line degrees 256 hit in
    IsAccepted (stored degrees hit)
    × (length (strip_eol line) < 256)
    × ((f : List Bytes) × (read_fields 19 (strip_eol line) ≡ some (f, [])) × HasColumns (length f))
parse_line-IsAccepted_example =
    parse_line-IsAccepted degrees (flock_store_fmt_line degrees 256 hit)
      (line_round_trip degrees hit 256 hit-IsStorable (omega arith))

abbrev saved_row : FlockEntry (Option ℕ)
saved_row = record row_a { lat = some 5; lon = some 7 }

saved_row-IsStorable : IsStorable degrees (recon_hits_rec_from_entry saved_row)
unfolding recon_hits_rec_from_entry
saved_row-IsStorable = record {
  mac = record {
    byte0 = omega arith;
    byte1 = omega arith;
    byte2 = omega arith;
    byte3 = omega arith;
    byte4 = omega arith;
    byte5 = omega arith;
  };
  rssi = omega arith;
  channel = omega arith;
  conf = omega arith;
  ie_fp = omega arith;
  count = omega arith;
  epoch = omega arith;
  dev_class = omega arith;
  ua_type = omega arith;
  lat = digit-IsCoord 5 (omega arith);
  lon = digit-IsCoord 7 (omega arith);
  heading = none-IsCoord;
  op_lat = none-IsCoord;
  op_lon = none-IsCoord;
}

-- The live row of a session, loaded behind the stored one.
saved_hit_returns_example :
    let line = flock_store_fmt_line degrees 256 (recon_hits_rec_from_entry saved_row) in
    (e' : FlockEntry (Option ℕ)) × (add_read degrees
        (flock_store_parse_line degrees line)
        (row_b ∷ [])
      ≡ (row_b ∷ []) ++ e' ∷ [])
    × Restored saved_row e'
saved_hit_returns_example =
    saved_hit_returns degrees saved_row (row_b ∷ []) saved_row-IsStorable (omega arith)

abbrev strange_line : Bytes
strange_line = codes "# another program"

no_newline : any_of (λ c. c == b'\n') strange_line ≡ false
unfolding any_of
no_newline = refl

strange_text : is_empty (text_of_line strange_line) ≡ false
unfolding c_string strip_cr
strange_text = refl

strange_schema : flock_store_schema_supported (some (text_of_line strange_line)) ≡ false
unfolding c_string strip_cr flock_store_schema_supported any_of bytes_eq
strange_schema = refl

unknown_file_untouched_example :
    recon_hits_load degrees (strange_line ++ b'\n' ∷ codes "70:c9:4e:01:02:03,x") (row_b ∷ [])
    ≡ row_b ∷ []
unknown_file_untouched_example =
    unknown_file_untouched degrees strange_line (codes "70:c9:4e:01:02:03,x") (row_b ∷ [])
      no_newline (omega arith) strange_text strange_schema
