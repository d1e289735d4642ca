-- ===== src/FlockStore/Whole.antt =====
-- A line of hits.csv as a whole.
use flip_de_flock.Common.{
  Bool, List, [], arith, false, leb, length, length-append, not, refl, some, true, ℕ, ◌%◌, ◌*◌,
  ◌++◌, ◌+◌, ◌/◌, ◌==◌, ◌∷◌, ◌≡◌, ◌≤◌,
}
use flip_de_flock.Common.Bytes.{Bytes, is_empty}
use flip_de_flock.Common.Numbers.{IsDigit, decimal-All, length-decimal}
use flip_de_flock.Common.Print.{decimal, decimal_ℤ, hex_u32}
use flip_de_flock.Common.Search.{All}
use flip_de_flock.FlockStore.Columns.{
  ReadsAll, decimal-IsPlain, decimal_ℤ-IsPlain, escaped-Reads, ftype-IsPlain, hex_u32-IsPlain,
  length-flatten, mac-IsPlain, plain-Reads, plain-ReadsLast, read_fields-joined,
}
use flip_de_flock.FlockStore.Line.{
  FloatText, FlockStoreRec, bit_of, columns, flatten, flock_store_fmt_line, flock_store_label_len,
  flock_store_line_max, flock_store_ssid_len, fmt_coord, ftype_text, joined,
}
use flip_de_flock.FlockStore.Parse.{
  flock_store_parse_line, parse_class, parse_label, parse_record, parse_tail, read_fields,
  strip_eol,
}
use flip_de_flock.FlockStore.RoundTrip.{parse_mac-fmt_mac, take_all}
use flip_de_flock.FlockStore.Stored.{
  coord_read, coord_text, fs_parse_u32-decimal, kept_coord, kept_ftype, kept_ie_fp, nonempty,
  parse_ftype_lem, parse_ie_fp_lem, parse_rssi-decimal, parse_upto-decimal,
}
use flip_de_flock.FlockStore.Width.{IsStorable, line_fits}
use flip_de_flock.ReportFmt.{fmt_mac}

pub strip_eol-newline : (s : Bytes) → strip_eol (s ++ b'\n' ∷ []) ≡ strip_eol s
unfolding strip_eol
strip_eol-newline [] = refl
strip_eol-newline (c ∷ s) = rw (strip_eol-newline s)

append-nonempty : (s t : Bytes) → is_empty t ≡ false → is_empty (s ++ t) ≡ false
append-nonempty [] t e = e
append-nonempty (c ∷ s) t e = refl

-- A text whose end is no line end keeps it.
strip_eol-tail : (s t : Bytes) → strip_eol t ≡ t → is_empty t ≡ false → strip_eol (s ++ t) ≡ s ++ t
unfolding strip_eol
strip_eol-tail [] t h e = h
strip_eol-tail (c ∷ s) t h e = rw (strip_eol-tail s t h e, append-nonempty s t e)

strip_eol-digits : (s : Bytes) → All IsDigit s → strip_eol s ≡ s
unfolding strip_eol
strip_eol-digits [] a = refl
strip_eol-digits (c ∷ s) a = ground (arith, strip_eol-digits s a.1)

strip_eol-comma :
    (s : Bytes) → strip_eol s ≡ s → is_empty s ≡ false → strip_eol (b',' ∷ s) ≡ b',' ∷ s
unfolding strip_eol
strip_eol-comma s h e = rw (h, e)

-- The last column is one that does not end the line.
abbrev EndsLine : List Bytes → Type 0
EndsLine [] = ⊥
EndsLine (e ∷ []) = (strip_eol e ≡ e) × (is_empty e ≡ false)
EndsLine (e ∷ (f ∷ es)) = EndsLine (f ∷ es)

strip_eol-joined :
    (es : List Bytes)
    → EndsLine es
    → (strip_eol (joined es) ≡ joined es) × (is_empty (joined es) ≡ false)
unfolding joined
strip_eol-joined [] h = elim h [ ]
strip_eol-joined (e ∷ []) h = h
strip_eol-joined (e ∷ (f ∷ es)) h =
    let (ih, some_text) = strip_eol-joined (f ∷ es) h in
    let tail : strip_eol (b',' ∷ joined (f ∷ es)) ≡ b',' ∷ joined (f ∷ es) =
      strip_eol-comma (joined (f ∷ es)) ih some_text in
    (
      strip_eol-tail e (b',' ∷ joined (f ∷ es)) tail refl,
      append-nonempty e (b',' ∷ joined (f ∷ es)) refl,
    )

module _ {F : Type 0} (fl : FloatText F) where
  -- What is read from the columns.
  unfoldable pub contents : FlockStoreRec F → List Bytes
  contents r =
      fmt_mac 18 r.mac
      ∷ flatten flock_store_ssid_len r.ssid
      ∷ decimal_ℤ r.rssi
      ∷ decimal r.channel
      ∷ ftype_text r.ftype
      ∷ decimal r.conf
      ∷ hex_u32 r.ie_fp
      ∷ fmt_coord fl 16 r.lat []
      ∷ fmt_coord fl 16 r.lon []
      ∷ fmt_coord fl 16 r.heading []
      ∷ decimal r.count
      ∷ decimal (bit_of r.marked + 2 * bit_of r.seen_by_operator)
      ∷ decimal r.epoch
      ∷ decimal r.dev_class
      ∷ decimal (bit_of r.hidden)
      ∷ flatten flock_store_label_len r.label
      ∷ fmt_coord fl 16 r.op_lat []
      ∷ fmt_coord fl 16 r.op_lon []
      ∷ decimal r.ua_type
      ∷ []

  columns-ReadsAll : (r : FlockStoreRec F) → IsStorable fl r → ReadsAll (columns fl r) (contents r)
  unfolding columns contents
  columns-ReadsAll r v = (
    plain-Reads (fmt_mac 18 r.mac) (mac-IsPlain r.mac v.mac),
    (
      escaped-Reads flock_store_ssid_len r.ssid (omega arith),
      (
        plain-Reads (decimal_ℤ r.rssi) (decimal_ℤ-IsPlain r.rssi),
        (
          plain-Reads (decimal r.channel) (decimal-IsPlain r.channel),
          (
            plain-Reads (ftype_text r.ftype) (ftype-IsPlain r.ftype),
            (
              plain-Reads (decimal r.conf) (decimal-IsPlain r.conf),
              (
                plain-Reads (hex_u32 r.ie_fp) (hex_u32-IsPlain r.ie_fp),
                (
                  plain-Reads (fmt_coord fl 16 r.lat []) (coord_text fl r.lat v.lat).1,
                  (
                    plain-Reads (fmt_coord fl 16 r.lon []) (coord_text fl r.lon v.lon).1,
                    (
                      plain-Reads (fmt_coord fl 16 r.heading [])
                          (coord_text fl r.heading v.heading).1,
                      (
                        plain-Reads (decimal r.count) (decimal-IsPlain r.count),
                        (
                          plain-Reads (decimal (bit_of r.marked + 2 * bit_of r.seen_by_operator))
                              (decimal-IsPlain (bit_of r.marked + 2 * bit_of r.seen_by_operator)),
                          (
                            plain-Reads (decimal r.epoch) (decimal-IsPlain r.epoch),
                            (
                              plain-Reads (decimal r.dev_class) (decimal-IsPlain r.dev_class),
                              (
                                plain-Reads (decimal (bit_of r.hidden))
                                    (decimal-IsPlain (bit_of r.hidden)),
                                (
                                  escaped-Reads flock_store_label_len r.label (omega arith),
                                  (
                                    plain-Reads (fmt_coord fl 16 r.op_lat [])
                                        (coord_text fl r.op_lat v.op_lat).1,
                                    (
                                      plain-Reads (fmt_coord fl 16 r.op_lon [])
                                          (coord_text fl r.op_lon v.op_lon).1,
                                      plain-ReadsLast (decimal r.ua_type)
                                          (decimal-IsPlain r.ua_type),
                                    ),
                                  ),
                                ),
                              ),
                            ),
                          ),
                        ),
                      ),
                    ),
                  ),
                ),
              ),
            ),
          ),
        ),
      ),
    ),
  )

  columns-EndsLine : (r : FlockStoreRec F) → EndsLine (columns fl r)
  unfolding columns
  columns-EndsLine r = (
    strip_eol-digits (decimal r.ua_type) (decimal-All r.ua_type),
    nonempty (decimal r.ua_type) (length-decimal r.ua_type).0,
  )

  columns-read :
      (r : FlockStoreRec F)
      → IsStorable fl r
      → read_fields 19 (joined (columns fl r)) ≡ some (contents r, [])
  columns-read r v =
      read_fields-joined 19 (columns fl r) (contents r) (unfold columns in omega arith)
        (columns-ReadsAll r v)

  -- What a line keeps: control characters of the two texts become spaces, a letter outside the set
  -- and a fingerprint known as a common pattern become 0, coordinates are what their six decimals say.
  unfoldable pub stored : FlockStoreRec F → FlockStoreRec F
  stored r = record r {
    ssid = flatten flock_store_ssid_len r.ssid;
    label = flatten flock_store_label_len r.label;
    ftype = kept_ftype r.ftype;
    ie_fp = kept_ie_fp r.ie_fp;
    lat = kept_coord fl r.lat;
    lon = kept_coord fl r.lon;
    heading = kept_coord fl r.heading;
    op_lat = kept_coord fl r.op_lat;
    op_lon = kept_coord fl r.op_lon;
  }

  marks_lem :
      (m c : Bool)
      → let u = bit_of m + 2 * bit_of c in (u ≤ 3) × ((u % 2 == 1) ≡ m) × ((u / 2 % 2 == 1) ≡ c)
  marks_lem true true = (omega arith, refl, refl)
  marks_lem true false = (omega arith, refl, refl)
  marks_lem false true = (omega arith, refl, refl)
  marks_lem false false = (omega arith, refl, refl)

  hidden_lem : (h : Bool) → (bit_of h ≤ 1) × (not (bit_of h == 0) ≡ h)
  hidden_lem true = (omega arith, refl)
  hidden_lem false = (omega arith, refl)

  contents-parsed :
      (r : FlockStoreRec F) → IsStorable fl r → parse_record fl 19 (contents r) ≡ some (stored r)
  unfolding parse_record contents stored parse_class parse_tail parse_label
  contents-parsed r v = rw (
    parse_mac-fmt_mac r.mac v.mac,
    parse_rssi-decimal r.rssi v.rssi,
    parse_upto-decimal 255 r.channel v.channel (omega arith),
    parse_ftype_lem r.ftype,
    parse_upto-decimal 4 r.conf v.conf (omega arith),
    parse_ie_fp_lem r.ie_fp v.ie_fp,
    coord_read fl r.lat v.lat,
    coord_read fl r.lon v.lon,
    coord_read fl r.heading v.heading,
    fs_parse_u32-decimal r.count v.count,
    fs_parse_u32-decimal r.epoch v.epoch,
    parse_upto-decimal 3 (bit_of r.marked + 2 * bit_of r.seen_by_operator)
        (marks_lem r.marked r.seen_by_operator).0 (omega arith),
    parse_upto-decimal 4 r.dev_class v.dev_class (omega arith),
    parse_upto-decimal 1 (bit_of r.hidden) (hidden_lem r.hidden).0 (omega arith),
    coord_read fl r.op_lat v.op_lat,
    coord_read fl r.op_lon v.op_lon,
    parse_upto-decimal 15 r.ua_type v.ua_type (omega arith),
    take_all 32 (flatten 33 r.ssid) (omega (arith, length-flatten 33 r.ssid)),
    take_all 24 (flatten 25 r.label) (omega (arith, length-flatten 25 r.label)),
    (marks_lem r.marked r.seen_by_operator).1,
    (marks_lem r.marked r.seen_by_operator).2,
    (hidden_lem r.hidden).1,
  )

  -- A record whose numbers are in the ranges of their types and whose coordinates are absent or print
  -- as numbers of at most 11 bytes, written to a buffer of 256 bytes or more, is a line that is read
  -- back as the record without what a line does not keep: control characters of the name and the
  -- label are spaces, an unknown frame type and a fingerprint known as a common pattern are gone, and
  -- a coordinate is what is read back of its six digits.
  pub line_round_trip :
      (r : FlockStoreRec F) (out_len : ℕ)
      → IsStorable fl r
      → 256 ≤ out_len
      → flock_store_parse_line fl (flock_store_fmt_line fl out_len r) ≡ some (stored r)
  unfolding flock_store_parse_line flock_store_fmt_line
  line_round_trip r out_len v h =
      let text = joined (columns fl r) in
      let (stripped, some_text) = strip_eol-joined (columns fl r) (columns-EndsLine r) in
      let fits : leb out_len (length (text ++ b'\n' ∷ [])) ≡ false =
        ground (arith, line_fits fl r v, length-append text (b'\n' ∷ [])) in
      let below : leb flock_store_line_max (length text) ≡ false =
        ground (arith, line_fits fl r v) in
      rw (fits, strip_eol-newline text, stripped, some_text, below, columns-read r v)
        (unfold contents in contents-parsed r v)
