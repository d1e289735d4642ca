-- ===== src/FlockStore/Parse.antt =====
-- helpers/flock_store.c: `flock_store_parse_line`, and the numbers of its fields.
use flip_de_flock.Common.{
  Bool, List, Option, [], false, get_or, if◌then◌else◌, leb, length, ltb, none, not, some, suc,
  take, true, zero, ℕ, ◌%◌, ◌&&◌, ◌-◌, ◌/◌, ◌==◌, ◌>>=◌, ◌||◌, ◌∷◌,
}
use flip_de_flock.Common.Bytes.{Bytes, has_byte, is_empty}
use flip_de_flock.Common.Int.{ltb_ℤ, negsuc, pos, ℤ}
use flip_de_flock.Common.Libc.{strtol, strtoul}
use flip_de_flock.FlockDb.Fingerprint.{flock_ie_fp_is_generic}
use flip_de_flock.FlockStore.{fs_next_field, fs_parse_mac}
use flip_de_flock.FlockStore.Line.{
  FloatText, FlockStoreRec, esc_ssid_max, flock_store_label_len, flock_store_line_max,
  flock_store_ssid_len,
}
use flip_de_flock.ReportFmt.{flock_ftype_set}

unfoldable pub fs_parse_u32 : Bytes → Option ℕ
fs_parse_u32 s =
    let (v, end) = strtoul 10 s in if not (is_empty s) && is_empty end then some v else none

unfoldable pub fs_parse_i32 : Bytes → Option ℤ
fs_parse_i32 s =
    let (v, end) = strtol s in if not (is_empty s) && is_empty end then some v else none

-- A number that is at most `most`.
unfoldable pub parse_upto : ℕ → Bytes → Option ℕ
parse_upto most s = elim (fs_parse_u32 s) [
  | none ↦ none
  | some u ↦ if ltb most u then none else some u
]

unfoldable pub fs_parse_coord : {F : Type 0} → FloatText F → Bytes → Option F
fs_parse_coord fl s =
    let (v, end) = fl.strtof s in
    if is_empty s then some fl.nan else if is_empty end then some v else none

abbrev pub is_eol : ℕ → Bool
is_eol c = c == b'\n' || c == b'\r'

-- `while(len && line[len - 1] is '\n' or '\r') len--`
unfoldable pub strip_eol : Bytes → Bytes
strip_eol [] = []
strip_eol (c ∷ s) = let rest = strip_eol s in if is_empty rest && is_eol c then [] else c ∷ rest

abbrev pub and_fields : Bytes → Option (List Bytes × Bytes) → Option (List Bytes × Bytes)
and_fields t none = none
and_fields t (some (ts, rest)) = some (t ∷ ts, rest)

-- At most `n` fields and what is left behind them; `none` is a field that cannot be read.
unfoldable pub read_fields : ℕ → Bytes → Option (List Bytes × Bytes)
read_fields zero s = some ([], s)
read_fields (suc n) s = elim (fs_next_field s esc_ssid_max) [
  | none ↦ none
  | some (t, rest, had_comma) ↦ elim had_comma [
    | false ↦ some (t ∷ [], rest)
    | true ↦ and_fields t (read_fields n rest)
  ]
]

abbrev pub flock_store_cols : ℕ
flock_store_cols = 19

abbrev pub flock_store_cols_v3 : ℕ
flock_store_cols_v3 = 16

abbrev pub flock_store_cols_v2 : ℕ
flock_store_cols_v2 = 15

abbrev pub flock_store_cols_v1 : ℕ
flock_store_cols_v1 = 13

abbrev pub is_col_count : ℕ → Bool
is_col_count n =
    n == flock_store_cols
    || (n == flock_store_cols_v3 || (n == flock_store_cols_v2 || n == flock_store_cols_v1))

-- The frame type: empty, or one letter of the set.
unfoldable pub parse_ftype : Bytes → Option ℕ
parse_ftype [] = some 0
parse_ftype (c ∷ []) = if has_byte flock_ftype_set c then some c else none
parse_ftype (c ∷ (d ∷ s)) = none

unfoldable pub parse_rssi : Bytes → Option ℤ
parse_rssi s = elim (fs_parse_i32 s) [
  | none ↦ none
  | some v ↦ if ltb_ℤ v (negsuc 127) || ltb_ℤ (pos 127) v then none else some v
]

-- The fingerprint, without one that is known as a common pattern.
unfoldable pub parse_ie_fp : Bytes → Option ℕ
parse_ie_fp s =
    let (h, end) = strtoul 16 s in
    if not (is_empty s) && is_empty end
    then some (if flock_ie_fp_is_generic h then 0 else h)
    else none

-- The columns that a version has behind those of the first one.
pub record Later (F : Type 0) : Type 0 where
  pub dev_class : ℕ
  pub hidden : Bool
  pub label : Bytes
  pub op_lat : F
  pub op_lon : F
  pub ua_type : ℕ

module _ {F : Type 0} (fl : FloatText F) where
  abbrev pub no_later : Later F
  no_later = record {
    dev_class = 0;
    hidden = false;
    label = [];
    op_lat = fl.nan;
    op_lon = fl.nan;
    ua_type = 0;
  }

  -- `FLOCK_STORE_MAX_DEV_CLASS` is 4. The cases for columns 13 and 14.
  unfoldable pub parse_class : ℕ → List Bytes → Later F → Option (Later F)
  parse_class ncols f l = if ncols == flock_store_cols_v1 then some l else read
    where
      read : Option (Later F)
      read = do
        c ← parse_upto 4 (get_or f 13 [])
        h ← parse_upto 1 (get_or f 14 [])
        some (record l { dev_class = c; hidden = not (h == 0) })

  -- The Remote ID tail.
  unfoldable pub parse_tail : ℕ → List Bytes → Later F → Option (Later F)
  parse_tail ncols f l = if ncols == flock_store_cols then read else some l
    where
      read : Option (Later F)
      read = do
        la ← fs_parse_coord fl (get_or f 16 [])
        lo ← fs_parse_coord fl (get_or f 17 [])
        u ← parse_upto 15 (get_or f 18 [])
        some (record l { op_lat = la; op_lon = lo; ua_type = u })

  unfoldable pub parse_label : ℕ → List Bytes → Later F → Later F
  parse_label ncols f l =
      if ncols == flock_store_cols || ncols == flock_store_cols_v3
      then record l { label = take (flock_store_label_len - 1) (get_or f 15 []) }
      else l

  unfoldable pub parse_record : ℕ → List Bytes → Option (FlockStoreRec F)
  parse_record ncols f = do
    mac ← fs_parse_mac (get_or f 0 [])
    rssi ← parse_rssi (get_or f 2 [])
    channel ← parse_upto 255 (get_or f 3 [])
    ftype ← parse_ftype (get_or f 4 [])
    conf ← parse_upto 4 (get_or f 5 [])
    ie_fp ← parse_ie_fp (get_or f 6 [])
    lat ← fs_parse_coord fl (get_or f 7 [])
    lon ← fs_parse_coord fl (get_or f 8 [])
    heading ← fs_parse_coord fl (get_or f 9 [])
    count ← fs_parse_u32 (get_or f 10 [])
    marks ← parse_upto 3 (get_or f 11 [])
    epoch ← fs_parse_u32 (get_or f 12 [])
    classed ← parse_class ncols f no_later
    tailed ← parse_tail ncols f classed
    let l = parse_label ncols f tailed
    some (record {
      mac = mac;
      ssid = take (flock_store_ssid_len - 1) (get_or f 1 []);
      rssi = rssi;
      channel = channel;
      ftype = ftype;
      conf = conf;
      ie_fp = ie_fp;
      lat = lat;
      lon = lon;
      heading = heading;
      count = count;
      marked = marks % 2 == 1;
      seen_by_operator = marks / 2 % 2 == 1;
      epoch = epoch;
      dev_class = l.dev_class;
      hidden = l.hidden;
      label = l.label;
      op_lat = l.op_lat;
      op_lon = l.op_lon;
      ua_type = l.ua_type;
    })

  abbrev pub parse_fields : Option (List Bytes × Bytes) → Option (FlockStoreRec F)
  parse_fields none = none
  parse_fields (some (f, rest)) =
      if is_empty rest && is_col_count (length f) then parse_record (length f) f else none

  unfoldable pub flock_store_parse_line : Bytes → Option (FlockStoreRec F)
  flock_store_parse_line line =
      let buf = strip_eol line in
      if is_empty buf || leb flock_store_line_max (length buf)
      then none
      else parse_fields (read_fields flock_store_cols buf)
