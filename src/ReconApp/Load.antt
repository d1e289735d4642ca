-- ===== src/ReconApp/Load.antt =====
-- The loop of `recon_hits_load`, for a file that is open: the lines of hits.csv are cut out of the
-- bytes that are read and become archived rows. The chunks of a read are one sequence of bytes here.
-- The setting that turns loading off, and the swap of an interrupted save in front, are left out.
use flip_de_flock.Common.{
  Bool, List, [], ap, append-nil, append_assoc, arith, false, if◌then◌else◌, leb, length,
  length-append, ltb, not, refl, some, sym, true, ℕ, ◌&&◌, ◌++◌, ◌+◌, ◌-◌, ◌<◌, ◌==◌, ◌||◌, ◌∙◌,
  ◌∷◌, ◌≡◌,
}
use flip_de_flock.Common.Bytes.{Bytes, bytes_eq, c_string, char_at, codes, is_empty}
use flip_de_flock.Common.Search.{any_of}
use flip_de_flock.FlockStore.{flock_store_schema_supported}
use flip_de_flock.FlockStore.Line.{FloatText, flock_store_line_max}
use flip_de_flock.FlockStore.Parse.{flock_store_parse_line}
use flip_de_flock.ReconApp.Saved.{add_read}
use flip_de_flock.ReconApp.Types.{FlockEntry, recon_flock_max}

-- One CR at the end is taken off.
unfoldable pub strip_cr : Bytes → Bytes
strip_cr [] = []
strip_cr (c ∷ []) = if c == b'\r' then [] else c ∷ []
strip_cr (c ∷ (d ∷ s)) = c ∷ strip_cr (d ∷ s)

-- The text of a line that stands in the buffer.
abbrev pub text_of_line : Bytes → Bytes
text_of_line line = strip_cr (c_string line)

unfoldable pub flock_store_header : Bytes
flock_store_header =
    codes "mac,ssid,rssi,channel,ftype,conf,ie_fp,lat,lon,heading,count,marked,epoch,class,"
    ++ codes "hidden,label,op_lat,op_lon,ua_type"

module _ {F : Type 0} (fl : FloatText F) where
  pub record Loader : Type 0 where
    pub line : Bytes
    pub overlong : Bool
    pub schema_seen : Bool
    pub stop : Bool
    pub table : List (FlockEntry F)

  -- The first line that is not empty names the schema; comments and the header are skipped.
  unfoldable pub load_line : Bytes → Loader → Loader
  load_line text ld =
      let table = add_read fl (flock_store_parse_line fl text) ld.table in
      if is_empty text
      then ld
      else if not ld.schema_seen
      then (if flock_store_schema_supported (some text)
          then record ld { schema_seen = true }
          else record ld { stop = true })
      else if char_at text 0 == b'#' || bytes_eq text flock_store_header
      then ld
      else record ld { table = table; stop = leb recon_flock_max (length table) }

  -- The body of the loop.
  unfoldable pub load_byte : ℕ → Loader → Loader
  load_byte c ld =
      let next : Loader = record ld { line = []; overlong = false } in
      let done = load_line (text_of_line ld.line) next in
      if ld.stop
      then ld
      else if not (c == b'\n')
      then (if ltb (length ld.line) (flock_store_line_max - 1)
          then record ld { line = ld.line ++ c ∷ [] }
          else record ld { overlong = true })
      else if ld.overlong
      then next
      else done

  unfoldable pub load_bytes : Bytes → Loader → Loader
  load_bytes [] ld = ld
  load_bytes (c ∷ s) ld = load_bytes s (load_byte c ld)

  -- A last record without a newline.
  unfoldable pub load_rest : Loader → List (FlockEntry F)
  load_rest ld =
      let text = text_of_line ld.line in
      if not ld.stop && (ld.schema_seen && (not (is_empty ld.line) && not ld.overlong))
      then (if not (is_empty text) && not (char_at text 0 == b'#')
          then add_read fl (flock_store_parse_line fl text) ld.table
          else ld.table)
      else ld.table

  unfoldable pub recon_hits_load : Bytes → List (FlockEntry F) → List (FlockEntry F)
  recon_hits_load file table = load_rest (
      load_bytes file
        (record { line = []; overlong = false; schema_seen = false; stop = false; table = table }))

  -- The states in front of the schema, and after a schema that is not known.
  abbrev at_start : Bytes → List (FlockEntry F) → Loader
  at_start l table = record {
    line = l;
    overlong = false;
    schema_seen = false;
    stop = false;
    table = table;
  }

  abbrev given_up : List (FlockEntry F) → Loader
  given_up table = record {
    line = [];
    overlong = false;
    schema_seen = false;
    stop = true;
    table = table;
  }

  stays_given_up :
      (s : Bytes) (table : List (FlockEntry F)) → load_bytes s (given_up table) ≡ given_up table
  unfolding load_bytes load_byte
  stays_given_up [] table = refl
  stays_given_up (c ∷ s) table = stays_given_up s table

  byte_kept :
      (c : ℕ) (l : Bytes) (table : List (FlockEntry F))
      → (c == b'\n') ≡ false
      → ltb (length l) (flock_store_line_max - 1) ≡ true
      → load_byte c (at_start l table) ≡ at_start (l ++ c ∷ []) table
  unfolding load_byte
  byte_kept c l table other room = rw (other, room) refl

  line_read :
      (s rest l : Bytes) (table : List (FlockEntry F))
      → any_of (λ c. c == b'\n') s ≡ false
      → length l + length s < 256
      → load_bytes (s ++ rest) (at_start l table) ≡ load_bytes rest (at_start (l ++ s) table)
  unfolding load_bytes any_of
  line_read [] rest l table one width =
      ap (λ x. load_bytes rest (at_start x table)) (sym (append-nil l))
  line_read (c ∷ s) rest l table one width =
      let here : (c == b'\n') ≡ false = ground (arith, one) in
      let later : any_of (λ x. x == b'\n') s ≡ false = ground (arith, one) in
      let room : ltb (length l) 255 ≡ true = ground (arith, width) in
      ap (load_bytes (s ++ rest)) (byte_kept c l table here room)
      ∙ line_read s rest (l ++ c ∷ []) table later (omega (arith, length-append l (c ∷ []), width))
      ∙ ap (λ x. load_bytes rest (at_start x table)) (append_assoc l (c ∷ []) s)

  schema_refused :
      (first : Bytes) (table : List (FlockEntry F))
      → is_empty (text_of_line first) ≡ false
      → flock_store_schema_supported (some (text_of_line first)) ≡ false
      → load_byte b'\n' (at_start first table) ≡ given_up table
  unfolding load_byte load_line
  schema_refused first table some_text unknown_schema = rw (some_text, unknown_schema) refl

  -- A file whose first line has a text, has fewer than 256 bytes, and names no schema that is known,
  -- changes nothing, whatever follows.
  pub unknown_file_untouched :
      (first rest : Bytes) (table : List (FlockEntry F))
      → any_of (λ c. c == b'\n') first ≡ false
      → length first < 256
      → is_empty (text_of_line first) ≡ false
      → flock_store_schema_supported (some (text_of_line first)) ≡ false
      → recon_hits_load (first ++ b'\n' ∷ rest) table ≡ table
  unfolding recon_hits_load load_bytes load_rest
  unknown_file_untouched first rest table one width some_text unknown_schema = ap load_rest (
      line_read first (b'\n' ∷ rest) [] table one (omega (arith, width))
      ∙ ap (load_bytes rest) (schema_refused first table some_text unknown_schema)
      ∙ stays_given_up rest table)
