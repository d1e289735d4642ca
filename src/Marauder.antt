-- ===== src/Marauder.antt =====
-- helpers/marauder_scan.c: detections scraped from a line of text.
pub mod Counts
pub mod Hits
use flip_de_flock.Common.{
  Bool, List, Option, [], drop, if◌then◌else◌, length, ltb, none, not, some, suc, zero, ℕ, ◌&&◌,
  ◌*◌, ◌++◌, ◌+◌, ◌-◌, ◌==◌, ◌>>=◌, ◌||◌, ◌∷◌,
}
use flip_de_flock.Common.Bytes.{Bytes, char_at, codes, is_empty, starts_with}
use flip_de_flock.Common.Mac.{Mac}
use flip_de_flock.EspParser.Fields.{esp_hexval}
use flip_de_flock.FlockDb.Ssid.{flock_ssid_confidence}
use flip_de_flock.FlockDb.Types.{
  Extras, FlockConfidence, FlockDevClass, conf_eq, conf_none, possible, rung,
}
use flip_de_flock.FlockDb.Vendor.{flock_class_from_mac, flock_oui_match, soundthinking_oui_match}

abbrev both : Option ℕ → Option ℕ → Option ℕ
both (some hi) (some lo) = some (hi * 16 + lo)
both _ _ = none

-- One round of the loop in `parse_mac_colon`: the digits, and the colon behind all but the last.
unfoldable pub colon_pair : Bytes → ℕ → Option ℕ
colon_pair p i =
    let b = both (esp_hexval (char_at p (i * 3))) (esp_hexval (char_at p (i * 3 + 1))) in
    if ltb i 5 && not (char_at p (i * 3 + 2) == b':') then none else b

unfoldable pub parse_mac_colon : Bytes → Option Mac
parse_mac_colon p = do
  a ← colon_pair p 0
  b ← colon_pair p 1
  c ← colon_pair p 2
  d ← colon_pair p 3
  e ← colon_pair p 4
  f ← colon_pair p 5
  some (record { b0 = a; b1 = b; b2 = c; b3 = d; b4 = e; b5 = f })

abbrev marauder_ssid_max : ℕ
marauder_ssid_max = 33

-- `strstr(line, label) + strlen(label)`
unfoldable pub after_label : Bytes → Bytes → Option Bytes
after_label label [] = if is_empty label then some [] else none
after_label label (c ∷ s) =
    let later = after_label label s in
    if starts_with (c ∷ s) label then some (drop (length label) (c ∷ s)) else later

-- The copy, which stops at a line end and leaves room for the NUL.
unfoldable pub copy_name : ℕ → Bytes → Bytes
copy_name zero s = []
copy_name (suc room) [] = []
copy_name (suc room) (c ∷ s) =
    let rest = copy_name room s in if c == 13 || c == 10 then [] else c ∷ rest

unfoldable pub labelled : List Bytes → Bytes → Option Bytes
labelled [] line = none
labelled (l ∷ ls) line =
    let later = labelled ls line in
    elim (after_label l line) [ none ↦ later | some p ↦ some (copy_name (marauder_ssid_max - 1) p) ]

-- `none` where the source returns false with an empty name.
unfoldable pub extract_ssid : Bytes → Option Bytes
extract_ssid line = labelled (codes "ESSID: " ∷ codes "SSID: " ∷ codes "Requesting: " ∷ []) line

pub record MarauderHit : Type 0 where
  pub mac : Mac
  pub conf : FlockConfidence
  pub dev_class : FlockDevClass

-- `ssid` and `have_ssid` are one value here. `hit_count` is the length of the list.
pub record MarauderScan : Type 0 where
  pub ssid : Option Bytes
  pub mac_count : ℕ
  pub hits : List MarauderHit
  pub dropped : ℕ

abbrev pub marauder_max_hits : ℕ
marauder_max_hits = 8

-- What the walk over a line has found.
pub record Walk : Type 0 where
  pub cand : List Mac
  pub mac_count : ℕ
  pub dropped : ℕ

unfoldable pub note_mac : Mac → Walk → Walk
note_mac m w =
    if ltb (length w.cand) marauder_max_hits
    then record w { cand = w.cand ++ (m ∷ []); mac_count = w.mac_count + 1 }
    else record w { mac_count = w.mac_count + 1; dropped = w.dropped + 1 }

-- The walk, with `skip` bytes of an address still to pass over.
unfoldable pub walk : ℕ → Bytes → Walk → Walk
walk skip [] w = w
walk (suc skip) (c ∷ s) w = walk skip s w
walk zero (c ∷ s) w =
    let next = walk 0 s w in
    if ltb (length (c ∷ s)) 17
    then w
    else elim (parse_mac_colon (c ∷ s)) [ none ↦ next | some m ↦ walk 16 s (note_mac m w) ]

-- The body of the loop over the candidates: `none` is `continue`.
unfoldable pub score_candidate : Extras → FlockConfidence → Bool → Mac → Option MarauderHit
score_candidate ex ssid_conf single mac =
    if flock_oui_match ex (some mac) || soundthinking_oui_match (some mac)
    then if not (conf_eq ssid_conf conf_none)
      then some (record {
        mac = mac;
        conf = if ltb (rung possible) (rung ssid_conf) then ssid_conf else possible;
        dev_class = flock_class_from_mac (some mac);
      })
      else none
    else if single && not (conf_eq ssid_conf conf_none)
    then some (record { mac = mac; conf = ssid_conf; dev_class = flock_class_from_mac (some mac) })
    else none

abbrev pub add_hit : Option MarauderHit → List MarauderHit → List MarauderHit
add_hit none hits = hits
add_hit (some h) hits = h ∷ hits

unfoldable pub score_all : Extras → FlockConfidence → Bool → List Mac → List MarauderHit
score_all ex ssid_conf single [] = []
score_all ex ssid_conf single (m ∷ ms) =
    add_hit (score_candidate ex ssid_conf single m) (score_all ex ssid_conf single ms)

-- The text that names the network: the labelled name, or else the whole line.
abbrev pub named_text : Bytes → Bytes
named_text line = elim (extract_ssid line) [ none ↦ line | some s ↦ s ]

abbrev pub line_conf : Extras → Bytes → FlockConfidence
line_conf ex line = flock_ssid_confidence ex (some (named_text line))

abbrev pub walk_line : Bytes → Walk
walk_line line = walk 0 line (record { cand = []; mac_count = 0; dropped = 0 })

unfoldable pub scan_text : Extras → Bytes → MarauderScan
scan_text ex line =
    if ltb (length line) 17
    then record { ssid = extract_ssid line; mac_count = 0; hits = []; dropped = 0 }
    else let w = walk_line line in
      record {
        ssid = extract_ssid line;
        mac_count = w.mac_count;
        hits = score_all ex (line_conf ex line) (w.mac_count == 1) w.cand;
        dropped = w.dropped;
      }

unfoldable pub marauder_scan_line : Extras → Option Bytes → MarauderScan
marauder_scan_line ex none = record { ssid = none; mac_count = 0; hits = []; dropped = 0 }
marauder_scan_line ex (some line) = scan_text ex line
