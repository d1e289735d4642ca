-- ===== src/EspParser/Detection.antt =====
-- `parse_flock`: a D line, from its fields to a detection.
use flip_de_flock.Common.{
  Bool, List, [], drop, false, if◌then◌else◌, leb, length, ltb, none, not, some, true, ℕ, ◌&&◌,
  ◌==◌, ◌∷◌,
}
use flip_de_flock.Common.Bytes.{Bytes, char_at, codes, is_empty, starts_with}
use flip_de_flock.Common.Int.{negsuc, pos, ℤ}
use flip_de_flock.Common.Libc.{atoi, strtoul_value, to_i8, to_u8}
use flip_de_flock.Common.Mac.{Mac}
use flip_de_flock.EspParser.Fields.{field, parse_mac_field}
use flip_de_flock.EspParser.Message.{EspMsg, FlockMsg, flock, ignored}
use flip_de_flock.FlockDb.Fingerprint.{flock_ie_fp_match}
use flip_de_flock.FlockDb.Ssid.{flock_ssid_confidence}
use flip_de_flock.FlockDb.Types.{
  Extras, FlockConfidence, FlockDevClass, acoustic, alpr, bodycam, builtin, candidate, conf_eq,
  conf_none, confirmed, fp_none, gear, likely, possible, probe_fp, rung, user,
}
use flip_de_flock.FlockDb.Vendor.{flock_class_from_mac, flock_oui_match}

unfoldable pub conf_from_int : ℤ → FlockConfidence
conf_from_int c =
    if wire_is c 3
    then confirmed
    else if wire_is c 2
    then likely
    else if wire_is c 1
    then possible
    else conf_none
  where
    wire_is : ℤ → ℕ → Bool
    wire_is (pos n) k = n == k
    wire_is (negsuc n) k = false

-- What the trailing key=value fields set.
pub record Trailers : Type 0 where
  pub fp : ℕ
  pub sig_hit : Bool
  pub hidden : Bool
  pub probe_rate : ℕ
  pub dev_class : FlockDevClass

-- A letter that this build does not know leaves the class alone.
unfoldable pub class_letter : ℕ → FlockDevClass → FlockDevClass
class_letter c old =
    if c == b'a'
    then acoustic
    else if c == b'x'
    then bodycam
    else if c == b'g'
    then gear
    else if c == b'c'
    then alpr
    else old

abbrev at_most_255 : ℕ → ℕ
at_most_255 n = if ltb 255 n then 255 else n

-- The body of the loop over the trailers.
unfoldable pub read_trailer : Bytes → Trailers → Trailers
read_trailer t v =
    if starts_with t (codes "fp=")
    then record v { fp = strtoul_value 16 (drop 3 t) }
    else if starts_with t (codes "sg=")
    then record v { sig_hit = char_at t 3 == b'1' }
    else if starts_with t (codes "cls=")
    then record v { dev_class = class_letter (char_at t 4) v.dev_class }
    else if starts_with t (codes "hid=")
    then record v { hidden = char_at t 4 == b'1' }
    else if starts_with t (codes "pr=")
    then record v { probe_rate = at_most_255 (strtoul_value 10 (drop 3 t)) }
    else v

unfoldable pub read_trailers : List Bytes → Trailers → Trailers
read_trailers [] v = v
read_trailers (t ∷ ts) v = read_trailers ts (read_trailer t v)

abbrev lower_of : FlockConfidence → FlockConfidence → FlockConfidence
lower_of a b = if ltb (rung a) (rung b) then a else b

-- The trust boundary: a rung of CONFIRMED is checked against the name that came with it.
unfoldable pub cap_by_ssid : Extras → Bytes → FlockConfidence → FlockConfidence
cap_by_ssid ex ssid conf =
    if conf_eq conf confirmed && not (is_empty ssid)
    then lower_of (flock_ssid_confidence ex (some ssid)) conf
    else conf

-- The name in a probe request is the one that the sender looks for.
unfoldable pub cap_probe : ℕ → FlockConfidence → FlockConfidence
cap_probe ftype conf = if conf_eq conf confirmed && ftype == b'P' then likely else conf

abbrev raise_to : FlockConfidence → FlockConfidence → FlockConfidence
raise_to least conf = if ltb (rung conf) (rung least) then least else conf

-- What a fingerprint does to the rung and to the frame type.
unfoldable pub apply_fp : Extras → Mac → ℕ → FlockConfidence × ℕ → FlockConfidence × ℕ
apply_fp ex mac fp (conf, ftype) = elim (flock_ie_fp_match ex fp) [
  | fp_none ↦ (conf, ftype)
  | builtin ↦ (raise_to (if flock_oui_match ex (some mac) then confirmed else probe_fp) conf, b'F')
  | candidate ↦ (raise_to probe_fp conf, b'F')
  | user ↦ (raise_to probe_fp conf, b'F')
]

-- What a community probe signature does to them.
unfoldable pub apply_sig : Bool → FlockConfidence × ℕ → FlockConfidence × ℕ
apply_sig false (conf, ftype) = (conf, ftype)
apply_sig true (conf, ftype) = (raise_to probe_fp conf, if ftype == b'F' then ftype else b'S')

-- The frame type on the wire, where an empty field is 'O'.
abbrev pub wire_ftype : List Bytes → ℕ
wire_ftype f = elim (field f 4) [ [] ↦ b'O' | c ∷ s ↦ c ]

abbrev pub wire_ssid : List Bytes → Bytes
wire_ssid f = if leb 7 (length f) then field f 6 else []

abbrev pub wire_conf : List Bytes → FlockConfidence
wire_conf f = conf_from_int (atoi (field f 5))

abbrev pub flock_trailers : Mac → List Bytes → Trailers
flock_trailers mac f = read_trailers (drop 7 f) (record {
  fp = 0;
  sig_hit = false;
  hidden = false;
  probe_rate = 0;
  dev_class = flock_class_from_mac (some mac);
})

-- The rung and the frame type that the line ends up with.
unfoldable pub score_flock : Extras → Mac → List Bytes → FlockConfidence × ℕ
score_flock ex mac f =
    let t = flock_trailers mac f in
    let capped = cap_probe (wire_ftype f) (cap_by_ssid ex (wire_ssid f) (wire_conf f)) in
    apply_sig t.sig_hit (apply_fp ex mac t.fp (capped, wire_ftype f))

unfoldable pub flock_msg : Extras → Mac → List Bytes → FlockMsg
flock_msg ex mac f =
    let t = flock_trailers mac f in
    record {
      mac = mac;
      ssid = wire_ssid f;
      rssi = to_i8 (atoi (field f 2));
      channel = to_u8 (atoi (field f 3));
      ftype = (score_flock ex mac f).1;
      conf = (score_flock ex mac f).0;
      fp = t.fp;
      dev_class = t.dev_class;
      hidden = t.hidden;
      probe_rate = t.probe_rate;
    }

unfoldable pub parse_flock : Extras → List Bytes → EspMsg
parse_flock ex f = if ltb (length f) 6 then ignored else elim (parse_mac_field (field f 1)) [
  | none ↦ ignored
  | some mac ↦ flock (flock_msg ex mac f)
]
