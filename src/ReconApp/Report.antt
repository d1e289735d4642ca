-- ===== src/ReconApp/Report.antt =====
-- `recon_app_report_flock`: one sighting.
use flip_de_flock.Common.{
  Bool, List, Option, [], false, get_or, if◌then◌else◌, length, ltb, none, not, set, some, take,
  true, ℕ, ◌&&◌, ◌++◌, ◌+◌, ◌-◌, ◌==◌, ◌||◌, ◌∷◌,
}
use flip_de_flock.Common.Bytes.{Bytes}
use flip_de_flock.Common.Int.{ltb_ℤ, pos}
use flip_de_flock.Common.Mac.{Mac, mac_eq}
use flip_de_flock.DetectRules.{
  flock_alert_min_conf_rung, flock_alert_should_fire_ex, flock_geotag_should_update,
  flock_is_excluded,
}
use flip_de_flock.FlockBle.{flock_ble_name_should_replace}
use flip_de_flock.FlockDb.Types.{FlockConfidence, FlockDevClass, alpr, conf_eq, conf_none, rung}
use flip_de_flock.FlockStore.{flock_store_evict_better}
use flip_de_flock.ReconApp.Types.{
  AlertState, Clock, FloatOps, FlockEntry, GpsState, ReconApp, Sighting, inc_u32, int8_min,
  is_zero_ℤ, recon_flock_max, recon_ssid_len,
}

unfoldable pub find_entry : {F : Type 0} → Mac → ℕ → List (FlockEntry F) → Option ℕ
find_entry mac i [] = none
find_entry mac i (e ∷ es) =
    let later = find_entry mac (i + 1) es in if mac_eq e.mac mac then some i else later

-- The row that an eviction would take, with its index; `none` is the -1 of the source.
abbrev pub Best : Type 0 → Type 0
Best F = Option (ℕ × FlockEntry F)

-- The body of the loop that looks for a victim.
unfoldable pub better_victim : {F : Type 0} → ℕ → FlockEntry F → Best F → Best F
better_victim i e none = if e.archived then some (i, e) else none
better_victim i e (some (v, w)) =
    if e.archived
      && flock_store_evict_better (rung e.confidence) e.seen_epoch (rung w.confidence) w.seen_epoch
    then some (i, e)
    else some (v, w)

unfoldable pub victim_from : {F : Type 0} → ℕ → Best F → List (FlockEntry F) → Best F
victim_from i best [] = best
victim_from i best (e ∷ es) = victim_from (i + 1) (better_victim i e best) es

-- `memset(entry, 0, ...)` and the values that are not 0.
unfoldable pub fresh_entry : {F : Type 0} → FloatOps F → Mac → ℕ → FlockEntry F
fresh_entry fo mac now = record {
  mac = mac;
  ssid = [];
  rssi = pos 0;
  channel = 0;
  ftype = 0;
  confidence = conf_none;
  dev_class = alpr;
  hidden = false;
  probe_rate = 0;
  ble_tell = 0;
  geotag_rssi = pos 0;
  chan_rssi = int8_min;
  marked = false;
  seen_by_operator = false;
  label = [];
  alerted = false;
  archived = false;
  ie_fp = 0;
  lat = fo.nan;
  lon = fo.nan;
  heading = fo.nan;
  count = 0;
  first_tick = now;
  last_tick = 0;
  seen_epoch = 0;
  op_lat = fo.nan;
  op_lon = fo.nan;
  ua_type = 0;
  pos_broadcast = false;
}

-- The table with the row for a device, and the index of that row.
abbrev pub Slot : Type 0 → Type 0
Slot F = Option (List (FlockEntry F) × ℕ)

unfoldable pub evict_for : {F : Type 0} → FlockEntry F → List (FlockEntry F) → Slot F
evict_for fresh table = elim (victim_from 0 none table) [
  | none ↦ none
  | some (v, w) ↦ some (set table v fresh, v)
]

-- The existing row, or a new one, or an archived one that gives way.
unfoldable pub claim_for : {F : Type 0} → FlockEntry F → List (FlockEntry F) → Slot F
claim_for fresh table = elim (find_entry fresh.mac 0 table) [
  | some i ↦ some (table, i)
  | none ↦
      if ltb (length table) recon_flock_max
      then some (table ++ (fresh ∷ []), length table)
      else evict_for fresh table
]

unfoldable pub claim_row : {F : Type 0} → FloatOps F → Mac → ℕ → List (FlockEntry F) → Slot F
claim_row fo mac now table = claim_for (fresh_entry fo mac now) table

-- The counters, the signal and the channel of a row.
unfoldable pub note_signal : {F : Type 0} → Clock → Sighting → FlockEntry F → FlockEntry F
note_signal t s e =
    let stronger = not (s.channel == 0) && (is_zero_ℤ s.rssi || not (ltb_ℤ s.rssi e.chan_rssi)) in
    record e {
      count = inc_u32 e.count;
      last_tick = t.tick;
      archived = false;
      seen_epoch = t.epoch;
      rssi = if is_zero_ℤ s.rssi then e.rssi else s.rssi;
      channel = if stronger then s.channel else e.channel;
      chan_rssi = if stronger && not (is_zero_ℤ s.rssi) then s.rssi else e.chan_rssi;
      probe_rate = if stronger then s.probe_rate else e.probe_rate;
    }

abbrev pub is_alpr : FlockDevClass → Bool
is_alpr alpr = true
is_alpr _ = false

abbrev pub max_conf : FlockConfidence → FlockConfidence → FlockConfidence
max_conf new old = if ltb (rung old) (rung new) then new else old

-- The evidence of a row, which later sightings do not take back.
unfoldable pub note_evidence : {F : Type 0} → Sighting → FlockEntry F → FlockEntry F
note_evidence s e = record e {
  ftype = if s.ftype == 0 then e.ftype else s.ftype;
  confidence = max_conf s.confidence e.confidence;
  ie_fp = if s.ie_fp == 0 then e.ie_fp else s.ie_fp;
  dev_class = if is_alpr s.dev_class then e.dev_class else s.dev_class;
  hidden = s.hidden || e.hidden;
}

-- The name of a row after a sighting.
unfoldable pub name_after : ℕ → Option Bytes → Bytes → Bytes
name_after ftype none old = old
name_after ftype (some []) old = old
name_after ftype (some (c ∷ s)) [] = take (recon_ssid_len - 1) (c ∷ s)
name_after ftype (some (c ∷ s)) (d ∷ old) =
    if ftype == b'L' && flock_ble_name_should_replace (some (d ∷ old)) (some (c ∷ s))
    then take (recon_ssid_len - 1) (c ∷ s)
    else d ∷ old

unfoldable pub note_name : {F : Type 0} → Sighting → FlockEntry F → FlockEntry F
note_name s e = record e { ssid = name_after s.ftype s.ssid e.ssid }

unfoldable pub note_place :
    {F : Type 0} → FloatOps F → GpsState F → Sighting → FlockEntry F → FlockEntry F
note_place fo gps s e =
    if not e.pos_broadcast
      && flock_geotag_should_update gps.valid (not (fo.isnan e.lat)) s.rssi e.geotag_rssi
    then record e { lat = gps.lat; lon = gps.lon; heading = gps.course; geotag_rssi = s.rssi }
    else e

-- The row after a sighting, but for the alert.
unfoldable pub update_entry :
    {F : Type 0} → FloatOps F → GpsState F → Clock → Sighting → FlockEntry F → FlockEntry F
update_entry fo gps t s e = note_place fo gps s (note_name s (note_evidence s (note_signal t s e)))

-- Whether a sighting of the row `e`, which makes it `e'`, raises the alert.
unfoldable pub alert_fires : {F : Type 0} → AlertState → Clock → FlockEntry F → FlockEntry F → Bool
alert_fires a t e e' =
    flock_alert_should_fire_ex (rung e.confidence) (rung e'.confidence) e'.alerted e.archived t.tick
      a.last_tick a.have_fired (flock_alert_min_conf_rung a.min_conf_choice)

unfoldable pub raise_alert : Clock → Mac → AlertState → AlertState
raise_alert t mac a = record a {
  pending = true;
  last_tick = t.tick;
  have_fired = true;
  card_mac = mac;
  card_tick = t.tick;
}

-- What follows once the row `e` at index `i` is claimed.
unfoldable pub record_sighting :
    {F : Type 0}
    → FloatOps F
    → Clock
    → Sighting
    → List (FlockEntry F)
    → ℕ
    → FlockEntry F
    → ReconApp F
    → ReconApp F
record_sighting fo t s table i e app =
    let e' = update_entry fo app.gps t s e in
    let fires = alert_fires app.alert t e e' in
    record app {
      flock = set table i (record e' { alerted = fires || e'.alerted });
      hits_dirty = true;
      alert = if fires then raise_alert t e'.mac app.alert else app.alert;
      diag = record app.diag { accepted = inc_u32 app.diag.accepted };
    }

unfoldable pub store_sighting :
    {F : Type 0} → FloatOps F → Clock → Sighting → ReconApp F → ReconApp F
store_sighting fo t s app = elim (claim_row fo s.mac t.tick app.flock) [
  | none ↦ record app {
    hits_dirty = true;
    diag = record app.diag { rej_full = inc_u32 app.diag.rej_full };
  }
  | some (table, i) ↦
      record_sighting fo t s table i (get_or table i (fresh_entry fo s.mac t.tick)) app
]

unfoldable pub count_message : {F : Type 0} → ReconApp F → ReconApp F
count_message app = record app {
  diag = record app.diag { flock_msgs = inc_u32 app.diag.flock_msgs };
}

unfoldable pub recon_app_report_flock :
    {F : Type 0} → FloatOps F → Clock → Sighting → ReconApp F → ReconApp F
recon_app_report_flock fo t s app =
    let counted = count_message app in
    if conf_eq s.confidence conf_none
    then record counted { diag = record counted.diag { rej_conf = inc_u32 app.diag.rej_conf } }
    else if flock_is_excluded (some s.mac) s.ie_fp (some app.ignore_macs) (some app.ignore_fps)
    then record counted {
      diag = record counted.diag { rej_ignored = inc_u32 app.diag.rej_ignored };
    }
    else store_sighting fo t s counted
