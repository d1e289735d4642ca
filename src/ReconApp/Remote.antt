-- ===== src/ReconApp/Remote.antt =====
-- `recon_app_report_remote_id`: a Remote ID broadcast of an aircraft.
use flip_de_flock.Common.{
  List, false, get_or, if◌then◌else◌, none, not, set, some, take, true, ℕ, ◌&&◌, ◌-◌, ◌||◌,
}
use flip_de_flock.Common.Bytes.{Bytes, is_empty}
use flip_de_flock.Common.Int.{ltb_ℤ, pos, ℤ}
use flip_de_flock.Common.Mac.{Mac}
use flip_de_flock.FlockDb.Types.{confirmed, drone_class}
use flip_de_flock.ReconApp.Report.{
  alert_fires, claim_for, count_message, fresh_entry, max_conf, raise_alert,
}
use flip_de_flock.ReconApp.Types.{
  Clock, FloatOps, FlockEntry, ReconApp, inc_u32, is_zero_ℤ, recon_ssid_len,
}
use flip_de_flock.RemoteId.{OdidFloats, OdidReport, odid_parse_ble_service_data, odid_report_init}

-- The new row: unlike `fresh_entry`, the strongest signal is left at 0.
unfoldable pub remote_entry : {F : Type 0} → FloatOps F → Mac → ℕ → FlockEntry F
remote_entry fo addr now = record (fresh_entry fo addr now) { chan_rssi = pos 0 }

-- The counters, the signal and the class of the row.
unfoldable pub note_broadcast : {F : Type 0} → Clock → ℤ → FlockEntry F → FlockEntry F
note_broadcast t rssi e = record e {
  count = inc_u32 e.count;
  last_tick = t.tick;
  archived = false;
  rssi = if not (is_zero_ℤ rssi) && (is_zero_ℤ e.rssi || ltb_ℤ e.rssi rssi) then rssi else e.rssi;
  ftype = b'L';
  dev_class = drone_class;
  confidence = max_conf confirmed e.confidence;
  seen_epoch = t.epoch;
}

unfoldable pub merge_id : {F : Type 0} → OdidReport F → FlockEntry F → FlockEntry F
merge_id rep e =
    if rep.have_id
    then record e {
      ssid = if is_empty rep.uas_id then e.ssid else take (recon_ssid_len - 1) rep.uas_id;
      ua_type = rep.ua_type;
    }
    else e

unfoldable pub merge_place : {F : Type 0} → FloatOps F → OdidReport F → FlockEntry F → FlockEntry F
merge_place fo rep e =
    if not (fo.isnan rep.lat) && not (fo.isnan rep.lon)
    then record e { lat = rep.lat; lon = rep.lon; pos_broadcast = true }
    else e

unfoldable pub merge_operator :
    {F : Type 0} → FloatOps F → OdidReport F → FlockEntry F → FlockEntry F
merge_operator fo rep e =
    if not (fo.isnan rep.op_lat) && not (fo.isnan rep.op_lon)
    then record e { op_lat = rep.op_lat; op_lon = rep.op_lon }
    else e

unfoldable pub update_remote :
    {F : Type 0} → FloatOps F → Clock → ℤ → OdidReport F → FlockEntry F → FlockEntry F
update_remote fo t rssi rep e =
    merge_operator fo rep (merge_place fo rep (merge_id rep (note_broadcast t rssi e)))

unfoldable pub record_remote :
    {F : Type 0}
    → FloatOps F
    → Clock
    → ℤ
    → OdidReport F
    → List (FlockEntry F)
    → ℕ
    → FlockEntry F
    → ReconApp F
    → ReconApp F
record_remote fo t rssi rep table i e app =
    let e' = update_remote fo t rssi rep e in
    let fires = alert_fires app.alert t e e' in
    record app {
      flock = set table i (record e' { alerted = fires || e'.alerted });
      hits_dirty = true;
      alert = if fires then raise_alert t e'.mac app.alert else app.alert;
      diag = record app.diag { accepted = inc_u32 app.diag.accepted };
    }

unfoldable pub store_remote :
    {F : Type 0} → FloatOps F → Clock → Mac → ℤ → OdidReport F → ReconApp F → ReconApp F
store_remote fo t addr rssi rep app = elim (claim_for (remote_entry fo addr t.tick) app.flock) [
  | none ↦ record app { diag = record app.diag { rej_full = inc_u32 app.diag.rej_full } }
  | some (table, i) ↦
      record_remote fo t rssi rep table i (get_or table i (remote_entry fo addr t.tick)) app
]

unfoldable pub recon_app_report_remote_id :
    {F : Type 0} → FloatOps F → OdidFloats F → Clock → Mac → ℤ → Bytes → ReconApp F → ReconApp F
recon_app_report_remote_id fo fl t addr rssi payload app =
    let (rep, used) = odid_parse_ble_service_data fl payload (odid_report_init fl) in
    if used then store_remote fo t addr rssi rep (count_message app) else app
