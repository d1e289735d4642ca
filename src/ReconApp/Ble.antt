-- ===== src/ReconApp/Ble.antt =====
-- The table of BLE devices: `recon_app_ble_*`.
use flip_de_flock.Common.{
  Bool, List, Option, [], false, get_or, if◌then◌else◌, length, ltb, none, not, set, some, take,
  true, ℕ, ◌&&◌, ◌++◌, ◌+◌, ◌-◌, ◌==◌, ◌||◌, ◌∷◌,
}
use flip_de_flock.Common.Bytes.{Bytes, codes, is_empty, starts_with}
use flip_de_flock.Common.Int.{pos, ℤ}
use flip_de_flock.Common.Mac.{Mac, mac_eq}
use flip_de_flock.EspParser.Message.{BleMsg}
use flip_de_flock.FlockBle.{
  FlockBleModel, FlockBleTell, flock_ble_company_id, flock_ble_confidence, flock_ble_extract_serial,
  flock_ble_model_ex, flock_ble_name_should_replace, flock_ble_tell, model_unknown, tell_mfg_id,
  tell_naming, tell_none, tell_oui_only, tell_raven_gatt,
}
use flip_de_flock.FlockDb.Types.{Extras, acoustic, alpr, bodycam}
use flip_de_flock.GpsParser.{GpsFloats}
use flip_de_flock.ReconApp.Report.{recon_app_report_flock}
use flip_de_flock.ReconApp.Survey.{recon_app_set_ble_tell}
use flip_de_flock.ReconApp.Types.{
  Clock, FloatOps, GpsState, ReconApp, Sighting, inc_u32, recon_ssid_len,
}

pub record BleDevice (F : Type 0) : Type 0 where
  pub addr : Mac
  pub name : Bytes
  pub serial : Bytes
  pub rssi : ℤ
  pub cat : ℕ
  pub model : FlockBleModel
  pub company : ℕ
  pub count : ℕ
  pub first_tick : ℕ
  pub last_tick : ℕ
  pub first_lat : F
  pub first_lon : F
  pub last_lat : F
  pub last_lon : F
  pub marked : Bool

-- `ble_count` is the length of `devices`; `seen` and `scans` are `esp_ble_seen` and `esp_ble_scans`.
pub record BleTable (F : Type 0) : Type 0 where
  pub devices : List (BleDevice F)
  pub scanning : Bool
  pub done : Bool
  pub seen : ℕ
  pub scans : ℕ

abbrev pub recon_ble_max : ℕ
recon_ble_max = 8

abbrev pub recon_ble_serial_len : ℕ
recon_ble_serial_len = 24

abbrev pub ble_company_none : ℕ
ble_company_none = 0xFFFF

-- `BleCat`: 0 is unknown.
abbrev pub ble_cat_flock : ℕ
ble_cat_flock = 1

abbrev pub ble_cat_flipper : ℕ
ble_cat_flipper = 6

abbrev pub ble_cat_axon : ℕ
ble_cat_axon = 7

-- `FlockBleTell` as the number that a row stores.
abbrev pub tell_number : FlockBleTell → ℕ
tell_number tell_none = 0
tell_number tell_mfg_id = 1
tell_number tell_raven_gatt = 2
tell_number tell_naming = 3
tell_number tell_oui_only = 4

abbrev pub is_unknown : FlockBleModel → Bool
is_unknown model_unknown = true
is_unknown _ = false

abbrev pub bytes_of : Option Bytes → Bytes
bytes_of none = []
bytes_of (some s) = s

-- The category of an advert: a Flipper is known by its name.
unfoldable pub ble_cat_of : ℕ → Bytes → ℕ
ble_cat_of cat name =
    if cat == 0 && starts_with name (codes "Flipper") then ble_cat_flipper else cat

-- The serial and the model, which only a Flock device gets.
unfoldable pub ble_serial_of : ℕ → BleMsg → Bytes
ble_serial_of cat m =
    let mfg =
      if m.company == flock_ble_company_id && not (is_empty m.mfg) then some m.mfg else none in
    if cat == ble_cat_flock
    then bytes_of (flock_ble_extract_serial mfg (some m.name) recon_ble_serial_len)
    else []

unfoldable pub ble_model_of : ℕ → Bytes → BleMsg → FlockBleModel
ble_model_of cat serial m =
    if cat == ble_cat_flock
    then flock_ble_model_ex (some serial) (some m.name) m.raven_gatt
    else model_unknown

-- The name, which a more telling one replaces.
unfoldable pub device_name : Bytes → Bytes → Bytes
device_name offered old =
    if not (is_empty offered)
      && (is_empty old || flock_ble_name_should_replace (some old) (some offered))
    then take (recon_ssid_len - 1) offered
    else old

-- What the table of detections is told about a device of Flock or Axon.
abbrev pub ble_sighting : ℕ → BleMsg → Sighting
ble_sighting cat m = record {
  mac = m.addr;
  ssid = some m.name;
  rssi = m.rssi;
  channel = 0;
  ftype = b'L';
  confidence = flock_ble_confidence m.company (some m.name) m.raven_gatt;
  ie_fp = 0;
  dev_class = if cat == ble_cat_axon then bodycam else if m.raven_gatt then acoustic else alpr;
  hidden = false;
  probe_rate = 0;
}

module _ {F : Type 0} where
  unfoldable pub find_device : Mac → ℕ → List (BleDevice F) → Option ℕ
  find_device addr i [] = none
  find_device addr i (e ∷ es) =
      let later = find_device addr (i + 1) es in if mac_eq e.addr addr then some i else later

  -- The loop for a full table: the row heard longest ago, never a marked one.
  abbrev pub staler : ℕ → BleDevice F → Option (ℕ × ℕ) → Option (ℕ × ℕ)
  staler i e none = if e.marked then none else some (i, e.last_tick)
  staler i e (some (v, tick)) =
      if not e.marked && ltb e.last_tick tick then some (i, e.last_tick) else some (v, tick)

  unfoldable pub stalest_from : ℕ → Option (ℕ × ℕ) → List (BleDevice F) → Option (ℕ × ℕ)
  stalest_from i best [] = best
  stalest_from i best (e ∷ es) = stalest_from (i + 1) (staler i e best) es

  -- A row as `memset` leaves it, with the place and the time of the first sighting.
  unfoldable pub fresh_device : GpsFloats F → GpsState F → Mac → ℕ → BleDevice F
  fresh_device gf gps addr now = record {
    addr = addr;
    name = [];
    serial = [];
    rssi = pos 0;
    cat = 0;
    model = model_unknown;
    company = 0;
    count = 0;
    first_tick = now;
    last_tick = now;
    first_lat = if gps.valid then gps.lat else gf.nan;
    first_lon = if gps.valid then gps.lon else gf.nan;
    last_lat = gf.of_ℤ (pos 0);
    last_lon = gf.of_ℤ (pos 0);
    marked = false;
  }

  abbrev pub reuse_row :
      BleDevice F → List (BleDevice F) → Option (ℕ × ℕ) → Option (List (BleDevice F) × ℕ)
  reuse_row fresh rows none = none
  reuse_row fresh rows (some (v, tick)) = some (set rows v fresh, v)

  abbrev pub device_row :
      BleDevice F → List (BleDevice F) → Option ℕ → Option (List (BleDevice F) × ℕ)
  device_row fresh rows (some i) = some (rows, i)
  device_row fresh rows none =
      if ltb (length rows) recon_ble_max
      then some (rows ++ fresh ∷ [], length rows)
      else reuse_row fresh rows (stalest_from 0 none rows)

  unfoldable pub update_device :
      GpsState F → ℕ → ℕ → Bytes → FlockBleModel → BleMsg → BleDevice F → BleDevice F
  update_device gps now cat serial model m e = record e {
    count = inc_u32 e.count;
    rssi = m.rssi;
    last_tick = now;
    cat = if cat == 0 then e.cat else cat;
    company = if m.company == ble_company_none then e.company else m.company;
    name = device_name m.name e.name;
    serial =
        if not (is_empty serial) && is_empty e.serial
        then take (recon_ble_serial_len - 1) serial
        else e.serial;
    model = if is_unknown model then e.model else model;
    last_lat = if gps.valid then gps.lat else e.last_lat;
    last_lon = if gps.valid then gps.lon else e.last_lon;
  }

  abbrev pub write_device :
      BleDevice F
      → List (BleDevice F)
      → (BleDevice F → BleDevice F)
      → Option (List (BleDevice F) × ℕ)
      → List (BleDevice F)
  write_device fresh rows update none = rows
  write_device fresh rows update (some (rows', i)) = set rows' i (update (get_or rows' i fresh))

  unfoldable pub recon_app_ble_add :
      FloatOps F
      → GpsFloats F
      → Extras
      → Clock
      → BleMsg
      → BleTable F × ReconApp F
      → BleTable F × ReconApp F
  recon_app_ble_add fo gf ex t m (table, app) =
      let cat = ble_cat_of m.cat m.name in
      let serial = ble_serial_of cat m in
      let model = ble_model_of cat serial m in
      let fresh = fresh_device gf app.gps m.addr t.tick in
      let row = device_row fresh table.devices (find_device m.addr 0 table.devices) in
      let rows =
        write_device fresh table.devices (update_device app.gps t.tick cat serial model m) row in
      let tell =
        tell_number (flock_ble_tell ex m.company (some m.name) m.raven_gatt (some m.addr)) in
      (
        record table { devices = rows; seen = inc_u32 table.seen },
        if cat == ble_cat_flock || cat == ble_cat_axon
            then recon_app_set_ble_tell m.addr tell
                (recon_app_report_flock fo t (ble_sighting cat m) app)
            else app,
      )

  abbrev pub say_connected : ReconApp F → ReconApp F
  say_connected app = record app { link = record app.link { connected = true } }

  unfoldable pub recon_app_ble_begin : BleTable F × ReconApp F → BleTable F × ReconApp F
  recon_app_ble_begin (table, app) =
      (record table { scanning = true; done = false }, say_connected app)

  unfoldable pub recon_app_ble_scan_done : BleTable F → BleTable F
  recon_app_ble_scan_done table = record table { scans = inc_u32 table.scans }

  unfoldable pub recon_app_ble_end : BleTable F → BleTable F
  recon_app_ble_end table = record table { scanning = false; done = true }
