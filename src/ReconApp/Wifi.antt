-- ===== src/ReconApp/Wifi.antt =====
-- The list of access points: `recon_app_wifi_*`.
use flip_de_flock.Common.{
  Bool, List, [], false, if◌then◌else◌, length, ltb, take, true, ℕ, ◌++◌, ◌-◌, ◌∷◌,
}
use flip_de_flock.Common.Bytes.{Bytes}
use flip_de_flock.Common.Int.{ℤ}
use flip_de_flock.Common.Mac.{Mac}
use flip_de_flock.EspParser.Message.{WifiMsg}
use flip_de_flock.ReconApp.Ble.{say_connected}
use flip_de_flock.ReconApp.Types.{ReconApp, recon_ssid_len}

-- An access point, and the list of one scan; `wifi_count` is the length of `aps`.
pub record WifiAp : Type 0 where
  pub bssid : Mac
  pub ssid : Bytes
  pub rssi : ℤ
  pub channel : ℕ
  pub authmode : ℕ
  pub pairwise : ℕ
  pub wps : Bool
  pub marked : Bool

pub record WifiTable : Type 0 where
  pub aps : List WifiAp
  pub scanning : Bool
  pub done : Bool

abbrev pub recon_wifi_max : ℕ
recon_wifi_max = 8

unfoldable pub recon_app_wifi_begin : {F : Type 0} → WifiTable × ReconApp F → WifiTable × ReconApp F
recon_app_wifi_begin (table, app) =
    (record { aps = []; scanning = true; done = false }, say_connected app)

abbrev pub access_point : WifiMsg → WifiAp
access_point m = record {
  bssid = m.bssid;
  ssid = take (recon_ssid_len - 1) m.ssid;
  rssi = m.rssi;
  channel = m.channel;
  authmode = m.auth;
  pairwise = m.pairwise;
  wps = m.wps;
  marked = false;
}

unfoldable pub recon_app_wifi_add : WifiMsg → WifiTable → WifiTable
recon_app_wifi_add m table =
    if ltb (length table.aps) recon_wifi_max
    then record table { aps = table.aps ++ access_point m ∷ [] }
    else table

unfoldable pub recon_app_wifi_end : WifiTable → WifiTable
recon_app_wifi_end table = record table { scanning = false; done = true }
