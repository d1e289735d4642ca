-- ===== src/EspParser/Message.antt =====
-- `EspMsg`. Text fields, which point into the line in the source, are the texts themselves.
use flip_de_flock.Common.{Bool, Option, ℕ}
use flip_de_flock.Common.Bytes.{Bytes}
use flip_de_flock.Common.Int.{ℤ}
use flip_de_flock.Common.Mac.{Mac}
use flip_de_flock.FlockDb.Types.{FlockConfidence, FlockDevClass}

pub record FlockMsg : Type 0 where
  pub mac : Mac
  pub ssid : Bytes
  pub rssi : ℤ
  pub channel : ℕ
  pub ftype : ℕ
  pub conf : FlockConfidence
  pub fp : ℕ
  pub dev_class : FlockDevClass
  pub hidden : Bool
  pub probe_rate : ℕ

pub record WifiMsg : Type 0 where
  pub bssid : Mac
  pub ssid : Bytes
  pub rssi : ℤ
  pub channel : ℕ
  pub auth : ℕ
  pub pairwise : ℕ
  pub wps : Bool

pub record BleMsg : Type 0 where
  pub addr : Mac
  pub name : Bytes
  pub rssi : ℤ
  pub cat : ℕ
  pub company : ℕ
  pub mfg : Bytes
  pub raven_gatt : Bool
  pub tracker_separated : Bool
  pub bwc_tag : Bool

pub record StatusMsg : Type 0 where
  pub frames : ℕ
  pub hits : ℕ
  pub channel : ℕ
  pub deauths : Option ℕ

pub record SurveyMsg : Type 0 where
  pub mac : Mac
  pub fp : ℕ
  pub fp2 : ℕ
  pub rssi : ℤ
  pub channel : ℕ
  pub count : ℕ
  pub sig : Bytes

-- The type and its part of the union.
pub data EspMsg : Type 0 where
  ignored wifi_begin wifi_end ble_begin ble_end : EspMsg
  banner : ℕ → Bytes → EspMsg
  status : StatusMsg → EspMsg
  wifi_ap : WifiMsg → EspMsg
  ble_dev : BleMsg → EspMsg
  flock : FlockMsg → EspMsg
  deauth_target : Mac → ℕ → EspMsg
  attack : Bytes → ℕ → EspMsg
  locate : ℤ → EspMsg
  action : Bytes → Bytes → Option ℤ → EspMsg
  gps_nmea : Bytes → EspMsg
  gps_cfg : Bool → ℤ → ℕ → EspMsg
  chip : Bytes → ℕ → ℕ → Bool → EspMsg
  survey : SurveyMsg → EspMsg
  band : ℕ → ℕ → EspMsg
  remote_id : Mac → ℤ → Bytes → EspMsg
  sig_revision : Bytes → EspMsg
  sig_test : Bytes → ℕ → Bool → EspMsg
