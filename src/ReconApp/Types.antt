-- ===== src/ReconApp/Types.antt =====
-- `FlockEntry` and the parts of `ReconApp` that the modelled functions read or write.
use flip_de_flock.Common.{Bool, List, Option, false, ℕ, ◌%◌, ◌+◌, ◌==◌, ◌^◌}
use flip_de_flock.Common.Bytes.{Bytes}
use flip_de_flock.Common.Int.{negsuc, pos, ℤ}
use flip_de_flock.Common.Mac.{Mac}
use flip_de_flock.FlockDb.Types.{FlockConfidence, FlockDevClass}

-- What the code uses of floats: copies, NAN and `isnan`.
pub record FloatOps (F : Type 0) : Type 0 where
  pub nan : F
  pub isnan : F → Bool

-- `confirmed` of the source is `seen_by_operator` here.
pub record FlockEntry (F : Type 0) : Type 0 where
  pub mac : Mac
  pub ssid : Bytes
  pub rssi : ℤ
  pub channel : ℕ
  pub ftype : ℕ
  pub confidence : FlockConfidence
  pub dev_class : FlockDevClass
  pub hidden : Bool
  pub probe_rate : ℕ
  pub ble_tell : ℕ
  pub geotag_rssi : ℤ
  pub chan_rssi : ℤ
  pub marked : Bool
  pub seen_by_operator : Bool
  pub label : Bytes
  pub alerted : Bool
  pub archived : Bool
  pub ie_fp : ℕ
  pub lat : F
  pub lon : F
  pub heading : F
  pub count : ℕ
  pub first_tick : ℕ
  pub last_tick : ℕ
  pub seen_epoch : ℕ
  pub op_lat : F
  pub op_lon : F
  pub ua_type : ℕ
  pub pos_broadcast : Bool

-- The alert, its card, and the setting that gates it.
pub record AlertState : Type 0 where
  pub min_conf_choice : ℕ
  pub pending : Bool
  pub last_tick : ℕ
  pub have_fired : Bool
  pub card_mac : Mac
  pub card_tick : ℕ
  pub fired : ℕ

pub record GpsState (F : Type 0) : Type 0 where
  pub valid : Bool
  pub lat : F
  pub lon : F
  pub course : F
  pub sats : ℕ
  pub fix_tick : ℕ

pub record LinkState : Type 0 where
  pub present : Bool
  pub connected : Bool
  pub lost : Bool
  pub rx_tick : ℕ
  pub frames : ℕ
  pub hits : ℕ
  pub frames_base : ℕ
  pub hits_base : ℕ
  pub rebase : Bool
  pub channel : ℕ
  pub lines : ℕ
  pub frame_rate : ℤ
  pub frames_prev : ℕ
  pub rate_tick : ℕ
  pub reboots : ℕ
  pub proto_version : ℕ
  pub proto_mismatch : Bool

pub record DiagState : Type 0 where
  pub flock_msgs : ℕ
  pub accepted : ℕ
  pub rej_conf : ℕ
  pub rej_full : ℕ
  pub rej_ignored : ℕ

-- `flock_count`, `ignore_mac_count` and `ignore_fp_count` are the lengths of the lists.
pub record ReconApp (F : Type 0) : Type 0 where
  pub flock : List (FlockEntry F)
  pub selected : ℤ
  pub hits_dirty : Bool
  pub ignore_macs : List Mac
  pub ignore_fps : List ℕ
  pub alert : AlertState
  pub gps : GpsState F
  pub link : LinkState
  pub diag : DiagState

-- The arguments of `recon_app_report_flock`.
pub record Sighting : Type 0 where
  pub mac : Mac
  pub ssid : Option Bytes
  pub rssi : ℤ
  pub channel : ℕ
  pub ftype : ℕ
  pub confidence : FlockConfidence
  pub ie_fp : ℕ
  pub dev_class : FlockDevClass
  pub hidden : Bool
  pub probe_rate : ℕ

-- `furi_get_tick()` and `furi_hal_rtc_get_timestamp()` at the time of a call.
pub record Clock : Type 0 where
  pub tick : ℕ
  pub epoch : ℕ

-- `x++` on `uint32_t`
abbrev pub inc_u32 : ℕ → ℕ
inc_u32 x = (x + 1) % 2 ^ 32

abbrev pub recon_flock_max : ℕ
recon_flock_max = 64

abbrev pub recon_ssid_len : ℕ
recon_ssid_len = 33

abbrev pub int8_min : ℤ
int8_min = negsuc 127

abbrev pub is_zero_ℤ : ℤ → Bool
is_zero_ℤ (pos n) = n == 0
is_zero_ℤ (negsuc n) = false
