-- ===== src/DetectRules.antt =====
-- helpers/detect_rules.c: the decisions behind geotags, alerts, rates and exclusions.
-- A tick is a `uint32_t`; `int8_t` and `int32_t` values are integers.
pub mod Alert
pub mod Rate
use flip_de_flock.Common.{
  Bool, List, Option, false, if◌then◌else◌, leb, ltb, none, not, some, true, ℕ, ◌%◌, ◌&&◌, ◌*◌, ◌+◌,
  ◌-◌, ◌/◌, ◌==◌, ◌^◌, ◌||◌,
}
use flip_de_flock.Common.Int.{ltb_ℤ, negsuc, pos, ℤ, ◌+ℤ◌}
use flip_de_flock.Common.Mac.{Mac, mac_eq}
use flip_de_flock.Common.Search.{any_of}

unfoldable pub flock_geotag_should_update : Bool → Bool → ℤ → ℤ → Bool
flock_geotag_should_update have_fix already_tagged rssi geotag_rssi =
    have_fix && (not already_tagged || ltb_ℤ (geotag_rssi +ℤ pos 6) rssi)

abbrev pub alert_min_conf : ℕ
alert_min_conf = 2

abbrev pub alert_cooldown_ms : ℕ
alert_cooldown_ms = 3000

-- The switch on an `AlertConfChoice`: 0 and 2 have cases of their own.
unfoldable pub flock_alert_min_conf_rung : ℕ → ℕ
flock_alert_min_conf_rung choice =
    if choice == 0 then 1 else if choice == 2 then 4 else alert_min_conf

-- `a - b` on `uint32_t`
abbrev pub sub_u32 : ℕ → ℕ → ℕ
sub_u32 a b = (a + 2 ^ 32 - b) % 2 ^ 32

-- The tests after the reset for a stored device.
unfoldable pub alert_gate : ℕ → ℕ → Bool → ℕ → ℕ → Bool → ℕ → Bool
alert_gate prev_conf new_conf already_alerted now_tick last_alert_tick have_alerted_before
      min_conf =
    if already_alerted
    then false
    else if ltb new_conf min_conf
    then false
    else if leb min_conf prev_conf
    then false
    else if have_alerted_before && ltb (sub_u32 now_tick last_alert_tick) alert_cooldown_ms
    then false
    else true

unfoldable pub flock_alert_should_fire_ex : ℕ → ℕ → Bool → Bool → ℕ → ℕ → Bool → ℕ → Bool
unfolding alert_gate
flock_alert_should_fire_ex prev_conf new_conf already_alerted first_live_sighting now_tick
      last_alert_tick have_alerted_before min_conf =
    alert_gate (if first_live_sighting then 0 else prev_conf) new_conf
      (if first_live_sighting then false else already_alerted) now_tick last_alert_tick
      have_alerted_before min_conf

-- The product is a `uint64_t`, and the quotient is clamped before the cast to `int32_t`.
unfoldable pub esp_frames_rate : ℕ → ℕ → ℕ → ℤ
esp_frames_rate prev_frames now_frames elapsed_ms =
    if elapsed_ms == 0
    then negsuc 0
    else if ltb now_frames prev_frames
    then negsuc 0
    else let r = (((now_frames - prev_frames) * 1000) % 2 ^ 64) / elapsed_ms in
      if ltb 99999 r then pos 99999 else pos r

unfoldable pub mac_excluded : Option Mac → Option (List Mac) → Bool
mac_excluded none ex_macs = false
mac_excluded (some m) none = false
mac_excluded (some m) (some ms) = any_of (λ x. mac_eq x m) ms

unfoldable pub fp_excluded : ℕ → Option (List ℕ) → Bool
fp_excluded fp none = false
fp_excluded fp (some fps) = not (fp == 0) && any_of (λ x. x == fp) fps

-- `mac`, `ex_macs` and `ex_fps` may be NULL.
unfoldable pub flock_is_excluded : Option Mac → ℕ → Option (List Mac) → Option (List ℕ) → Bool
flock_is_excluded mac fp ex_macs ex_fps = mac_excluded mac ex_macs || fp_excluded fp ex_fps
