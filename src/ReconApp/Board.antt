-- ===== src/ReconApp/Board.antt =====
-- What the board says of itself: the operations of recon_app.c that store it.
use flip_de_flock.Common.{Bool, if◌then◌else◌, not, take, true, ℕ, ◌&&◌}
use flip_de_flock.Common.Bytes.{Bytes, bytes_eq, codes, is_empty}
use flip_de_flock.Common.Int.{ltb_ℤ, negsuc, pos, ℤ}
use flip_de_flock.GpsParser.{GpsFloats}

pub data GpsRelay : Type 0 where
  relay_unknown relay_on relay_off : GpsRelay

-- The live meter of the locator.
pub record Locator (F : Type 0) : Type 0 where
  pub rssi : ℤ
  pub tick : ℕ
  pub have : Bool
  pub peak : ℤ
  pub ema : F
  pub trend : ℤ
  pub init : Bool

pub record Board : Type 0 where
  pub build : Bytes
  pub revision : Bytes
  pub sig_mismatch : Bool
  pub sigtest_hash : ℕ
  pub sigtest_seen : Bool
  pub sigtest_pass : Bool
  pub chip_name : Bytes
  pub gpio_count : ℕ
  pub gps_pin_mask : ℕ
  pub has_5ghz : Bool
  pub band_actual : ℕ
  pub band_channels : ℕ
  pub gps_cfg_resend : Bool
  pub gps_relay : GpsRelay
  pub gps_relay_pin : ℤ
  pub gps_relay_baud : ℕ

abbrev pub fdf_signature_revision : Bytes
fdf_signature_revision = codes "96274812"

abbrev pub esp_proto_version : ℕ
esp_proto_version = 1

unfoldable pub recon_app_set_esp_sig_revision : Bytes → Board → Board
recon_app_set_esp_sig_revision text b =
    let kept = take 15 text in
    record b {
      revision = kept;
      sig_mismatch = not (is_empty kept) && not (bytes_eq kept fdf_signature_revision);
    }

unfoldable pub recon_app_set_esp_sigtest : ℕ → Bool → Board → Board
recon_app_set_esp_sigtest hash pass b = record b {
  sigtest_hash = hash;
  sigtest_seen = true;
  sigtest_pass = pass;
}

unfoldable pub recon_app_set_chip : Bytes → ℕ → ℕ → Bool → Board → Board
recon_app_set_chip target gpio_count gps_pin_mask has_5ghz b = record b {
  chip_name = take 11 target;
  gpio_count = gpio_count;
  gps_pin_mask = gps_pin_mask;
  has_5ghz = has_5ghz;
}

unfoldable pub recon_app_set_band : ℕ → ℕ → Board → Board
recon_app_set_band sel channels b = record b { band_actual = sel; band_channels = channels }

unfoldable pub recon_app_set_gps_relay : Bool → ℤ → ℕ → Board → Board
recon_app_set_gps_relay on pin baud b = record b {
  gps_relay = if on then relay_on else relay_off;
  gps_relay_pin = pin;
  gps_relay_baud = baud;
}

-- The part of a banner that the board record holds: the request to send the GPS settings again, and
-- the build.
unfoldable pub note_banner : Bytes → Board → Board
note_banner build b = record b {
  gps_cfg_resend = true;
  build = if is_empty build then b.build else take 11 build;
}

module _ {F : Type 0} (gf : GpsFloats F) where
  -- `LOCATE_TREND_DB` is 2. The average is never NAN, so `>=` is the negation of `<`.
  unfoldable pub trend_of : F → ℤ
  trend_of d =
      if not (gf.lt d (gf.of_ℤ (pos 2)))
      then pos 1
      else if not (gf.lt (gf.of_ℤ (negsuc 1)) d)
      then negsuc 0
      else pos 0

  unfoldable pub fold_reading : ℤ → Locator F → Locator F
  fold_reading rssi l =
      let x = gf.of_ℤ rssi in
      let half = gf.div (gf.of_ℤ (pos 1)) (gf.of_ℤ (pos 2)) in
      if l.init
      then record l {
        peak = if ltb_ℤ l.peak rssi then rssi else l.peak;
        trend = trend_of (gf.sub x l.ema);
        ema = gf.add (gf.mul l.ema half) (gf.mul x half);
      }
      else record l { peak = rssi; ema = x; trend = pos 0; init = true }

  unfoldable pub recon_app_set_locate_rssi : ℕ → ℤ → Locator F → Locator F
  recon_app_set_locate_rssi now rssi l =
      let read = record l { rssi = rssi; tick = now; have = true } in
      if ltb_ℤ rssi (pos 0) then fold_reading rssi read else read
