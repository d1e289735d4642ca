-- ===== src/FlockDb/Method.antt =====
-- `flock_method_of`: the strongest indicator that can be derived again from a stored sighting.

pub mod Explains
use flip_de_flock.Common.{Bool, Option, if◌then◌else◌, not, ℕ, ◌==◌, ◌||◌}
use flip_de_flock.Common.Bytes.{Bytes}
use flip_de_flock.Common.Mac.{Mac}
use flip_de_flock.FlockDb.Fingerprint.{flock_ie_fp_match, flock_user_mac_match}
use flip_de_flock.FlockDb.Ssid.{flock_ssid_confidence}
use flip_de_flock.FlockDb.Types.{
  Extras, FlockMethod, by_ble, by_ie_fp, by_oui, by_pin, by_sig, by_ssid, conf_eq, conf_none,
  is_fp_none, method_unknown,
}
use flip_de_flock.FlockDb.Vendor.{
  axon_oui_match, flock_oui_match, soundthinking_oui_match, vendor_exclusive_oui_match,
}

unfoldable pub in_any_oui_table : Extras → Option Mac → Bool
in_any_oui_table ex mac =
    flock_oui_match ex mac
    || (soundthinking_oui_match mac || (axon_oui_match mac || vendor_exclusive_oui_match mac))

unfoldable pub flock_method_of : Extras → Option Mac → Option Bytes → ℕ → ℕ → FlockMethod
flock_method_of ex mac ssid ftype ie_fp =
    if not (conf_eq (flock_ssid_confidence ex ssid) conf_none)
    then by_ssid
    else if not (is_fp_none (flock_ie_fp_match ex ie_fp))
    then by_ie_fp
    else if flock_user_mac_match ex mac
    then by_pin
    else if in_any_oui_table ex mac
    then by_oui
    else if ftype == b'L'
    then by_ble
    else if ftype == b'S'
    then by_sig
    else method_unknown
