-- ===== src/FlockDb/Method/Explains.antt =====
-- The method explains the vendor.
use flip_de_flock.Common.{Option, arith, none, not, refl, some, true, ℕ, ◌≡◌, ◌≢◌, ◌⊎◌}
use flip_de_flock.Common.Bytes.{Bytes}
use flip_de_flock.Common.Mac.{Mac}
use flip_de_flock.FlockDb.Method.{flock_method_of, in_any_oui_table}
use flip_de_flock.FlockDb.Ssid.{flock_vendor_of}
use flip_de_flock.FlockDb.Types.{Extras, FlockMethod, by_ie_fp, by_oui, by_pin, by_ssid, unknown}
use flip_de_flock.FlockDb.Vendor.{
  axon_oui_match, find_row, flock_oui_match, flock_vendor_from_mac, flock_vendor_tables,
  soundthinking_oui_match, vendor_exclusive_oui_match, vendor_row_for_mac,
}
use flip_de_flock.FlockDb.Vendor.Unique.{is_unknown}

-- With no prefixes of the user's own, the four matchers together find an address exactly if the
-- vendor table names a vendor for it.
pub any_table-vendor :
    (mac : Option Mac) → in_any_oui_table none mac ≡ not (is_unknown (flock_vendor_from_mac mac))
unfolding in_any_oui_table flock_oui_match soundthinking_oui_match axon_oui_match
    vendor_exclusive_oui_match flock_vendor_from_mac vendor_row_for_mac find_row flock_vendor_tables
any_table-vendor none = refl
any_table-vendor (some m) = ground arith

-- The user's prefixes only add matches.
in_any_oui_table_mono :
    (ex : Extras) (mac : Option Mac)
    → in_any_oui_table none mac ≡ true
    → in_any_oui_table ex mac ≡ true
unfolding in_any_oui_table flock_oui_match
in_any_oui_table_mono ex none h = h
in_any_oui_table_mono ex (some m) h = ground arith

-- The indicators that this side derives from the stored name, fingerprint and address.
abbrev pub Derived : FlockMethod → Type 0
Derived m = (m ≡ by_ssid) ⊎ ((m ≡ by_ie_fp) ⊎ ((m ≡ by_pin) ⊎ (m ≡ by_oui)))

-- Whenever a vendor is named for a sighting, the method shown for it is one that this side derived
-- again: never the frame type's word for it, and never "ESP probe rule".
pub vendor_has_method :
    (ex : Extras) (mac : Option Mac) (ssid : Option Bytes) (ftype ie_fp : ℕ)
    → flock_vendor_of ex mac ssid ≢ unknown
    → Derived (flock_method_of ex mac ssid ftype ie_fp)
unfolding flock_vendor_of flock_method_of
vendor_has_method ex mac ssid ftype ie_fp h =
    ground (arith, any_table-vendor mac, in_any_oui_table_mono ex mac)
