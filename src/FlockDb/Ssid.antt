-- ===== src/FlockDb/Ssid.antt =====
-- `flock_ssid_confidence` and the string tests under it.
pub mod Shape
pub mod Needles
use flip_de_flock.Common.{
  Bool, List, Option, [], false, if◌then◌else◌, none, some, suc, true, zero, ℕ, ◌&&◌, ◌+◌, ◌==◌,
  ◌||◌, ◌∷◌,
}
use flip_de_flock.Common.Bytes.{Bytes, between, codes, is_empty}
use flip_de_flock.Common.Mac.{Mac}
use flip_de_flock.Common.Search.{any_of}
use flip_de_flock.FlockDb.Types.{
  Extras, FlockConfidence, FlockDbExtras, FlockVendor, conf_eq, conf_none, confirmed, flock_safety,
  likely,
}
use flip_de_flock.FlockDb.Vendor.{flock_vendor_from_mac}

unfoldable pub ascii_lower : ℕ → ℕ
ascii_lower c = if between b'A' b'Z' c then c + 32 else c

-- The inner `while` of `ci_contains`: the needle, lower-case, matches from the first byte on. The
-- NUL at the end of the haystack equals no needle byte.
unfoldable pub matches_here : Bytes → Bytes → Bool
matches_here h [] = true
matches_here [] (n ∷ ns) = false
matches_here (c ∷ h) (n ∷ ns) = ascii_lower c == n && matches_here h ns

unfoldable pub contains_from : Bytes → Bytes → Bool
contains_from [] needle = false
contains_from (c ∷ h) needle = matches_here (c ∷ h) needle || contains_from h needle

-- An empty needle matches nothing.
unfoldable pub ci_contains : Bytes → Bytes → Bool
ci_contains h [] = false
ci_contains h (n ∷ ns) = contains_from h (n ∷ ns)

abbrev pub is_hex : ℕ → Bool
is_hex c = between b'0' b'9' c || (between b'a' b'f' c || between b'A' b'F' c)

-- The loop over the six letters of "flock-": the rest of the name, if they match.
unfoldable pub strip_flock : Bytes → Bytes → Option Bytes
strip_flock s [] = some s
strip_flock [] (p ∷ ps) = none
strip_flock (c ∷ s) (p ∷ ps) = if ascii_lower c == p then strip_flock s ps else none

-- The loop over the next six places, then the test for the end.
unfoldable pub hex_to_end : ℕ → Bytes → Bool
hex_to_end zero s = is_empty s
hex_to_end (suc n) [] = false
hex_to_end (suc n) (c ∷ s) = is_hex c && hex_to_end n s

unfoldable pub is_flock_provisioning_ssid : Bytes → Bool
is_flock_provisioning_ssid s = elim (strip_flock s (codes "flock-")) [
  | none ↦ false
  | some rest ↦ hex_to_end 6 rest
]

unfoldable pub user_needle : (FlockDbExtras → List Bytes) → Extras → Bytes → Bool
user_needle needles none s = false
user_needle needles (some x) s = any_of (ci_contains s) (needles x)

-- The tests in order, for a name that is there and not empty.
unfoldable pub score_ssid : Extras → Bytes → FlockConfidence
score_ssid ex s =
    if is_flock_provisioning_ssid s || ci_contains s (codes "test_flck")
    then confirmed
    else if user_needle (λ x. x.ssid_confirmed) ex s
    then confirmed
    else if ci_contains s (codes "flock") || ci_contains s (codes "flck")
    then likely
    else if user_needle (λ x. x.ssid_likely) ex s
    then likely
    else conf_none

unfoldable pub flock_ssid_confidence : Extras → Option Bytes → FlockConfidence
flock_ssid_confidence ex none = conf_none
flock_ssid_confidence ex (some []) = conf_none
flock_ssid_confidence ex (some (c ∷ s)) = score_ssid ex (c ∷ s)

-- A name on the air outweighs the prefix of the address.
unfoldable pub flock_vendor_of : Extras → Option Mac → Option Bytes → FlockVendor
flock_vendor_of ex mac ssid =
    if conf_eq (flock_ssid_confidence ex ssid) conf_none
    then flock_vendor_from_mac mac
    else flock_safety
