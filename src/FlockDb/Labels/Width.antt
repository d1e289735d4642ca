-- ===== src/FlockDb/Labels/Width.antt =====
-- What the labels promise to the display and to the reader.
use flip_de_flock.Common.{arith, length, refl, ◌≡◌, ◌≤◌}
use flip_de_flock.Common.Bytes.{codes}
use flip_de_flock.FlockDb.Labels.{flock_device_long_str}
use flip_de_flock.FlockDb.Ssid.{ascii_lower, ci_contains, contains_from, matches_here}
use flip_de_flock.FlockDb.Types.{
  FlockDevClass, FlockVendor, acoustic, alpr, bodycam, drone_class, flock_safety, gear,
  is_flock_safety, sound_thinking, unknown,
}

-- Every label of the detail screen fits its row of 20 characters.
pub device_long_str-le :
    (v : FlockVendor) (c : FlockDevClass) → length (flock_device_long_str v c) ≤ 20
unfolding flock_device_long_str
device_long_str-le unknown acoustic = omega arith
device_long_str-le unknown bodycam = omega arith
device_long_str-le unknown gear = omega arith
device_long_str-le unknown drone_class = omega arith
device_long_str-le unknown alpr = omega arith
device_long_str-le flock_safety acoustic = omega arith
device_long_str-le flock_safety _ = omega arith
device_long_str-le sound_thinking _ = omega arith
device_long_str-le _ _ = omega arith

-- The detail label names Flock exactly if the vendor is Flock Safety.
pub device_long_str_names_flock :
    (v : FlockVendor) (c : FlockDevClass)
    → ci_contains (flock_device_long_str v c) (codes "flock") ≡ is_flock_safety v
unfolding flock_device_long_str ci_contains contains_from matches_here ascii_lower
device_long_str_names_flock unknown acoustic = refl
device_long_str_names_flock unknown bodycam = refl
device_long_str_names_flock unknown gear = refl
device_long_str_names_flock unknown drone_class = refl
device_long_str_names_flock unknown alpr = refl
device_long_str_names_flock flock_safety acoustic = refl
device_long_str_names_flock flock_safety _ = refl
device_long_str_names_flock sound_thinking _ = refl
device_long_str_names_flock _ _ = refl
