-- ===== src/FlockBle/Naming.antt =====
-- A stored name gives way only to a more informative one.
use flip_de_flock.Common.{List, Option, [], arith, if◌then◌else◌, none, some, ℕ, ◌+◌, ◌∷◌, ◌≤◌}
use flip_de_flock.Common.Bytes.{Bytes}
use flip_de_flock.FlockBle.{
  flock_ble_name_should_replace, flock_ble_name_specificity, specificity_of,
}

pub specificity-le : (name : Option Bytes) → flock_ble_name_specificity name ≤ 3
unfolding flock_ble_name_specificity specificity_of
specificity-le none = omega arith
specificity-le (some []) = omega arith
specificity-le (some (c ∷ s)) = ground arith

-- How often a stored name is replaced over a sequence of adverts.
unfoldable pub replacements : Option Bytes → List (Option Bytes) → ℕ
replacements current [] = 0
replacements current (n ∷ ns) =
    let kept = replacements current ns in
    let taken = 1 + replacements n ns in
    if flock_ble_name_should_replace current n then taken else kept

-- Over any sequence of adverts a device's name changes at most three times, less what the
-- informativeness of its first name has already used up.
pub replacements-le :
    (current : Option Bytes) (names : List (Option Bytes))
    → replacements current names + flock_ble_name_specificity current ≤ 3
unfolding replacements flock_ble_name_should_replace
replacements-le current [] = omega (arith, specificity-le current)
replacements-le current (n ∷ ns) = ground (arith, replacements-le current ns, replacements-le n ns)
