-- ===== src/FlockDb/Ssid/Needles.antt =====
-- What the user's own needles can change, and what the built-in rules never announce.
use flip_de_flock.Common.{Option, [], arith, none, some, true, ◌∷◌, ◌≡◌, ◌≤◌}
use flip_de_flock.Common.Bytes.{Bytes, codes}
use flip_de_flock.FlockDb.Ssid.{
  ci_contains, flock_ssid_confidence, is_flock_provisioning_ssid, score_ssid, user_needle,
}
use flip_de_flock.FlockDb.Ssid.Shape.{IsProvisioning, IsProvisioning-iff, Occurs, ci_contains_iff}
use flip_de_flock.FlockDb.Types.{Extras, likely, rung}

-- The user's needles can only raise the answer.
pub ssid_confidence_mono :
    (ex : Extras) (s : Option Bytes)
    → rung (flock_ssid_confidence none s) ≤ rung (flock_ssid_confidence ex s)
unfolding flock_ssid_confidence score_ssid user_needle
ssid_confidence_mono none s = omega arith
ssid_confidence_mono (some x) none = omega arith
ssid_confidence_mono (some x) (some []) = omega arith
ssid_confidence_mono (some x) (some (c ∷ s)) = ground arith

-- Without the user's needles a name is confirmed only by the whole provisioning shape or by the
-- development name: a name such as "Flock-Guest" stays at "Likely" or below.
pub ssid_capped :
    (s : Bytes)
    → ¬ IsProvisioning s
    → ¬ Occurs (codes "test_flck") s
    → rung (flock_ssid_confidence none (some s)) ≤ rung likely
unfolding flock_ssid_confidence score_ssid user_needle
ssid_capped [] np nt = omega arith
ssid_capped (c ∷ s) np nt = ground (
  arith,
  λ (e : is_flock_provisioning_ssid (c ∷ s) ≡ true). np ((IsProvisioning-iff (c ∷ s)).0 e),
  λ (e : ci_contains (c ∷ s) (codes "test_flck") ≡ true).
      nt ((ci_contains_iff (c ∷ s) (codes "test_flck")).0 e).1,
)
