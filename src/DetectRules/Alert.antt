-- ===== src/DetectRules/Alert.antt =====
-- The alert gate and the exclusion list.
use flip_de_flock.Common.{
  Bool, List, [], arith, false, min, some, true, ℕ, ◌<◌, ◌==◌, ◌↔◌, ◌∷◌, ◌≡◌, ◌≢◌, ◌≤◌, ◌⊎◌,
}
use flip_de_flock.Common.Mac.{Mac, mac_eq_iff}
use flip_de_flock.Common.Search.{Exists, any_of}
use flip_de_flock.DetectRules.{
  alert_cooldown_ms, alert_min_conf, flock_alert_min_conf_rung, flock_alert_should_fire_ex,
  flock_is_excluded, fp_excluded, mac_excluded, sub_u32,
}
use flip_de_flock.FlockStore.Whole.{stored}

-- A settings byte makes the gate looser than the shipped default only if it is the explicit choice
-- "Possible"; every other byte, a corrupt one included, gives "Likely" or "Confirmed".
pub min_conf_rung_loose_iff :
    (choice : ℕ) → (flock_alert_min_conf_rung choice < alert_min_conf) ↔ (choice ≡ 0)
unfolding flock_alert_min_conf_rung
min_conf_rung_loose_iff choice = ground arith

-- What makes a sighting of a device raise an alert.
pub record Fires (prev new : ℕ) (latched stored : Bool) (now last : ℕ) (before : Bool) (min : ℕ)
    : Type 0 where
  pub qualifies : min ≤ new
  pub crossing : (stored ≡ true) ⊎ ((latched ≡ false) × (prev < min))
  pub positive : 0 < min
  pub quiet : (before ≡ false) ⊎ (alert_cooldown_ms ≤ sub_u32 now last)

-- For a rung of the settings (so not 0), the gate opens exactly if the sighting reaches the rung,
-- the device either was only known from the card or crosses the rung for the first time without
-- its latch set, and no alert was raised in the last three seconds of tick time.
pub should_fire_iff :
    (prev new : ℕ) (latched stored : Bool) (now last : ℕ) (before : Bool) (min : ℕ)
    → 0 < min
    → (flock_alert_should_fire_ex prev new latched stored now last before min ≡ true)
      ↔ Fires prev new latched stored now last before min
unfolding flock_alert_should_fire_ex
should_fire_iff prev new latched stored now last before min h = (
  λ e. record {
    qualifies = ground arith;
    crossing = ground arith;
    positive = h;
    quiet = ground arith;
  },
  λ f. ground arith,
)

num_listed : (fp : ℕ) (fps : List ℕ) → (any_of (λ x. x == fp) fps ≡ true) ↔ Exists (λ x. x ≡ fp) fps
unfolding any_of
num_listed fp [] = ground arith
num_listed fp (x ∷ fps) = ground (arith, num_listed fp fps)

-- A sighting is dropped exactly if its address is on the list, or if it has a fingerprint (not 0)
-- that is on the list; a NULL list holds nothing.
pub is_excluded_iff :
    (m : Mac) (fp : ℕ) (ms : List Mac) (fps : List ℕ)
    → (flock_is_excluded (some m) fp (some ms) (some fps) ≡ true)
      ↔ (Exists (λ x. x ≡ m) ms ⊎ ((fp ≢ 0) × Exists (λ x. x ≡ fp) fps))
unfolding flock_is_excluded mac_excluded fp_excluded any_of
is_excluded_iff m fp [] fps = ground (arith, num_listed fp fps)
is_excluded_iff m fp (x ∷ ms) fps = ground (arith, mac_eq_iff x m, is_excluded_iff m fp ms fps)
