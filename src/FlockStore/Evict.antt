-- ===== src/FlockStore/Evict.antt =====
-- The order in which stored hits give way.
use flip_de_flock.Common.{arith, false, not, true, ℕ, ◌≡◌, ◌≢◌, ◌⊎◌}
use flip_de_flock.FlockStore.{flock_store_evict_better}

-- Comparing rung first and time of sighting second is a strict order: no hit is better to evict
-- than itself, the relation is transitive, and of two hits that differ in rung or in time exactly
-- one goes first.
pub evict_order :
    (a s b t c u : ℕ)
    → (flock_store_evict_better a s a s ≡ false)
      × (flock_store_evict_better a s b t ≡ true
          → flock_store_evict_better b t c u ≡ true
          → flock_store_evict_better a s c u ≡ true)
      × ((a ≢ b) ⊎ (s ≢ t)
          → flock_store_evict_better a s b t ≡ not (flock_store_evict_better b t a s))
unfolding flock_store_evict_better
evict_order a s b t c u = (ground arith, (λ p q. ground arith), (λ d. ground arith))
