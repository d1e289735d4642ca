-- ===== src/FlockBle/Evidence.antt =====
-- How the answers of this file fit together.
use flip_de_flock.Common.{Bool, Option, arith, true, ℕ, ◌↔◌, ◌≡◌, ◌≢◌, ◌⊎◌}
use flip_de_flock.Common.Bytes.{Bytes}
use flip_de_flock.Common.Mac.{Mac}
use flip_de_flock.FlockBle.{
  FlockBleTell, flock_ble_confidence, flock_ble_model_ex, flock_ble_tell, model_falcon, model_raven,
  tell_mfg_id, tell_naming, tell_raven_gatt,
}
use flip_de_flock.FlockDb.Types.{Extras, confirmed, possible}

-- The tells that name Flock or Axon themselves.
abbrev pub IsStrong : FlockBleTell → Type 0
IsStrong t = (t ≡ tell_mfg_id) ⊎ ((t ≡ tell_raven_gatt) ⊎ (t ≡ tell_naming))

-- The tell explains the rung: a device is confirmed exactly if the tell is a manufacturer id, the
-- Raven service or Flock's own naming, and is "possible" in every other case, also when its
-- address has a prefix of a vendor table.
pub tell_explains_confidence :
    (ex : Extras) (company : ℕ) (name : Option Bytes) (raven : Bool) (addr : Option Mac)
    → ((flock_ble_confidence company name raven ≡ confirmed)
        ↔ IsStrong (flock_ble_tell ex company name raven addr))
      × ((flock_ble_confidence company name raven ≡ confirmed)
          ⊎ (flock_ble_confidence company name raven ≡ possible))
unfolding flock_ble_confidence flock_ble_tell
tell_explains_confidence ex company name raven addr =
    (((λ e. ground arith), (λ e. ground arith)), ground arith)

-- A Raven is reported exactly when its service was seen, and a Falcon never.
pub model_raven_iff :
    (serial name : Option Bytes) (raven : Bool)
    → ((flock_ble_model_ex serial name raven ≡ model_raven) ↔ (raven ≡ true))
      × (flock_ble_model_ex serial name raven ≢ model_falcon)
unfolding flock_ble_model_ex
model_raven_iff serial name raven =
    (((λ e. ground arith), (λ e. ground arith)), (λ e. ground arith))
