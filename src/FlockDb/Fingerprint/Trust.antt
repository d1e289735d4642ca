-- ===== src/FlockDb/Fingerprint/Trust.antt =====
-- How far a fingerprint can be trusted.
use flip_de_flock.Common.{Option, arith, true, ℕ, ◌≡◌, ◌≢◌, ◌⊎◌}
use flip_de_flock.Common.Mac.{Mac}
use flip_de_flock.Common.Search.{any_of}
use flip_de_flock.FlockDb.Fingerprint.{
  flock_ie_fp_confidence, flock_ie_fp_is_generic, flock_ie_fp_match, holds_seeded,
}
use flip_de_flock.FlockDb.Types.{Extras, builtin, conf_none, fp_none, probe_fp}

-- A hash on the generic list is no fingerprint at any tier, the user's own file included.
pub generic_never_matches :
    (ex : Extras) (fp : ℕ) → flock_ie_fp_is_generic fp ≡ true → flock_ie_fp_match ex fp ≡ fp_none
unfolding flock_ie_fp_match
generic_never_matches ex fp h = ground arith

-- As the verified table is shipped, no fingerprint confirms a camera, whatever the address and
-- whatever the user added: the answer is "Class?" or nothing.
pub fp_never_confirms :
    (ex : Extras) (fp : ℕ) (mac : Option Mac)
    → (flock_ie_fp_confidence ex fp mac ≡ probe_fp) ⊎ (flock_ie_fp_confidence ex fp mac ≡ conf_none)
unfolding flock_ie_fp_confidence flock_ie_fp_match holds_seeded any_of
fp_never_confirms ex fp mac = ground arith

-- No fingerprint is `builtin`, since the verified table holds its sentinel alone.
pub match-ne-builtin : (ex : Extras) (fp : ℕ) → flock_ie_fp_match ex fp ≢ builtin
unfolding flock_ie_fp_match holds_seeded any_of
match-ne-builtin ex fp = ground arith
