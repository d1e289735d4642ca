-- ===== src/FlockDb/Fingerprint.antt =====
-- Probe fingerprints and pinned addresses.
pub mod Trust
use flip_de_flock.Common.{
  Bool, List, Option, [], false, if◌then◌else◌, none, not, some, ℕ, ◌&&◌, ◌==◌, ◌∷◌,
}
use flip_de_flock.Common.Mac.{Mac, mac_eq}
use flip_de_flock.Common.Search.{any_of}
use flip_de_flock.FlockDb.Types.{
  Extras, FlockConfidence, FlockIeFp, builtin, candidate, conf_none, confirmed, fp_none, probe_fp,
  user,
}
use flip_de_flock.FlockDb.Vendor.{flock_oui_match}

abbrev pub flock_ie_fps : List ℕ
flock_ie_fps = 0 ∷ []

abbrev pub flock_ie_fps_candidate : List ℕ
flock_ie_fps_candidate = 0x42D75CD1 ∷ 0xD0BBEC4C ∷ []

abbrev pub flock_ie_fps_generic : List ℕ
flock_ie_fps_generic =
    0x96FCD1B2 ∷ 0x173D7A70 ∷ 0x7C923B53 ∷ 0x89C3DEBF ∷ 0xC59C341F ∷ 0xBA9FAFA0 ∷ []

unfoldable pub holds : List ℕ → ℕ → Bool
holds xs fp = any_of (λ x. x == fp) xs

unfoldable pub flock_ie_fp_is_generic : ℕ → Bool
flock_ie_fp_is_generic fp = if fp == 0 then false else holds flock_ie_fps_generic fp

-- The loop over the verified table skips the sentinel 0.
unfoldable pub holds_seeded : List ℕ → ℕ → Bool
holds_seeded xs fp = any_of (λ x. not (x == 0) && x == fp) xs

unfoldable pub flock_ie_fp_match : Extras → ℕ → FlockIeFp
flock_ie_fp_match ex fp =
    if fp == 0
    then fp_none
    else if flock_ie_fp_is_generic fp
    then fp_none
    else if holds_seeded flock_ie_fps fp
    then builtin
    else if holds flock_ie_fps_candidate fp
    then candidate
    else elim ex [ none ↦ fp_none | some x ↦ if holds x.ie_fps fp then user else fp_none ]

unfoldable pub flock_user_mac_match : Extras → Option Mac → Bool
flock_user_mac_match ex none = false
flock_user_mac_match none (some m) = false
flock_user_mac_match (some x) (some m) = elim x.macs [
  | none ↦ false
  | some ms ↦ any_of (λ p. mac_eq p m) ms
]

unfoldable pub flock_mac_pin_confidence : Extras → Option Mac → FlockConfidence
flock_mac_pin_confidence ex mac = if flock_user_mac_match ex mac then probe_fp else conf_none

unfoldable pub flock_ie_fp_confidence : Extras → ℕ → Option Mac → FlockConfidence
flock_ie_fp_confidence ex fp mac = elim (flock_ie_fp_match ex fp) [
  | builtin ↦ if flock_oui_match ex mac then confirmed else probe_fp
  | candidate ↦ probe_fp
  | user ↦ probe_fp
  | fp_none ↦ conf_none
]
