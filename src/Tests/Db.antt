-- ===== src/Tests/Db.antt =====
-- The signature database, the decision rules and the other helpers that rank devices.
use flip_de_flock.Common.{
  List, [], arith, false, none, refl, some, true, ℕ, ◌↔◌, ◌∷◌, ◌≡◌, ◌≤◌, ◌⊎◌,
}
use flip_de_flock.Common.Bytes.{codes}
use flip_de_flock.Common.Mac.{Mac}
use flip_de_flock.FlockBle.{
  all_alnum, any_digit, ascii_upper, flock_ble_confidence, flock_ble_extract_serial, flock_ble_tell,
  prefix_upper, serial_of_name,
}
use flip_de_flock.FlockBle.Evidence.{IsStrong, tell_explains_confidence}
use flip_de_flock.FlockBle.Serial.{IsPlausible, extract_serial-IsPlausible}
use flip_de_flock.FlockDb.Ssid.{
  ascii_lower, ci_contains, contains_from, flock_ssid_confidence, hex_to_end,
  is_flock_provisioning_ssid, matches_here, strip_flock,
}
use flip_de_flock.FlockDb.Ssid.Needles.{ssid_capped}
use flip_de_flock.FlockDb.Ssid.Shape.{IsProvisioning, IsProvisioning-iff, Occurs, ci_contains_iff}
use flip_de_flock.FlockDb.Types.{confirmed, likely, possible, rung}
use flip_de_flock.Preflight.{ReconPreflightInput, ready, recon_preflight_evaluate}
use flip_de_flock.Preflight.Verdict.{Proved, ready_iff}
use flip_de_flock.SurveyRank.{Evidence, SurveyRanked, sort_from}
use flip_de_flock.SurveyRank.Sort.{Descending, sort_stable, with_score}

abbrev camera : Mac
camera = record { b0 = 0x70; b1 = 0xc9; b2 = 0x4e; b3 = 1; b4 = 2; b5 = 3 }

IsProvisioning-iff_example :
    (is_flock_provisioning_ssid (codes "Flock-a1b2c3") ≡ true)
    ↔ IsProvisioning (codes "Flock-a1b2c3")
IsProvisioning-iff_example = IsProvisioning-iff (codes "Flock-a1b2c3")

not-IsProvisioning : ¬ IsProvisioning (codes "Flock-Guest")
unfolding is_flock_provisioning_ssid hex_to_end strip_flock ascii_lower
not-IsProvisioning p = ground (arith, (IsProvisioning-iff (codes "Flock-Guest")).1 p)

not_development : ¬ Occurs (codes "test_flck") (codes "Flock-Guest")
unfolding ci_contains contains_from matches_here ascii_lower
not_development o =
    ground (arith, (ci_contains_iff (codes "Flock-Guest") (codes "test_flck")).1 ((λ e. cc), o))

ssid_capped_example : rung (flock_ssid_confidence none (some (codes "Flock-Guest"))) ≤ rung likely
ssid_capped_example = ssid_capped (codes "Flock-Guest") not-IsProvisioning not_development

abbrev plain_evidence : Evidence
plain_evidence = record {
  local_admin = false;
  persistent = false;
  close = false;
  rotating = false;
  is_generic = false;
}

abbrev scored : List SurveyRanked
scored =
    record { index = 0; score = 10; evidence = plain_evidence }
    ∷ record { index = 1; score = 30; evidence = plain_evidence }
    ∷ record { index = 2; score = 10; evidence = plain_evidence }
    ∷ []

sort_stable_example :
    Descending (sort_from [] scored)
    × ((s : ℕ) → with_score s (sort_from [] scored) ≡ with_score s scored)
sort_stable_example = sort_stable scored

tell_explains_confidence_example :
    ((flock_ble_confidence 0x09c8 (some (codes "Penguin-1234567890")) false ≡ confirmed)
      ↔ IsStrong
          (flock_ble_tell none 0x09c8 (some (codes "Penguin-1234567890")) false (some camera)))
    × ((flock_ble_confidence 0x09c8 (some (codes "Penguin-1234567890")) false ≡ confirmed)
        ⊎ (flock_ble_confidence 0x09c8 (some (codes "Penguin-1234567890")) false ≡ possible))
tell_explains_confidence_example =
    tell_explains_confidence none 0x09c8 (some (codes "Penguin-1234567890")) false (some camera)

extract_serial-IsPlausible_example : IsPlausible 16 (codes "TN72023022")
unfolding flock_ble_extract_serial serial_of_name all_alnum prefix_upper ascii_upper any_digit
extract_serial-IsPlausible_example =
    extract_serial-IsPlausible none (some (codes "Penguin-TN72023022")) 16 (omega arith) refl

abbrev all_well : ReconPreflightInput
all_well = record {
  companion_backend = true;
  link_running = true;
  link_busy = false;
  connected = true;
  protocol_seen = true;
  protocol_match = true;
  signature_seen = true;
  signature_match = true;
  sigtest_seen = true;
  sigtest_pass = true;
  frames = 12;
  elapsed_ms = 900;
}

ready_iff_example : (recon_preflight_evaluate (some all_well) ≡ ready) ↔ Proved all_well
ready_iff_example = ready_iff all_well
