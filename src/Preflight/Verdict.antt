-- ===== src/Preflight/Verdict.antt =====
-- What each verdict proves.
use flip_de_flock.Common.{Option, [], arith, false, some, true, ℕ, ◌<◌, ◌↔◌, ◌≡◌, ◌≢◌, ◌≤◌}
use flip_de_flock.Common.Bytes.{Bytes, bytes_eq_iff, has_byte}
use flip_de_flock.Preflight.{
  ReconPreflightInput, companion_verdict, pf_ver_digits, ready, recon_companion_build_matches,
  recon_preflight_evaluate, recon_preflight_grace_ms, scraper_verdict, waiting,
}

-- Every layer of the companion has answered, and answered well.
pub record Proved (i : ReconPreflightInput) : Type 0 where
  pub is_companion : i.companion_backend ≡ true
  pub not_busy : i.link_busy ≡ false
  pub running : i.link_running ≡ true
  pub is_connected : i.connected ≡ true
  pub protocol : (i.protocol_seen ≡ true) × (i.protocol_match ≡ true)
  pub signature : (i.signature_seen ≡ true) × (i.signature_match ≡ true)
  pub sigtest : (i.sigtest_seen ≡ true) × (i.sigtest_pass ≡ true)
  pub captures : 0 < i.frames

-- READY means exactly that every layer is proved; a board that only scrapes text never gets there,
-- and the time that has passed plays no part.
pub ready_iff : (i : ReconPreflightInput) → (recon_preflight_evaluate (some i) ≡ ready) ↔ Proved i
unfolding recon_preflight_evaluate scraper_verdict companion_verdict
ready_iff i = (
  (λ e. record {
    is_companion = ground arith;
    not_busy = ground arith;
    running = ground arith;
    is_connected = ground arith;
    protocol = ground arith;
    signature = ground arith;
    sigtest = ground arith;
    captures = ground arith;
  }),
  (λ p. ground arith),
)

-- The verdict after more time has passed with nothing else changed: a verdict other than
-- "checking" stands, and after the grace time "checking" is over.
pub verdict_settles :
    (i : ReconPreflightInput) (later : ℕ)
    → i.elapsed_ms ≤ later
    → (recon_preflight_evaluate (some i) ≢ waiting
        → recon_preflight_evaluate (some (record i { elapsed_ms = later }))
          ≡ recon_preflight_evaluate (some i))
      × (recon_preflight_grace_ms ≤ later
          → recon_preflight_evaluate (some (record i { elapsed_ms = later })) ≢ waiting)
unfolding recon_preflight_evaluate scraper_verdict companion_verdict
verdict_settles i later h = ((λ w. ground arith), (λ g e. ground arith))

-- Two builds pair, for an app version that is stamped, exactly if their names are equal after a
-- leading v; a board that names no build does not pair.
pub build_matches_iff :
    (esp app : Option Bytes)
    → pf_ver_digits app ≢ []
    → has_byte (pf_ver_digits app) b'?' ≡ false
    → (recon_companion_build_matches esp app ≡ true) ↔ (pf_ver_digits esp ≡ pf_ver_digits app)
unfolding recon_companion_build_matches
build_matches_iff esp app ne q = (
  (λ e. ground (arith, bytes_eq_iff (pf_ver_digits esp) (pf_ver_digits app))),
  (λ e. ground (arith, bytes_eq_iff (pf_ver_digits esp) (pf_ver_digits app))),
)
