-- ===== src/Preflight.antt =====
-- helpers/preflight.c: the health verdict before a field session.
pub mod Verdict
use flip_de_flock.Common.{
  Bool, Option, [], false, if◌then◌else◌, ltb, none, not, some, true, ℕ, ◌&&◌, ◌==◌, ◌||◌, ◌∷◌,
}
use flip_de_flock.Common.Bytes.{Bytes, bytes_eq, codes, has_byte, is_empty}

pub data ReconPreflightState : Type 0 where
  waiting ready limited failed : ReconPreflightState

pub record ReconPreflightInput : Type 0 where
  pub companion_backend : Bool
  pub link_running : Bool
  pub link_busy : Bool
  pub connected : Bool
  pub protocol_seen : Bool
  pub protocol_match : Bool
  pub signature_seen : Bool
  pub signature_match : Bool
  pub sigtest_seen : Bool
  pub sigtest_pass : Bool
  pub frames : ℕ
  pub elapsed_ms : ℕ

abbrev pub recon_preflight_grace_ms : ℕ
recon_preflight_grace_ms = 8000

abbrev pub in_grace : ReconPreflightInput → Bool
in_grace i = ltb i.elapsed_ms recon_preflight_grace_ms

-- The branch for a backend that is not the companion.
unfoldable pub scraper_verdict : ReconPreflightInput → ReconPreflightState
scraper_verdict i =
    if i.link_running && i.connected then limited else if in_grace i then waiting else failed

-- The answers that contradict the app.
abbrev pub contradicted : ReconPreflightInput → Bool
contradicted i =
    (i.protocol_seen && not i.protocol_match)
    || ((i.signature_seen && not i.signature_match) || (i.sigtest_seen && not i.sigtest_pass))

abbrev pub capturing : ReconPreflightInput → Bool
capturing i =
    i.link_running && (i.connected && (i.protocol_seen && (i.protocol_match && ltb 0 i.frames)))

abbrev pub signatures_proved : ReconPreflightInput → Bool
signatures_proved i = i.signature_seen && (i.signature_match && (i.sigtest_seen && i.sigtest_pass))

unfoldable pub companion_verdict : ReconPreflightInput → ReconPreflightState
companion_verdict i =
    if contradicted i
    then failed
    else if capturing i && signatures_proved i
    then ready
    else if in_grace i
    then waiting
    else if capturing i
    then limited
    else failed

unfoldable pub recon_preflight_evaluate : Option ReconPreflightInput → ReconPreflightState
recon_preflight_evaluate none = failed
recon_preflight_evaluate (some i) =
    if i.link_busy
    then failed
    else if not i.companion_backend
    then scraper_verdict i
    else companion_verdict i

pub recon_preflight_state_label : ReconPreflightState → Bytes
recon_preflight_state_label ready = codes "READY"
recon_preflight_state_label limited = codes "LIMITED"
recon_preflight_state_label failed = codes "FAILED"
recon_preflight_state_label waiting = codes "CHECKING"

-- `pf_ver_digits`: a leading v or V is passed over.
unfoldable pub pf_ver_digits : Option Bytes → Bytes
pf_ver_digits none = []
pf_ver_digits (some []) = []
pf_ver_digits (some (c ∷ s)) = if c == b'v' || c == b'V' then s else c ∷ s

unfoldable pub recon_companion_build_matches : Option Bytes → Option Bytes → Bool
recon_companion_build_matches esp_build app_version =
    let a = pf_ver_digits esp_build in
    let b = pf_ver_digits app_version in
    if is_empty b || has_byte b b'?' then true else if is_empty a then false else bytes_eq a b
