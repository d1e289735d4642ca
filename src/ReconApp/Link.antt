-- ===== src/ReconApp/Link.antt =====
-- The state of the companion link and of the GPS fix: `recon_app_set_esp_status`,
-- `recon_app_set_esp_lines`, `recon_app_set_esp_proto`, `recon_app_liveness_tick`, and the alert
-- that the GUI tick delivers, `recon_app_alert_tick`. Notifications are results.
use flip_de_flock.Common.{Bool, false, if◌then◌else◌, leb, ltb, not, true, ℕ, ◌&&◌, ◌==◌}
use flip_de_flock.Common.Int.{negsuc}
use flip_de_flock.DetectRules.{esp_frames_rate, sub_u32}
use flip_de_flock.ReconApp.Types.{GpsState, LinkState, ReconApp, inc_u32}

abbrev is_set : ℕ → Bool
is_set n = not (n == 0)

-- What a line from the companion proves.
abbrev pub heard : Bool → ℕ → LinkState → LinkState
heard false now l = record l { connected = false }
heard true now l = record l { connected = true; rx_tick = now; lost = false }

-- The bases of the session counters, after a new total.
unfoldable pub rebase_link : ℕ → ℕ → LinkState → LinkState
rebase_link frames hits l =
    if l.rebase then record l { frames_base = frames; hits_base = hits; rebase = false } else l

unfoldable pub note_reboot : ℕ → LinkState → LinkState
note_reboot frames l =
    if ltb frames l.frames_base
    then record l {
      reboots = inc_u32 l.reboots;
      frames_prev = 0;
      rate_tick = 0;
      frame_rate = negsuc 0;
      frames_base = frames;
    }
    else l

unfoldable pub session_counts : ℕ → ℕ → ℕ → LinkState → LinkState
session_counts frames hits channel l =
    let base = if ltb hits l.hits_base then hits else l.hits_base in
    record l {
      hits_base = base;
      frames = sub_u32 frames l.frames_base;
      hits = sub_u32 hits base;
      channel = channel;
    }

unfoldable pub sample_rate : ℕ → ℕ → LinkState → LinkState
sample_rate frames now l =
    if is_set l.rate_tick
    then if leb 500 (sub_u32 now l.rate_tick)
      then record l {
        frame_rate = esp_frames_rate l.frames_prev frames (sub_u32 now l.rate_tick);
        frames_prev = frames;
        rate_tick = now;
      }
      else l
    else record l { frames_prev = frames; rate_tick = now }

abbrev pub is_keepalive : ℕ → ℕ → ℕ → Bool
is_keepalive frames hits channel = frames == 0 && (hits == 0 && channel == 0)

unfoldable pub set_esp_status : ℕ → ℕ → ℕ → Bool → ℕ → LinkState → LinkState
set_esp_status frames hits channel connected now l =
    let l' = heard connected now l in
    if is_keepalive frames hits channel
    then l'
    else sample_rate frames now
        (session_counts frames hits channel (note_reboot frames (rebase_link frames hits l')))

unfoldable pub set_esp_lines : ℕ → ℕ → LinkState → LinkState
set_esp_lines lines now l = record l {
  lines = lines;
  connected = true;
  rx_tick = now;
  lost = false;
}

unfoldable pub set_esp_proto : ℕ → Bool → LinkState → LinkState
set_esp_proto version mismatch l = record l { proto_version = version; proto_mismatch = mismatch }

abbrev pub esp_silent_ms : ℕ
esp_silent_ms = 5000

abbrev pub gps_stale_ms : ℕ
gps_stale_ms = 5000

unfoldable pub link_is_silent : ℕ → LinkState → Bool
link_is_silent now l =
    l.present && (l.connected && (is_set l.rx_tick && leb esp_silent_ms (sub_u32 now l.rx_tick)))

-- The link after the tick, and `lost_now`.
unfoldable pub link_tick : ℕ → LinkState → LinkState × Bool
link_tick now l =
    if link_is_silent now l
    then (record l { connected = false; lost = true; frame_rate = negsuc 0; rate_tick = 0 }, true)
    else (l, false)

unfoldable pub gps_tick : {F : Type 0} → ℕ → GpsState F → GpsState F
gps_tick now g =
    if g.valid && (is_set g.fix_tick && leb gps_stale_ms (sub_u32 now g.fix_tick))
    then record g { valid = false; sats = 0 }
    else g

-- The new state, and whether the motor pulses once.
unfoldable pub recon_app_liveness_tick : {F : Type 0} → ℕ → ReconApp F → ReconApp F × Bool
recon_app_liveness_tick now app =
    let (l, lost_now) = link_tick now app.link in
    (record app { link = l; gps = gps_tick now app.gps }, lost_now)

-- The new state, and whether the alert is delivered.
unfoldable pub recon_app_alert_tick : {F : Type 0} → ReconApp F → ReconApp F × Bool
recon_app_alert_tick app = (
  record app {
    alert = record app.alert {
      pending = false;
      fired = if app.alert.pending then inc_u32 app.alert.fired else app.alert.fired;
    };
  },
  app.alert.pending,
)
