-- ===== src/Tests/Table.antt =====
-- Sightings, purges and links of one session.
use flip_de_flock.Common.{
  List, Option, [], arith, false, get_elem?, inl, inr, length, none, refl, some, sym, true, ℕ, ◌&&◌,
  ◌+◌, ◌∷◌, ◌≡◌, ◌≢◌, ◌⊎◌,
}
use flip_de_flock.Common.Bytes.{codes}
use flip_de_flock.Common.Int.{negsuc, pos, pos_part}
use flip_de_flock.Common.Mac.{Mac}
use flip_de_flock.Common.Search.{All, any_of}
use flip_de_flock.DetectRules.{
  flock_alert_min_conf_rung, flock_is_excluded, fp_excluded, mac_excluded,
}
use flip_de_flock.FlockDb.Types.{acoustic, alpr, confirmed, likely, possible}
use flip_de_flock.ReconApp.Alerts.{Raised, report_alert}
use flip_de_flock.ReconApp.Counters.{WentSilent, loss_pulses_once, status_adds_up}
use flip_de_flock.ReconApp.Diagnostics.{Balanced, report-Balanced}
use flip_de_flock.ReconApp.Drone.{channel_never_set, update_all}
use flip_de_flock.ReconApp.Gates.{
  OnlyCounted, SeenNow, accepted_is_stored, live_rows_stay, rejected-OnlyCounted, report-Wf,
}
use flip_de_flock.ReconApp.Link.{recon_app_liveness_tick, set_esp_status}
use flip_de_flock.ReconApp.Once.{
  SessionEvent, alert_delivered, broadcast_heard, links_checked, never_again, session_run,
  sighting_heard,
}
use flip_de_flock.ReconApp.Purge.{is_gone, purge_keeps, recon_app_purge_excluded, rows_kept}
use flip_de_flock.ReconApp.Remote.{recon_app_report_remote_id, remote_entry, update_remote}
use flip_de_flock.ReconApp.Report.{recon_app_report_flock, victim_from}
use flip_de_flock.ReconApp.Table.{Wf}
use flip_de_flock.ReconApp.Types.{Clock, FloatOps, FlockEntry, ReconApp, Sighting}
use flip_de_flock.ReconApp.Victim.{NotAfter, victim_is_weakest}
use flip_de_flock.RemoteId.{OdidFloats, odid_report_init}

abbrev pub floats : FloatOps (Option ℕ)
floats = record { nan = none; isnan = λ x. elim x [ none ↦ true | some n ↦ false ] }

abbrev pub mac_a : Mac
mac_a = record { b0 = 0x70; b1 = 0xc9; b2 = 0x4e; b3 = 1; b4 = 2; b5 = 3 }

abbrev pub mac_b : Mac
mac_b = record { b0 = 0xd4; b1 = 0x11; b2 = 0xd6; b3 = 9; b4 = 9; b5 = 9 }

-- A live row at the top rung.
abbrev pub row_a : FlockEntry (Option ℕ)
row_a = record {
  mac = mac_a;
  ssid = codes "Flock-a1b2c3";
  rssi = negsuc 60;
  channel = 6;
  ftype = b'R';
  confidence = confirmed;
  dev_class = alpr;
  hidden = false;
  probe_rate = 0;
  ble_tell = 0;
  geotag_rssi = pos 0;
  chan_rssi = negsuc 60;
  marked = false;
  seen_by_operator = false;
  label = [];
  alerted = true;
  archived = false;
  ie_fp = 0;
  lat = none;
  lon = none;
  heading = none;
  count = 3;
  first_tick = 100;
  last_tick = 900;
  seen_epoch = 1700000000;
  op_lat = none;
  op_lon = none;
  ua_type = 0;
  pos_broadcast = false;
}

-- A row from the card.
abbrev pub row_b : FlockEntry (Option ℕ)
row_b = record row_a { mac = mac_b; confidence = possible; archived = true; ie_fp = 77 }

abbrev pub session : ReconApp (Option ℕ)
session = record {
  flock = row_a ∷ row_b ∷ [];
  selected = pos 0;
  hits_dirty = false;
  ignore_macs = [];
  ignore_fps = 77 ∷ [];
  alert = record {
    min_conf_choice = 1;
    pending = false;
    last_tick = 900;
    have_fired = true;
    card_mac = mac_a;
    card_tick = 900;
    fired = 1;
  };
  gps = record {
    valid = true;
    lat = some 52;
    lon = some 13;
    course = none;
    sats = 7;
    fix_tick = 800;
  };
  link = record {
    present = true;
    connected = true;
    lost = false;
    rx_tick = 900;
    frames = 10;
    hits = 1;
    frames_base = 5;
    hits_base = 0;
    rebase = false;
    channel = 6;
    lines = 4;
    frame_rate = pos 2;
    frames_prev = 15;
    rate_tick = 900;
    reboots = 0;
    proto_version = 1;
    proto_mismatch = false;
  };
  diag = record { flock_msgs = 3; accepted = 3; rej_conf = 0; rej_full = 0; rej_ignored = 0 };
}

macs_differ : mac_b ≢ mac_a
macs_differ e = ground (arith, e)

session-Wf : Wf session
session-Wf = record { fits = omega arith; one_each = ((macs_differ, tt), (tt, tt)) }

abbrev pub sighting_b : Sighting
sighting_b = record {
  mac = mac_b;
  ssid = some (codes "Penguin-7");
  rssi = negsuc 50;
  channel = 11;
  ftype = b'L';
  confidence = likely;
  ie_fp = 0;
  dev_class = acoustic;
  hidden = false;
  probe_rate = 0;
}

abbrev pub sighting_a : Sighting
sighting_a = record sighting_b { mac = mac_a }

abbrev pub later : Clock
later = record { tick = 9000; epoch = 1700000009 }

live_rows_stay_example :
    get_elem? (recon_app_report_flock floats later sighting_b session).flock 0 ≡ some row_a
live_rows_stay_example =
    live_rows_stay floats later sighting_b session 0 row_a session-Wf refl
      (λ e. macs_differ (sym e)) refl

accepted_is_stored_example :
    (((recon_app_report_flock floats later sighting_b session).flock ≡ session.flock)
      × (length session.flock ≡ 64)
      × All (λ e. e.archived ≡ false) session.flock)
    ⊎ SeenNow later sighting_b (recon_app_report_flock floats later sighting_b session).flock
unfolding flock_is_excluded mac_excluded fp_excluded any_of
accepted_is_stored_example =
    accepted_is_stored floats later sighting_b session session-Wf ((λ e. cc), refl)

report-Wf_example : Wf (recon_app_report_flock floats later sighting_b session)
report-Wf_example = report-Wf floats later sighting_b session session-Wf

report_alert_example :
    ((recon_app_report_flock floats later sighting_b session).alert ≡ session.alert)
    ⊎ Raised later sighting_b session (recon_app_report_flock floats later sighting_b session)
report_alert_example = report_alert floats later sighting_b session session-Wf

abbrev excluded_sighting : Sighting
excluded_sighting = record sighting_b { ie_fp = 77; confidence = confirmed }

rejected-OnlyCounted_example :
    OnlyCounted session (recon_app_report_flock floats later excluded_sighting session)
unfolding flock_is_excluded mac_excluded fp_excluded any_of
rejected-OnlyCounted_example =
    rejected-OnlyCounted floats later excluded_sighting session
      (inr (inr ((λ e. ground arith), inl refl)))

purge_keeps_example :
    ((recon_app_purge_excluded session).0.flock
      ≡ rows_kept (is_gone session.ignore_macs session.ignore_fps) session.flock)
    × ((recon_app_purge_excluded session).1 + length (recon_app_purge_excluded session).0.flock
        ≡ length session.flock)
purge_keeps_example = purge_keeps session

victim_is_weakest_example :
    ((victim_from 0 none session.flock ≡ none) × All (λ e. e.archived ≡ false) session.flock)
    ⊎ ((v : ℕ) × (w : FlockEntry (Option ℕ)) × (victim_from 0 none session.flock ≡ some (v, w))
        × (get_elem? session.flock v ≡ some w)
        × (w.archived ≡ true)
        × All (λ e. (e.archived ≡ false) ⊎ NotAfter w e) session.flock)
victim_is_weakest_example = victim_is_weakest session.flock

status_adds_up_example :
    ((set_esp_status 3 1 6 true 2000 session.link).frames
        + (set_esp_status 3 1 6 true 2000 session.link).frames_base
      ≡ 3)
    × ((set_esp_status 3 1 6 true 2000 session.link).hits
          + (set_esp_status 3 1 6 true 2000 session.link).hits_base
        ≡ 1)
status_adds_up_example =
    status_adds_up 3 1 6 true 2000 session.link (omega arith) (omega arith) (omega arith)

loss_pulses_once_example :
    ((WentSilent 6000 session.link
        × ((recon_app_liveness_tick 6000 session).1 ≡ true)
        × ((recon_app_liveness_tick 6000 session).0.link.connected ≡ false)
        × ((recon_app_liveness_tick 6000 session).0.link.lost ≡ true))
      ⊎ ((¬ WentSilent 6000 session.link)
          × ((recon_app_liveness_tick 6000 session).1 ≡ false)
          × ((recon_app_liveness_tick 6000 session).0.link ≡ session.link)))
    × (((recon_app_liveness_tick 6000 session).1
          && (recon_app_liveness_tick 7000 (recon_app_liveness_tick 6000 session).0).1)
        ≡ false)
loss_pulses_once_example = loss_pulses_once 6000 7000 session

report-Balanced_example : Balanced (recon_app_report_flock floats later sighting_b session).diag
report-Balanced_example = report-Balanced floats later sighting_b session refl

-- Degrees, speeds and altitudes as numbers, for the tests.
abbrev odid_floats : OdidFloats (Option ℕ)
odid_floats = record {
  nan = none;
  of_ℕ = λ n. some n;
  degrees = λ x. some (pos_part x);
  lat_off = λ x. false;
  lon_off = λ x. false;
  add_180 = λ x. x;
  speed_low = λ x. x;
  speed_high = λ x. x;
  altitude = λ x. x;
}

abbrev events : List SessionEvent
events =
    sighting_heard later sighting_b
    ∷ broadcast_heard later mac_b (negsuc 60) []
    ∷ links_checked 9000
    ∷ alert_delivered
    ∷ []

never_again_example :
    let now = session_run floats odid_floats events session in
    ((recon_app_report_flock floats later sighting_a now).alert ≡ now.alert)
    × ((recon_app_report_remote_id floats odid_floats later mac_a (negsuc 60) [] now).alert
        ≡ now.alert)
unfolding flock_alert_min_conf_rung
never_again_example =
    never_again floats odid_floats events later sighting_a (negsuc 60) [] session session-Wf
      (0, row_a, refl, refl, refl, omega arith)

abbrev drone_mac : Mac
drone_mac = record { b0 = 0x60; b1 = 0x60; b2 = 0x1f; b3 = 4; b4 = 5; b5 = 6 }

channel_never_set_example :
    (update_all floats session.gps ((later, sighting_b) ∷ (later, sighting_b) ∷ []) (
      update_remote floats later
        (negsuc 60)
        (odid_report_init odid_floats)
        (remote_entry floats drone_mac 8000))).channel
    ≡ 0
channel_never_set_example =
    channel_never_set floats session.gps later drone_mac (negsuc 60) (odid_report_init odid_floats)
      8000 ((later, sighting_b) ∷ (later, sighting_b) ∷ []) (refl, (refl, tt))
