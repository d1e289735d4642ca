-- ===== src/ReconApp/Companion.antt =====
-- helpers/esp_link.c, `esp_apply_companion` and `esp_parse_generic`: each message is handed to its
-- operation.
use flip_de_flock.Common.{
  Bool, List, [], false, if◌then◌else◌, ltb, not, some, true, ℕ, ◌%◌, ◌&&◌, ◌+◌, ◌==◌, ◌^◌, ◌∷◌,
}
use flip_de_flock.Common.Bytes.{Bytes}
use flip_de_flock.Common.Int.{pos}
use flip_de_flock.EspParser.Line.{esp_parse_companion_line}
use flip_de_flock.EspParser.Message.{
  EspMsg, FlockMsg, SurveyMsg, action, attack, band, banner, ble_begin, ble_dev, ble_end, chip,
  deauth_target, flock, gps_cfg, gps_nmea, ignored, locate, remote_id, sig_revision, sig_test,
  status, survey, wifi_ap, wifi_begin, wifi_end,
}
use flip_de_flock.FlockDb.Types.{Extras}
use flip_de_flock.GpsLink.{gps_apply_nmea}
use flip_de_flock.GpsParser.{GpsFloats}
use flip_de_flock.Marauder.{MarauderHit, MarauderScan, marauder_scan_line}
use flip_de_flock.ReconApp.Ble.{
  BleTable, bytes_of, recon_app_ble_add, recon_app_ble_begin, recon_app_ble_end,
  recon_app_ble_scan_done,
}
use flip_de_flock.ReconApp.Board.{
  Board, Locator, esp_proto_version, note_banner, recon_app_set_band, recon_app_set_chip,
  recon_app_set_esp_sig_revision, recon_app_set_esp_sigtest, recon_app_set_gps_relay,
  recon_app_set_locate_rssi,
}
use flip_de_flock.ReconApp.Link.{set_esp_lines, set_esp_proto, set_esp_status}
use flip_de_flock.ReconApp.Remote.{recon_app_report_remote_id}
use flip_de_flock.ReconApp.Report.{recon_app_report_flock}
use flip_de_flock.ReconApp.Survey.{SurveyEntry, SurveyLine, recon_app_survey_add}
use flip_de_flock.ReconApp.Types.{Clock, FloatOps, LinkState, ReconApp, Sighting, inc_u32}
use flip_de_flock.ReconApp.Wifi.{
  WifiTable, recon_app_wifi_add, recon_app_wifi_begin, recon_app_wifi_end,
}
use flip_de_flock.RemoteId.{OdidFloats}

-- All that a line can change. `lines` and `dropped` are the link's counters, `dropped_lines` is the
-- copy that the application shows.
pub record Session (F : Type 0) : Type 0 where
  pub app : ReconApp F
  pub survey_rows : List SurveyEntry
  pub ble : BleTable F
  pub wifi : WifiTable
  pub board : Board
  pub locator : Locator F
  pub lines : ℕ
  pub dropped : ℕ
  pub dropped_lines : ℕ

-- The floats of the build, the user's signatures, and of the settings: whether the board is the source of
-- positions, and whether it speaks the companion's protocol.
pub record Setup (F : Type 0) : Type 0 where
  pub fo : FloatOps F
  pub gf : GpsFloats F
  pub rid : OdidFloats F
  pub ex : Extras
  pub relays_gps : Bool
  pub companion : Bool

abbrev pub sighting_of : FlockMsg → Sighting
sighting_of m = record {
  mac = m.mac;
  ssid = some m.ssid;
  rssi = m.rssi;
  channel = m.channel;
  ftype = m.ftype;
  confidence = m.conf;
  ie_fp = m.fp;
  dev_class = m.dev_class;
  hidden = m.hidden;
  probe_rate = m.probe_rate;
}

abbrev pub survey_line_of : SurveyMsg → SurveyLine
survey_line_of m = record {
  mac = m.mac;
  fp = m.fp;
  rssi = m.rssi;
  channel = m.channel;
  count = m.count;
  fp2 = m.fp2;
  sig = some m.sig;
}

module _ {F : Type 0} (u : Setup F) where
  abbrev pub with_link : (LinkState → LinkState) → Session F → Session F
  with_link f s = record s { app = record s.app { link = f s.app.link } }

  abbrev pub with_app_ble : BleTable F × ReconApp F → Session F → Session F
  with_app_ble (table, app) s = record s { ble = table; app = app }

  abbrev pub with_app_wifi : WifiTable × ReconApp F → Session F → Session F
  with_app_wifi (table, app) s = record s { wifi = table; app = app }

  abbrev pub with_app_survey : List SurveyEntry × ReconApp F → Session F → Session F
  with_app_survey (rows, app) s = record s { survey_rows = rows; app = app }

  unfoldable pub esp_apply_companion : Clock → EspMsg → Session F → Session F
  esp_apply_companion t (banner version build) s =
      with_link
        (λ l.
          set_esp_proto version (not (version == 0) && not (version == esp_proto_version))
            (set_esp_status 0 0 0 true t.tick l))
        (record s { board = note_banner build s.board })
  esp_apply_companion t wifi_begin s = with_app_wifi (recon_app_wifi_begin (s.wifi, s.app)) s
  esp_apply_companion t wifi_end s = record s { wifi = recon_app_wifi_end s.wifi }
  esp_apply_companion t (wifi_ap m) s = record s { wifi = recon_app_wifi_add m s.wifi }
  esp_apply_companion t ble_begin s = with_app_ble (recon_app_ble_begin (s.ble, s.app)) s
  esp_apply_companion t ble_end s = record s {
    ble = recon_app_ble_end (recon_app_ble_scan_done s.ble);
  }
  esp_apply_companion t (ble_dev m) s =
      with_app_ble (recon_app_ble_add u.fo u.gf u.ex t m (s.ble, s.app)) s
  esp_apply_companion t (flock m) s = record s {
    app = recon_app_report_flock u.fo t (sighting_of m) s.app;
  }
  esp_apply_companion t (deauth_target mac n) s = s
  esp_apply_companion t (attack kind n) s = s
  esp_apply_companion t (survey m) s =
      with_app_survey (recon_app_survey_add u.fo u.ex t (survey_line_of m) (s.survey_rows, s.app)) s
  esp_apply_companion t (remote_id addr rssi payload) s = record s {
    app = recon_app_report_remote_id u.fo u.rid t addr rssi payload s.app;
  }
  esp_apply_companion t (locate rssi) s =
      with_link (λ l. record l { connected = true })
        (record s { locator = recon_app_set_locate_rssi u.gf t.tick rssi s.locator })
  esp_apply_companion t (action kind what result) s = s
  esp_apply_companion t (gps_nmea line) s =
      if u.relays_gps
      then record s { app = record s.app { gps = gps_apply_nmea u.gf t.tick line s.app.gps } }
      else s
  esp_apply_companion t (chip target gpios pins wide) s = record s {
    board = recon_app_set_chip target gpios pins wide s.board;
  }
  esp_apply_companion t (band sel channels) s = record s {
    board = recon_app_set_band sel channels s.board;
  }
  esp_apply_companion t (sig_revision text) s = record s {
    board = recon_app_set_esp_sig_revision text s.board;
  }
  esp_apply_companion t (sig_test signature hash pass) s = record s {
    board = recon_app_set_esp_sigtest hash pass s.board;
  }
  esp_apply_companion t (gps_cfg on pin baud) s = record s {
    board = recon_app_set_gps_relay on pin baud s.board;
  }
  esp_apply_companion t (status m) s =
      with_link (set_esp_status m.frames m.hits m.channel true t.tick) s
  esp_apply_companion t ignored s = s

  unfoldable pub esp_parse_companion : Clock → Bytes → Session F → Session F
  esp_parse_companion t line s = esp_apply_companion t (esp_parse_companion_line u.ex line) s

  abbrev pub scraped_sighting : MarauderScan → MarauderHit → Sighting
  scraped_sighting scan h = record {
    mac = h.mac;
    ssid = some (bytes_of scan.ssid);
    rssi = pos 0;
    channel = 0;
    ftype = b'O';
    confidence = h.conf;
    ie_fp = 0;
    dev_class = h.dev_class;
    hidden = false;
    probe_rate = 0;
  }

  unfoldable pub report_hits : Clock → MarauderScan → List MarauderHit → ReconApp F → ReconApp F
  report_hits t scan [] app = app
  report_hits t scan (h ∷ hs) app =
      report_hits t scan hs (recon_app_report_flock u.fo t (scraped_sighting scan h) app)

  unfoldable pub esp_parse_generic : Clock → Bytes → Session F → Session F
  esp_parse_generic t line s =
      let scan = marauder_scan_line u.ex (some line) in
      let dropped = (s.dropped + scan.dropped) % 2 ^ 32 in
      let reported : Session F = record s { app = report_hits t scan scan.hits s.app } in
      if ltb 0 scan.dropped
      then record reported { dropped = dropped; dropped_lines = dropped }
      else reported

  -- What the worker does with a line that it has completed.
  unfoldable pub esp_line_done : Clock → Bytes → Session F → Session F
  esp_line_done t line s =
      let lines = inc_u32 s.lines in
      let counted = with_link (set_esp_lines lines t.tick) (record s { lines = lines }) in
      if u.companion then esp_parse_companion t line counted else esp_parse_generic t line counted
