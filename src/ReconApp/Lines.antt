-- ===== src/ReconApp/Lines.antt =====
-- Whatever the board says, every table stays within its array.
use flip_de_flock.Common.{
  Bool, Bool-cases, List, [], arith, false, if◌then◌else◌, inl, inr, length, ltb, refl, some, subst,
  sym, true, ◌∷◌, ◌≡◌, ◌≤◌,
}
use flip_de_flock.Common.Bytes.{Bytes}
use flip_de_flock.EspParser.Line.{esp_parse_companion_line}
use flip_de_flock.EspParser.Message.{
  EspMsg, action, attack, band, banner, ble_begin, ble_dev, ble_end, chip, deauth_target, flock,
  gps_cfg, gps_nmea, ignored, locate, remote_id, sig_revision, sig_test, status, survey, wifi_ap,
  wifi_begin, wifi_end,
}
use flip_de_flock.Marauder.{MarauderHit, MarauderScan, marauder_scan_line}
use flip_de_flock.ReconApp.Ble.{recon_app_ble_begin, recon_app_ble_end, recon_app_ble_scan_done}
use flip_de_flock.ReconApp.Companion.{
  Session, Setup, esp_apply_companion, esp_line_done, esp_parse_companion, esp_parse_generic,
  report_hits, scraped_sighting, sighting_of, survey_line_of, with_link,
}
use flip_de_flock.ReconApp.Drone.{remote-Wf}
use flip_de_flock.ReconApp.Fits.{
  ble_app-Wf, ble_rows-fit, survey_app-Wf, survey_rows-fit, wifi-fits,
}
use flip_de_flock.ReconApp.Gates.{report-Wf}
use flip_de_flock.ReconApp.Link.{set_esp_lines}
use flip_de_flock.ReconApp.Report.{recon_app_report_flock}
use flip_de_flock.ReconApp.Rows.{Distinct}
use flip_de_flock.ReconApp.Table.{Wf}
use flip_de_flock.ReconApp.Types.{Clock, ReconApp, inc_u32}
use flip_de_flock.ReconApp.Wifi.{recon_app_wifi_begin, recon_app_wifi_end}

module _ {F : Type 0} where
  same-Wf : (app app' : ReconApp F) → app'.flock ≡ app.flock → Wf app → Wf app'
  same-Wf app app' e v = record {
    fits = subst (λ l. length l ≤ 64) (sym e) v.fits;
    one_each = subst Distinct (sym e) v.one_each;
  }

  -- The tables of a session fit their arrays, and the hit table has one row for each device.
  pub record AllFit (s : Session F) : Type 0 where
    pub hits : Wf s.app
    pub survey_fits : length s.survey_rows ≤ 48
    pub ble_fits : length s.ble.devices ≤ 8
    pub wifi_fits : length s.wifi.aps ≤ 8

  -- A session whose tables have the rows of another.
  kept :
      (s s' : Session F)
      → AllFit s
      → s'.app.flock ≡ s.app.flock
      → s'.survey_rows ≡ s.survey_rows
      → s'.ble.devices ≡ s.ble.devices
      → s'.wifi.aps ≡ s.wifi.aps
      → AllFit s'
  kept s s' v hits rows devices aps = record {
    hits = same-Wf s.app s'.app hits v.hits;
    survey_fits = rw rows v.survey_fits;
    ble_fits = rw devices v.ble_fits;
    wifi_fits = rw aps v.wifi_fits;
  }

  either-AllFit :
      (b : Bool) (s s' : Session F) → AllFit s → AllFit s' → AllFit (if b then s else s')
  either-AllFit true s s' v w = v
  either-AllFit false s s' v w = w

  module _ (u : Setup F) where
    nmea-AllFit :
        (t : Clock) (line : Bytes) (s : Session F)
        → AllFit s
        → AllFit (esp_apply_companion u t (gps_nmea line) s)
    unfolding esp_apply_companion
    nmea-AllFit t line s v = elim (Bool-cases u.relays_gps) [
      | inl chosen ↦ rw chosen (kept s _ v refl refl refl refl)
      | inr other ↦ rw other v
    ]

    pub apply-AllFit :
        (t : Clock) (m : EspMsg) (s : Session F) → AllFit s → AllFit (esp_apply_companion u t m s)
    unfolding esp_apply_companion recon_app_ble_begin recon_app_ble_end recon_app_ble_scan_done
        recon_app_wifi_begin recon_app_wifi_end
    apply-AllFit t (banner version build) s v = kept s _ v refl refl refl refl
    apply-AllFit t wifi_begin s v = record {
      hits = same-Wf s.app _ refl v.hits;
      survey_fits = v.survey_fits;
      ble_fits = v.ble_fits;
      wifi_fits = omega arith;
    }
    apply-AllFit t wifi_end s v = kept s _ v refl refl refl refl
    apply-AllFit t (wifi_ap m) s v = record {
      hits = v.hits;
      survey_fits = v.survey_fits;
      ble_fits = v.ble_fits;
      wifi_fits = wifi-fits m s.wifi v.wifi_fits;
    }
    apply-AllFit t ble_begin s v = kept s _ v refl refl refl refl
    apply-AllFit t ble_end s v = kept s _ v refl refl refl refl
    apply-AllFit t (ble_dev m) s v = record {
      hits = ble_app-Wf u.fo u.gf u.ex t m s.ble s.app v.hits;
      survey_fits = v.survey_fits;
      ble_fits = ble_rows-fit u.fo u.gf u.ex t m s.ble s.app v.ble_fits;
      wifi_fits = v.wifi_fits;
    }
    apply-AllFit t (flock m) s v = record {
      hits = report-Wf u.fo t (sighting_of m) s.app v.hits;
      survey_fits = v.survey_fits;
      ble_fits = v.ble_fits;
      wifi_fits = v.wifi_fits;
    }
    apply-AllFit t (survey m) s v = record {
      hits = survey_app-Wf u.fo u.ex t (survey_line_of m) s.survey_rows s.app v.hits;
      survey_fits =
          survey_rows-fit u.fo u.ex t (survey_line_of m) s.survey_rows s.app v.survey_fits;
      ble_fits = v.ble_fits;
      wifi_fits = v.wifi_fits;
    }
    apply-AllFit t (remote_id addr rssi payload) s v = record {
      hits = remote-Wf u.fo u.rid t addr rssi payload s.app v.hits;
      survey_fits = v.survey_fits;
      ble_fits = v.ble_fits;
      wifi_fits = v.wifi_fits;
    }
    apply-AllFit t (gps_nmea line) s v = nmea-AllFit t line s v
    apply-AllFit t (locate rssi) s v = kept s _ v refl refl refl refl
    apply-AllFit t (chip target gpios pins wide) s v = kept s _ v refl refl refl refl
    apply-AllFit t (band sel channels) s v = kept s _ v refl refl refl refl
    apply-AllFit t (sig_revision text) s v = kept s _ v refl refl refl refl
    apply-AllFit t (sig_test signature hash pass) s v = kept s _ v refl refl refl refl
    apply-AllFit t (gps_cfg on pin baud) s v = kept s _ v refl refl refl refl
    apply-AllFit t (status m) s v = kept s _ v refl refl refl refl
    apply-AllFit t (deauth_target mac n) s v = v
    apply-AllFit t (attack kind n) s v = v
    apply-AllFit t (action kind what result) s v = v
    apply-AllFit t ignored s v = v

    hits-Wf :
        (t : Clock) (scan : MarauderScan) (hs : List MarauderHit) (app : ReconApp F)
        → Wf app
        → Wf (report_hits u t scan hs app)
    unfolding report_hits
    hits-Wf t scan [] app v = v
    hits-Wf t scan (h ∷ hs) app v =
        hits-Wf t scan hs (recon_app_report_flock u.fo t (scraped_sighting u scan h) app)
          (report-Wf u.fo t (scraped_sighting u scan h) app v)

    generic-AllFit :
        (t : Clock) (line : Bytes) (s : Session F)
        → AllFit s
        → AllFit (esp_parse_generic u t line s)
    unfolding esp_parse_generic
    generic-AllFit t line s v =
        let scan = marauder_scan_line u.ex (some line) in
        let reported : AllFit (record s { app = report_hits u t scan scan.hits s.app }) = record {
          hits = hits-Wf t scan scan.hits s.app v.hits;
          survey_fits = v.survey_fits;
          ble_fits = v.ble_fits;
          wifi_fits = v.wifi_fits;
        } in
        elim (Bool-cases (ltb 0 scan.dropped)) [
          | inl some_lost ↦ rw some_lost (kept _ _ reported refl refl refl refl)
          | inr none_lost ↦ rw none_lost reported
        ]

    line-AllFit :
        (t : Clock) (line : Bytes) (s : Session F) → AllFit s → AllFit (esp_line_done u t line s)
    unfolding esp_line_done esp_parse_companion
    line-AllFit t line s v =
        let lines = inc_u32 s.lines in
        let counted : Session F =
          with_link u (set_esp_lines lines t.tick) (record s { lines = lines }) in
        let w : AllFit counted = kept s counted v refl refl refl refl in
        either-AllFit u.companion _ _
          (apply-AllFit t (esp_parse_companion_line u.ex line) counted w)
          (generic-AllFit t line counted w)

    -- Lines of the board, one after the other, each at the time of its arrival.
    unfoldable pub esp_lines : List (Clock × Bytes) → Session F → Session F
    esp_lines [] s = s
    esp_lines ((t, line) ∷ ls) s = esp_lines ls (esp_line_done u t line s)

    -- Whatever lines come, from a companion or from a text console, however malformed: if the four
    -- tables fit their arrays of 64, 48, 8 and 8 rows and the hit table has one row for each address,
    -- then so it is afterwards.
    pub lines-AllFit :
        (ls : List (Clock × Bytes)) (s : Session F) → AllFit s → AllFit (esp_lines ls s)
    unfolding esp_lines
    lines-AllFit [] s v = v
    lines-AllFit ((t, line) ∷ ls) s v =
        lines-AllFit ls (esp_line_done u t line s) (line-AllFit t line s v)
