-- ===== src/ReconApp/Once.antt =====
-- A device whose row is past the crossing, while the session goes on.
use flip_de_flock.Common.{
  Bool-cases, List, [], ap, arith, false, get_elem?, get_elem?-set_self, inl, inr, some, subst, sym,
  ℕ, ◌∙◌, ◌∷◌, ◌≡◌, ◌≢◌, ◌≤◌,
}
use flip_de_flock.Common.Bytes.{Bytes}
use flip_de_flock.Common.Int.{ℤ}
use flip_de_flock.Common.Mac.{Mac, mac_eq, mac_eq_iff}
use flip_de_flock.FlockDb.Types.{rung}
use flip_de_flock.ReconApp.Alerts.{
  PastCrossing, alert_fires-past, max_conf-ge_old, min_rung, report-AlertStep,
}
use flip_de_flock.ReconApp.Broadcasts.{remote-PastCrossing, remote_quiet}
use flip_de_flock.ReconApp.Drone.{remote-Wf}
use flip_de_flock.ReconApp.Gates.{count_message-Wf, live_rows_stay, report-Wf, report-cases}
use flip_de_flock.ReconApp.Link.{recon_app_alert_tick, recon_app_liveness_tick}
use flip_de_flock.ReconApp.Remote.{recon_app_report_remote_id}
use flip_de_flock.ReconApp.Report.{
  alert_fires, count_message, raise_alert, recon_app_report_flock, update_entry,
}
use flip_de_flock.ReconApp.Rows.{get_elem?-lt}
use flip_de_flock.ReconApp.Table.{Stored, Wf, row_written, store-Stored, update_entry-Updated}
use flip_de_flock.ReconApp.Types.{Clock, FloatOps, FlockEntry, ReconApp, Sighting}
use flip_de_flock.RemoteId.{OdidFloats}

-- What happens while a session runs: a sighting, a Remote ID broadcast, a tick that watches the
-- links, and a tick that delivers the alert.
pub data SessionEvent : Type 0 where
  sighting_heard : Clock → Sighting → SessionEvent
  broadcast_heard : Clock → Mac → ℤ → Bytes → SessionEvent
  links_checked : ℕ → SessionEvent
  alert_delivered : SessionEvent

module _ {F : Type 0} where
  -- A sighting of a device whose row is live and already at the chosen rung raises no alert,
  -- whether or not the device was ever announced.
  pub no_alert-PastCrossing :
      (fo : FloatOps F) (t : Clock) (s : Sighting) (app : ReconApp F)
      → Wf app
      → PastCrossing s.mac app
      → (recon_app_report_flock fo t s app).alert ≡ app.alert
  no_alert-PastCrossing fo t s app v (j, x, g, m, l, r) = elim (report-AlertStep fo t s app v) [
    | inl same ↦ same
    | inr (table, i, e, c, h, q) ↦
        let same : e ≡ x = c.known j x g m in
        let e' = update_entry fo app.gps t s e in
        let quiet =
          alert_fires-past app.alert t e e' (ap (λ (y : FlockEntry F). y.archived) same ∙ l)
            (subst (λ (y : FlockEntry F). min_rung app.alert ≤ rung y.confidence) (sym same) r) in
        q ∙ ground (arith, quiet)
  ]

  report-min_rung :
      (fo : FloatOps F) (t : Clock) (s : Sighting) (app : ReconApp F)
      → Wf app
      → min_rung (recon_app_report_flock fo t s app).alert ≡ min_rung app.alert
  unfolding raise_alert
  report-min_rung fo t s app v = elim (report-AlertStep fo t s app v) [
    | inl same ↦ ap min_rung same
    | inr (table, i, e, c, h, q) ↦
        elim (Bool-cases (alert_fires app.alert t e (update_entry fo app.gps t s e))) [
          | inl k ↦ ap min_rung q ∙ ground (arith, k)
          | inr k ↦ ap min_rung q ∙ ground (arith, k)
        ]
  ]

  -- The row of a device that is past the crossing, after a sighting of that device.
  same_device_stays :
      (fo : FloatOps F) (t : Clock) (s : Sighting) (before after : ReconApp F) (least i : ℕ)
      (x : FlockEntry F)
      → Stored fo t s before after
      → get_elem? before.flock i ≡ some x
      → x.mac ≡ s.mac
      → x.archived ≡ false
      → least ≤ rung x.confidence
      → (j : ℕ) × (y : FlockEntry F) × (get_elem? after.flock j ≡ some y)
        × (y.mac ≡ s.mac)
        × (y.archived ≡ false)
        × (least ≤ rung y.confidence)
  same_device_stays fo t s before after least i x (inl (same, full, live)) g m l r =
      (i, x, ap (λ k. get_elem? k i) same ∙ g, m, l, r)
  same_device_stays fo t s before after least i x (inr (table, j, e, c, h)) g m l r =
      let e' = row_written fo before t s e in
      let u = update_entry-Updated fo before.gps t s e in
      let same : e ≡ x = c.known i x g m in
      let old = subst (λ (y : FlockEntry F). least ≤ rung y.confidence) (sym same) r in
      (
        j,
        e',
        ap (λ k. get_elem? k j) h ∙ get_elem?-set_self table j e' (get_elem?-lt table j e c.here),
        u.same_mac ∙ c.its_mac,
        u.live,
        subst (λ k. least ≤ rung k) (sym u.conf)
            (omega (arith, old, max_conf-ge_old s.confidence e.confidence)),
      )

  PastCrossing-stays :
      (fo : FloatOps F) (t : Clock) (s : Sighting) (mac : Mac) (app : ReconApp F)
      → Wf app
      → PastCrossing mac app
      → PastCrossing mac (recon_app_report_flock fo t s app)
  unfolding count_message
  PastCrossing-stays fo t s mac app v (i, x, g, m, l, r) =
      let after = recon_app_report_flock fo t s app in
      let least = report-min_rung fo t s app v in
      elim (Bool-cases (mac_eq mac s.mac)) [
        | inr ne ↦
            let other : x.mac ≢ s.mac =
              λ q. ground (arith, ne, (mac_eq_iff mac s.mac).1 (sym m ∙ q)) in
            (
              i,
              x,
              live_rows_stay fo t s app i x v g other l,
              m,
              l,
              subst (λ n. n ≤ rung x.confidence) (sym least) r,
            )
        | inl eq ↦ elim (report-cases fo t s app) [
          | inl same ↦ (
            i,
            x,
            ap (λ (a : ReconApp F). get_elem? a.flock i) same ∙ g,
            m,
            l,
            subst (λ n. n ≤ rung x.confidence) (sym least) r,
          )
          | inr (p, h) ↦
              let path = (mac_eq_iff mac s.mac).0 eq in
              let stored =
                subst (Stored fo t s (count_message app)) (sym h)
                  (store-Stored fo t s (count_message app) (count_message-Wf app v)) in
              let (j, y, g', m', l', r') =
                same_device_stays fo t s (count_message app) after (min_rung app.alert) i x stored g
                  (m ∙ path) l r in
              (j, y, g', m' ∙ sym path, l', subst (λ n. n ≤ rung y.confidence) (sym least) r')
        ]
      ]

  -- Sightings one after the other.
  abbrev pub report_all : FloatOps F → List (Clock × Sighting) → ReconApp F → ReconApp F
  report_all fo [] app = app
  report_all fo ((t, s) ∷ ss) app = report_all fo ss (recon_app_report_flock fo t s app)

  abbrev pub session_step : FloatOps F → OdidFloats F → SessionEvent → ReconApp F → ReconApp F
  session_step fo fl (sighting_heard t s) app = recon_app_report_flock fo t s app
  session_step fo fl (broadcast_heard t addr rssi payload) app =
      recon_app_report_remote_id fo fl t addr rssi payload app
  session_step fo fl (links_checked now) app = (recon_app_liveness_tick now app).0
  session_step fo fl alert_delivered app = (recon_app_alert_tick app).0

  abbrev pub session_run : FloatOps F → OdidFloats F → List SessionEvent → ReconApp F → ReconApp F
  session_run fo fl [] app = app
  session_run fo fl (e ∷ es) app = session_run fo fl es (session_step fo fl e app)

  step-past :
      (fo : FloatOps F) (fl : OdidFloats F) (e : SessionEvent) (mac : Mac) (app : ReconApp F)
      → Wf app
      → PastCrossing mac app
      → Wf (session_step fo fl e app) × PastCrossing mac (session_step fo fl e app)
  unfolding recon_app_liveness_tick recon_app_alert_tick
  step-past fo fl (sighting_heard t s) mac app v p =
      (report-Wf fo t s app v, PastCrossing-stays fo t s mac app v p)
  step-past fo fl (broadcast_heard t addr rssi payload) mac app v p = (
    remote-Wf fo fl t addr rssi payload app v,
    remote-PastCrossing fo fl t addr rssi payload mac app v p,
  )
  step-past fo fl (links_checked now) mac app v p =
      (record { fits = v.fits; one_each = v.one_each }, p)
  step-past fo fl alert_delivered mac app v p = (record { fits = v.fits; one_each = v.one_each }, p)

  run-past :
      (fo : FloatOps F) (fl : OdidFloats F) (es : List SessionEvent) (mac : Mac) (app : ReconApp F)
      → Wf app
      → PastCrossing mac app
      → Wf (session_run fo fl es app) × PastCrossing mac (session_run fo fl es app)
  run-past fo fl [] mac app v p = (v, p)
  run-past fo fl (e ∷ es) mac app v p =
      let (w, q) = step-past fo fl e mac app v p in
      run-past fo fl es mac (session_step fo fl e app) w q

  -- Once a device has a live row at the rung that the operator chose, be it announced or held back by
  -- the cooldown, then after any sightings and Remote ID broadcasts of any devices and any ticks, with
  -- that choice and the table not changed by other means, neither a sighting nor a broadcast of the
  -- device raises an alert.
  pub never_again :
      (fo : FloatOps F) (fl : OdidFloats F) (es : List SessionEvent) (t : Clock) (s : Sighting)
      (rssi : ℤ) (payload : Bytes) (app : ReconApp F)
      → Wf app
      → PastCrossing s.mac app
      → let now = session_run fo fl es app in
        ((recon_app_report_flock fo t s now).alert ≡ now.alert)
        × ((recon_app_report_remote_id fo fl t s.mac rssi payload now).alert ≡ now.alert)
  never_again fo fl es t s rssi payload app v p =
      let (w, q) = run-past fo fl es s.mac app v p in
      let now = session_run fo fl es app in
      (no_alert-PastCrossing fo t s now w q, remote_quiet fo fl t s.mac rssi payload now w q)
