-- ===== src/ReconApp/Alerts.antt =====
-- When the alert is raised, and for which device.
use flip_de_flock.Common.{
  Bool-cases, List, ap, arith, false, get_elem?, get_elem?-set_self, if◌then◌else◌, inl, inr, none,
  refl, set, some, subst, sym, true, ℕ, ◌∙◌, ◌≡◌, ◌≤◌, ◌⊎◌,
}
use flip_de_flock.Common.Mac.{Mac}
use flip_de_flock.DetectRules.{
  alert_gate, flock_alert_min_conf_rung, flock_alert_should_fire_ex, sub_u32,
}
use flip_de_flock.FlockDb.Types.{FlockConfidence, rung}
use flip_de_flock.ReconApp.Claim.{Claimed, SlotOk, claim_row-SlotOk}
use flip_de_flock.ReconApp.Gates.{report-cases}
use flip_de_flock.ReconApp.Report.{
  Slot, alert_fires, claim_row, count_message, fresh_entry, max_conf, raise_alert,
  recon_app_report_flock, record_sighting, store_sighting, update_entry,
}
use flip_de_flock.ReconApp.Rows.{get_elem?-lt, get_or-get_elem?}
use flip_de_flock.ReconApp.Table.{Wf, row_written, update_entry-Updated}
use flip_de_flock.ReconApp.Types.{AlertState, Clock, FloatOps, FlockEntry, ReconApp, Sighting}

pub max_conf-ge_old : (a b : FlockConfidence) → rung b ≤ rung (max_conf a b)
max_conf-ge_old a b = ground arith

abbrev pub min_rung : AlertState → ℕ
min_rung a = flock_alert_min_conf_rung a.min_conf_choice

module _ {F : Type 0} where
  pub record Raised (t : Clock) (s : Sighting) (before after : ReconApp F) : Type 0 where
    pub is_pending : after.alert.pending ≡ true
    pub about : after.alert.card_mac ≡ s.mac
    pub at_tick : after.alert.last_tick ≡ t.tick
    pub spaced : (before.alert.have_fired ≡ false) ⊎ (3000 ≤ sub_u32 t.tick before.alert.last_tick)
    pub latched :
        (i : ℕ) × (e : FlockEntry F) × (get_elem? after.flock i ≡ some e)
        × (e.mac ≡ s.mac)
        × (e.alerted ≡ true)
        × (e.archived ≡ false)
        × (min_rung before.alert ≤ rung e.confidence)

  pub alert_fires-spaced :
      (a : AlertState) (t : Clock) (e e' : FlockEntry F)
      → alert_fires a t e e' ≡ true
      → ((a.have_fired ≡ false) ⊎ (3000 ≤ sub_u32 t.tick a.last_tick))
        × (min_rung a ≤ rung e'.confidence)
  unfolding alert_fires flock_alert_should_fire_ex alert_gate
  alert_fires-spaced a t e e' h = (ground (arith, h), ground (arith, h))

  pub alert_fires-past :
      (a : AlertState) (t : Clock) (e e' : FlockEntry F)
      → e.archived ≡ false
      → min_rung a ≤ rung e.confidence
      → alert_fires a t e e' ≡ false
  unfolding alert_fires flock_alert_should_fire_ex alert_gate
  alert_fires-past a t e e' l h = ground (arith, l, h)

  -- The device has a live row that is past the rung from which on an alert is raised.
  abbrev pub PastCrossing : Mac → ReconApp F → Type 0
  PastCrossing mac app =
      (i : ℕ) × (e : FlockEntry F) × (get_elem? app.flock i ≡ some e)
      × (e.mac ≡ mac)
      × (e.archived ≡ false)
      × (min_rung app.alert ≤ rung e.confidence)

  -- What a recorded sighting does to the alert.
  abbrev pub AlertAfter : FloatOps F → Clock → Sighting → ReconApp F → FlockEntry F → AlertState
  AlertAfter fo t s app e =
      let e' = update_entry fo app.gps t s e in
      if alert_fires app.alert t e e' then raise_alert t e'.mac app.alert else app.alert

  pub store-alert :
      (fo : FloatOps F) (t : Clock) (s : Sighting) (app : ReconApp F) (o : Slot F)
      → claim_row fo s.mac t.tick app.flock ≡ o
      → SlotOk s.mac app.flock o
      → ((store_sighting fo t s app).alert ≡ app.alert)
        ⊎ ((table : List (FlockEntry F)) × (i : ℕ) × (e : FlockEntry F) × Claimed s.mac app.flock
              table i e
            × ((store_sighting fo t s app).flock ≡ set table i (row_written fo app t s e))
            × ((store_sighting fo t s app).alert ≡ AlertAfter fo t s app e))
  unfolding store_sighting record_sighting
  store-alert fo t s app none h k = inl (ground (arith, h))
  store-alert fo t s app (some (table, i)) h (e, c) =
      let here = get_or-get_elem? table i e (fresh_entry fo s.mac t.tick) c.here in
      inr (table, i, e, c, ground (arith, h, here), ground (arith, h, here))

  -- The alert and the table after a report.
  abbrev pub AlertStep : FloatOps F → Clock → Sighting → ReconApp F → ReconApp F → Type 0
  AlertStep fo t s before after =
      (after.alert ≡ before.alert)
      ⊎ ((table : List (FlockEntry F)) × (i : ℕ) × (e : FlockEntry F) × Claimed s.mac before.flock
            table i e
          × (after.flock ≡ set table i (row_written fo before t s e))
          × (after.alert ≡ AlertAfter fo t s before e))

  pub report-AlertStep :
      (fo : FloatOps F) (t : Clock) (s : Sighting) (app : ReconApp F)
      → Wf app
      → AlertStep fo t s app (recon_app_report_flock fo t s app)
  unfolding count_message
  report-AlertStep fo t s app v = elim (report-cases fo t s app) [
    | inl same ↦ inl (ap (λ (a : ReconApp F). a.alert) same)
    | inr (p, h) ↦
        let counted = count_message app in
        subst (AlertStep fo t s app) (sym h) (
          store-alert fo t s counted (claim_row fo s.mac t.tick counted.flock) refl
            (claim_row-SlotOk fo s.mac t.tick counted.flock v.fits v.one_each))
  ]

  fired-Raised :
      (fo : FloatOps F) (t : Clock) (s : Sighting) (before after : ReconApp F)
      (table : List (FlockEntry F)) (i : ℕ) (e : FlockEntry F)
      → Claimed s.mac before.flock table i e
      → after.flock ≡ set table i (row_written fo before t s e)
      → alert_fires before.alert t e (update_entry fo before.gps t s e) ≡ true
      → after.alert ≡ raise_alert t (update_entry fo before.gps t s e).mac before.alert
      → Raised t s before after
  unfolding raise_alert
  fired-Raised fo t s before after table i e c h k q =
      let e' = update_entry fo before.gps t s e in
      let u = update_entry-Updated fo before.gps t s e in
      let f = alert_fires-spaced before.alert t e e' k in
      record {
        is_pending = ap (λ (a : AlertState). a.pending) q;
        about = ap (λ (a : AlertState). a.card_mac) q ∙ u.same_mac ∙ c.its_mac;
        at_tick = ap (λ (a : AlertState). a.last_tick) q;
        spaced = f.0;
        latched = (
          i,
          row_written fo before t s e,
          ap (λ l. get_elem? l i) h
              ∙ get_elem?-set_self table i (row_written fo before t s e)
                  (get_elem?-lt table i e c.here),
          u.same_mac ∙ c.its_mac,
          ground (arith, k),
          u.live,
          f.1,
        );
      }

  -- A sighting either leaves the alert alone, or it raises it: for the device that was seen, whose
  -- row is live, latched and at least at the chosen rung, and at least 3 seconds of tick time after
  -- the alert before it, if there was one, whichever device that one was about.
  pub report_alert :
      (fo : FloatOps F) (t : Clock) (s : Sighting) (app : ReconApp F)
      → Wf app
      → ((recon_app_report_flock fo t s app).alert ≡ app.alert)
        ⊎ Raised t s app (recon_app_report_flock fo t s app)
  report_alert fo t s app v = elim (report-AlertStep fo t s app v) [
    | inl same ↦ inl same
    | inr (table, i, e, c, h, q) ↦
        elim (Bool-cases (alert_fires app.alert t e (update_entry fo app.gps t s e))) [
          | inl k ↦ inr (
              fired-Raised fo t s app (recon_app_report_flock fo t s app) table i e c h k
                (q ∙ ground (arith, k)))
          | inr k ↦ inl (q ∙ ground (arith, k))
        ]
  ]
