-- ===== src/ReconApp/Broadcasts.antt =====
-- What a Remote ID broadcast does to the row of the sender and to the alert.
use flip_de_flock.Common.{
  Bool-cases, List, ap, arith, false, get_elem?, get_elem?-set_ne, get_elem?-set_self,
  if◌then◌else◌, inl, inr, none, refl, set, some, subst, sym, ℕ, ◌||◌, ◌∙◌, ◌≡◌, ◌≢◌, ◌≤◌, ◌⊎◌,
}
use flip_de_flock.Common.Bytes.{Bytes}
use flip_de_flock.Common.Int.{ℤ}
use flip_de_flock.Common.Mac.{Mac, mac_eq, mac_eq_iff}
use flip_de_flock.FlockDb.Types.{confirmed, rung}
use flip_de_flock.ReconApp.Alerts.{PastCrossing, alert_fires-past, max_conf-ge_old, min_rung}
use flip_de_flock.ReconApp.Claim.{Claimed, SlotOk, claim_for-SlotOk}
use flip_de_flock.ReconApp.Remote.{
  merge_id, merge_operator, merge_place, note_broadcast, recon_app_report_remote_id, record_remote,
  remote_entry, store_remote, update_remote,
}
use flip_de_flock.ReconApp.Report.{
  Slot, alert_fires, claim_for, count_message, fresh_entry, max_conf, raise_alert,
}
use flip_de_flock.ReconApp.Rows.{get_elem?-lt, get_or-get_elem?}
use flip_de_flock.ReconApp.Table.{Wf}
use flip_de_flock.ReconApp.Types.{Clock, FloatOps, FlockEntry, ReconApp}
use flip_de_flock.RemoteId.{OdidFloats, OdidReport, odid_parse_ble_service_data, odid_report_init}

module _ {F : Type 0} where
  -- A broadcast that is stored: the row that it claims, before and after.
  pub record Broadcast (fo : FloatOps F) (t : Clock) (addr : Mac) (before after : ReconApp F)
      : Type 0 where
    pub table : List (FlockEntry F)
    pub i : ℕ
    pub old : FlockEntry F
    pub seen : FlockEntry F
    pub claimed : Claimed addr before.flock table i old
    pub same_mac : seen.mac ≡ old.mac
    pub live : seen.archived ≡ false
    pub rises : rung old.confidence ≤ rung seen.confidence
    pub written :
        after.flock
        ≡ set table i
            (record seen { alerted = alert_fires before.alert t old seen || seen.alerted })
    pub alerts : after.alert ≡ (
        if alert_fires before.alert t old seen
        then raise_alert t seen.mac before.alert
        else before.alert)

  update_remote-live :
      (fo : FloatOps F) (t : Clock) (rssi : ℤ) (rep : OdidReport F) (e : FlockEntry F)
      → (update_remote fo t rssi rep e).archived ≡ false
  unfolding update_remote merge_operator merge_place merge_id note_broadcast
  update_remote-live fo t rssi rep e = ground arith

  update_remote-same_mac :
      (fo : FloatOps F) (t : Clock) (rssi : ℤ) (rep : OdidReport F) (e : FlockEntry F)
      → (update_remote fo t rssi rep e).mac ≡ e.mac
  unfolding update_remote merge_operator merge_place merge_id note_broadcast
  update_remote-same_mac fo t rssi rep e = ground arith

  update_remote-conf :
      (fo : FloatOps F) (t : Clock) (rssi : ℤ) (rep : OdidReport F) (e : FlockEntry F)
      → (update_remote fo t rssi rep e).confidence ≡ max_conf confirmed e.confidence
  unfolding update_remote merge_operator merge_place merge_id note_broadcast
  update_remote-conf fo t rssi rep e = ground arith

  abbrev Quiet : ReconApp F → ReconApp F → Type 0
  Quiet before after = (after.flock ≡ before.flock) × (after.alert ≡ before.alert)

  store_remote-cases :
      (fo : FloatOps F) (t : Clock) (addr : Mac) (rssi : ℤ) (rep : OdidReport F) (app : ReconApp F)
      (o : Slot F)
      → claim_for (remote_entry fo addr t.tick) app.flock ≡ o
      → SlotOk addr app.flock o
      → Quiet app (store_remote fo t addr rssi rep app)
        ⊎ Broadcast fo t addr app (store_remote fo t addr rssi rep app)
  unfolding store_remote record_remote
  store_remote-cases fo t addr rssi rep app none h k = inl (ground (arith, h), ground (arith, h))
  store_remote-cases fo t addr rssi rep app (some (table, i)) h (e, c) =
      let here = get_or-get_elem? table i e (remote_entry fo addr t.tick) c.here in
      let e' = update_remote fo t rssi rep e in
      inr (record {
        table = table;
        i = i;
        old = e;
        seen = e';
        claimed = c;
        same_mac = update_remote-same_mac fo t rssi rep e;
        live = update_remote-live fo t rssi rep e;
        rises =
            subst (λ k. rung e.confidence ≤ rung k) (sym (update_remote-conf fo t rssi rep e))
              (max_conf-ge_old confirmed e.confidence);
        written = ground (arith, h, here);
        alerts = ground (arith, h, here);
      })

  pub remote-cases :
      (fo : FloatOps F) (fl : OdidFloats F) (t : Clock) (addr : Mac) (rssi : ℤ) (payload : Bytes)
      (app : ReconApp F)
      → Wf app
      → Quiet app (recon_app_report_remote_id fo fl t addr rssi payload app)
        ⊎ Broadcast fo t addr
            (count_message app)
            (recon_app_report_remote_id fo fl t addr rssi payload app)
  unfolding recon_app_report_remote_id count_message remote_entry fresh_entry
  remote-cases fo fl t addr rssi payload app v =
      let (rep, used) = odid_parse_ble_service_data fl payload (odid_report_init fl) in
      elim (Bool-cases (odid_parse_ble_service_data fl payload (odid_report_init fl)).1) [
        | inl h ↦ rw h (
            store_remote-cases fo t addr rssi rep (count_message app)
              (claim_for (remote_entry fo addr t.tick) app.flock) refl
              (claim_for-SlotOk (remote_entry fo addr t.tick) app.flock v.fits v.one_each))
        | inr h ↦ rw h (inl (refl, refl))
      ]

  -- The device keeps a live row at the chosen rung or above.
  Broadcast-stays :
      (fo : FloatOps F) (t : Clock) (addr mac : Mac) (before after : ReconApp F)
      → Broadcast fo t addr before after
      → PastCrossing mac before
      → PastCrossing mac after
  unfolding raise_alert
  Broadcast-stays fo t addr mac before after b (j, x, g, m, l, r) =
      let new = record b.seen {
        alerted = alert_fires before.alert t b.old b.seen || b.seen.alerted;
      } in
      let least : min_rung after.alert ≡ min_rung before.alert =
        elim (Bool-cases (alert_fires before.alert t b.old b.seen)) [
          | inl k ↦ ap min_rung b.alerts ∙ ground (arith, k)
          | inr k ↦ ap min_rung b.alerts ∙ ground (arith, k)
        ] in
      elim (Bool-cases (mac_eq mac addr)) [
        | inr ne ↦
            let other : x.mac ≢ addr =
              λ q. ground (arith, ne, (mac_eq_iff mac addr).1 (sym m ∙ q)) in
            let (k, apart) = b.claimed.others j x g other l in
            (
              j,
              x,
              ap (λ z. get_elem? z j) b.written ∙ get_elem?-set_ne b.table new apart ∙ k,
              m,
              l,
              subst (λ n. n ≤ rung x.confidence) (sym least) r,
            )
        | inl eq ↦
            let path = (mac_eq_iff mac addr).0 eq in
            let same : b.old ≡ x = b.claimed.known j x g (m ∙ path) in
            let old_r =
              subst (λ (y : FlockEntry F). min_rung before.alert ≤ rung y.confidence) (sym same)
                r in
            (
              b.i,
              new,
              ap (λ z. get_elem? z b.i) b.written
                  ∙ get_elem?-set_self b.table b.i new
                      (get_elem?-lt b.table b.i b.old b.claimed.here),
              b.same_mac ∙ b.claimed.its_mac ∙ sym path,
              b.live,
              subst (λ n. n ≤ rung b.seen.confidence) (sym least) (omega (arith, old_r, b.rises)),
            )
      ]

  pub remote-PastCrossing :
      (fo : FloatOps F) (fl : OdidFloats F) (t : Clock) (addr : Mac) (rssi : ℤ) (payload : Bytes)
      (mac : Mac) (app : ReconApp F)
      → Wf app
      → PastCrossing mac app
      → PastCrossing mac (recon_app_report_remote_id fo fl t addr rssi payload app)
  unfolding count_message
  remote-PastCrossing fo fl t addr rssi payload mac app v p =
      elim (remote-cases fo fl t addr rssi payload app v) [
        | inl (same, quiet) ↦
            let (j, x, g, m, l, r) = p in
            (
              j,
              x,
              ap (λ z. get_elem? z j) same ∙ g,
              m,
              l,
              subst (λ z. min_rung z ≤ rung x.confidence) (sym quiet) r,
            )
        | inr b ↦
            Broadcast-stays fo t addr mac (count_message app)
              (recon_app_report_remote_id fo fl t addr rssi payload app) b p
      ]

  -- A broadcast of a device whose row is live and already at the chosen rung raises no alert.
  pub remote_quiet :
      (fo : FloatOps F) (fl : OdidFloats F) (t : Clock) (addr : Mac) (rssi : ℤ) (payload : Bytes)
      (app : ReconApp F)
      → Wf app
      → PastCrossing addr app
      → (recon_app_report_remote_id fo fl t addr rssi payload app).alert ≡ app.alert
  unfolding count_message
  remote_quiet fo fl t addr rssi payload app v (j, x, g, m, l, r) =
      elim (remote-cases fo fl t addr rssi payload app v) [
        | inl (same, quiet) ↦ quiet
        | inr b ↦
            let same : b.old ≡ x = b.claimed.known j x g m in
            let quiet =
              alert_fires-past app.alert t b.old b.seen
                (ap (λ (y : FlockEntry F). y.archived) same ∙ l)
                (subst (λ (y : FlockEntry F). min_rung app.alert ≤ rung y.confidence) (sym same)
                  r) in
            b.alerts ∙ ground (arith, quiet)
      ]
