-- ===== src/ReconApp/Gates.antt =====
-- `recon_app_report_flock` as a whole: the gates, the table and the counters.
use flip_de_flock.Common.{
  Bool-cases, List, ap, arith, false, get_elem?, get_elem?-set_ne, get_elem?-set_self, inl, inr,
  length, length-set, refl, some, subst, sym, true, ℕ, ◌∙◌, ◌≡◌, ◌≢◌, ◌≤◌, ◌⊎◌,
}
use flip_de_flock.Common.Search.{All, Exists}
use flip_de_flock.DetectRules.{flock_is_excluded}
use flip_de_flock.DetectRules.Alert.{is_excluded_iff}
use flip_de_flock.FlockDb.Types.{FlockConfidence, conf_eq, conf_none, rung}
use flip_de_flock.ReconApp.Report.{count_message, max_conf, recon_app_report_flock, store_sighting}
use flip_de_flock.ReconApp.Rows.{Distinct, Distinct-set_same, get_elem?-lt}
use flip_de_flock.ReconApp.Table.{
  Stored, Wf, row_written, row_written-mac, store-Stored, update_entry-Updated,
}
use flip_de_flock.ReconApp.Types.{Clock, FloatOps, FlockEntry, ReconApp, Sighting}

max_conf-ge : (a b : FlockConfidence) → rung a ≤ rung (max_conf a b)
max_conf-ge a b = ground arith

module _ {F : Type 0} where
  -- The sighting passes both gates.
  abbrev pub Passes : Sighting → ReconApp F → Type 0
  Passes s app =
      (s.confidence ≢ conf_none)
      × (flock_is_excluded (some s.mac) s.ie_fp (some app.ignore_macs) (some app.ignore_fps)
          ≡ false)

  -- Only counters differ.
  abbrev pub OnlyCounted : ReconApp F → ReconApp F → Type 0
  OnlyCounted before after = after ≡ record before { diag = after.diag }

  pub report-cases :
      (fo : FloatOps F) (t : Clock) (s : Sighting) (app : ReconApp F)
      → OnlyCounted app (recon_app_report_flock fo t s app)
        ⊎ (Passes s app
            × (recon_app_report_flock fo t s app ≡ store_sighting fo t s (count_message app)))
  unfolding recon_app_report_flock count_message
  report-cases fo t s app = elim (Bool-cases (conf_eq s.confidence conf_none)) [
    | inl h ↦ inl (ground (arith, h))
    | inr h ↦
        elim (Bool-cases
          (flock_is_excluded (some s.mac) s.ie_fp (some app.ignore_macs) (some app.ignore_fps))) [
            | inl k ↦ inl (ground (arith, h, k))
            | inr k ↦ inr ((λ e. ground (arith, h, e), k), ground (arith, h, k))
          ]
  ]

  count_message-flock : (app : ReconApp F) → (count_message app).flock ≡ app.flock
  unfolding count_message
  count_message-flock app = refl

  pub count_message-Wf : (app : ReconApp F) → Wf app → Wf (count_message app)
  unfolding count_message
  count_message-Wf app v = record { fits = v.fits; one_each = v.one_each }

  -- What the gate refuses is only counted.
  pub refused-OnlyCounted :
      (fo : FloatOps F) (t : Clock) (s : Sighting) (app : ReconApp F)
      → (s.confidence ≡ conf_none)
        ⊎ (flock_is_excluded (some s.mac) s.ie_fp (some app.ignore_macs) (some app.ignore_fps)
            ≡ true)
      → OnlyCounted app (recon_app_report_flock fo t s app)
  refused-OnlyCounted fo t s app r = elim (report-cases fo t s app) [
    | inl same ↦ same
    | inr (p, h) ↦ elim r [ inl z ↦ absurd (p.0 z) | inr x ↦ ground (arith, x, p.1) ]
  ]

  -- A sighting with no confidence, or of an address that stands in the operator's list of addresses,
  -- or with a fingerprint other than 0 that stands in his list of fingerprints, changes nothing but
  -- the counters, however high its rung.
  pub rejected-OnlyCounted :
      (fo : FloatOps F) (t : Clock) (s : Sighting) (app : ReconApp F)
      → (s.confidence ≡ conf_none)
        ⊎ (Exists (λ m. m ≡ s.mac) app.ignore_macs
            ⊎ ((s.ie_fp ≢ 0) × Exists (λ f. f ≡ s.ie_fp) app.ignore_fps))
      → OnlyCounted app (recon_app_report_flock fo t s app)
  rejected-OnlyCounted fo t s app (inl z) = refused-OnlyCounted fo t s app (inl z)
  rejected-OnlyCounted fo t s app (inr listed) =
      refused-OnlyCounted fo t s app
        (inr ((is_excluded_iff s.mac s.ie_fp app.ignore_macs app.ignore_fps).1 listed))

  Stored-Wf :
      (fo : FloatOps F) (t : Clock) (s : Sighting) (before after : ReconApp F)
      → Wf before
      → Stored fo t s before after
      → Wf after
  Stored-Wf fo t s before after v (inl (same, full, live)) = record {
    fits = subst (λ l. length l ≤ 64) (sym same) v.fits;
    one_each = subst Distinct (sym same) v.one_each;
  }
  Stored-Wf fo t s before after v (inr (table, i, e, c, h)) =
      let e' = row_written fo before t s e in
      record {
        fits = subst (λ l. length l ≤ 64) (sym h) (omega (arith, length-set table i e', c.no_more));
        one_each = subst Distinct (sym h) (
            Distinct-set_same table i e e' c.still_distinct c.here
              (row_written-mac fo before t s e));
      }

  -- After any sighting, if before it, the table fits its 64 rows and has one row for each device.
  pub report-Wf :
      (fo : FloatOps F) (t : Clock) (s : Sighting) (app : ReconApp F)
      → Wf app
      → Wf (recon_app_report_flock fo t s app)
  report-Wf fo t s app v = elim (report-cases fo t s app) [
    | inl same ↦ subst Wf (sym same) (record { fits = v.fits; one_each = v.one_each })
    | inr (p, h) ↦
        let w = count_message-Wf app v in
        subst Wf (sym h) (
          Stored-Wf fo t s (count_message app) (store_sighting fo t s (count_message app)) w
            (store-Stored fo t s (count_message app) w))
  ]

  Stored-others :
      (fo : FloatOps F) (t : Clock) (s : Sighting) (before after : ReconApp F)
      → Stored fo t s before after
      → (j : ℕ) (x : FlockEntry F) → get_elem? before.flock j ≡ some x
      → x.mac ≢ s.mac
      → x.archived ≡ false
      → get_elem? after.flock j ≡ some x
  Stored-others fo t s before after (inl (same, full, live)) j x g ne l =
      subst (λ l. get_elem? l j ≡ some x) (sym same) g
  Stored-others fo t s before after (inr (table, i, e, c, h)) j x g ne l =
      let (k, apart) = c.others j x g ne l in
      subst (λ l. get_elem? l j ≡ some x) (sym h)
        (get_elem?-set_ne table (row_written fo before t s e) apart ∙ k)

  -- A row that was seen live this session is never touched, moved or evicted by a sighting of
  -- another device, whatever its rung and however full the table.
  pub live_rows_stay :
      (fo : FloatOps F) (t : Clock) (s : Sighting) (app : ReconApp F) (j : ℕ) (x : FlockEntry F)
      → Wf app
      → get_elem? app.flock j ≡ some x
      → x.mac ≢ s.mac
      → x.archived ≡ false
      → get_elem? (recon_app_report_flock fo t s app).flock j ≡ some x
  live_rows_stay fo t s app j x v g ne l = elim (report-cases fo t s app) [
    | inl same ↦ subst (λ (a : ReconApp F). get_elem? a.flock j ≡ some x) (sym same) g
    | inr (p, h) ↦
        subst (λ (a : ReconApp F). get_elem? a.flock j ≡ some x) (sym h)
          (Stored-others fo t s (count_message app) (store_sighting fo t s (count_message app))
            (store-Stored fo t s (count_message app) (count_message-Wf app v)) j x
            (ap (λ l. get_elem? l j) (count_message-flock app) ∙ g) ne l)
  ]

  -- The row of the device that was just seen.
  abbrev pub SeenNow : Clock → Sighting → List (FlockEntry F) → Type 0
  SeenNow t s table =
      (i : ℕ) × (e : FlockEntry F) × (get_elem? table i ≡ some e)
      × (e.mac ≡ s.mac)
      × (e.archived ≡ false)
      × (e.last_tick ≡ t.tick)
      × (rung s.confidence ≤ rung e.confidence)

  Stored-SeenNow :
      (fo : FloatOps F) (t : Clock) (s : Sighting) (before after : ReconApp F)
      → Stored fo t s before after
      → ((after.flock ≡ before.flock)
          × (length before.flock ≡ 64)
          × All (λ e. e.archived ≡ false) before.flock)
        ⊎ SeenNow t s after.flock
  Stored-SeenNow fo t s before after (inl x) = inl x
  Stored-SeenNow fo t s before after (inr (table, i, e, c, h)) =
      let e' = row_written fo before t s e in
      let u = update_entry-Updated fo before.gps t s e in
      inr (
        subst (SeenNow t s) (sym h) (
          i,
          e',
          get_elem?-set_self table i e' (get_elem?-lt table i e c.here),
          u.same_mac ∙ c.its_mac,
          u.live,
          u.tick,
          subst (λ x. rung s.confidence ≤ rung x) (sym u.conf)
              (max_conf-ge s.confidence e.confidence),
        ))

  abbrev Outcome : Clock → Sighting → ReconApp F → ReconApp F → Type 0
  Outcome t s before after =
      ((after.flock ≡ before.flock)
        × (length before.flock ≡ 64)
        × All (λ e. e.archived ≡ false) before.flock)
      ⊎ SeenNow t s after.flock

  report-Passes :
      (fo : FloatOps F) (t : Clock) (s : Sighting) (app : ReconApp F)
      → Passes s app
      → recon_app_report_flock fo t s app ≡ store_sighting fo t s (count_message app)
  unfolding recon_app_report_flock
  report-Passes fo t s app p =
      let some_conf : conf_eq s.confidence conf_none ≡ false = ground (arith, p.0) in
      ground (arith, some_conf, p.1)

  -- A sighting that passes the gates either has a live row afterwards that carries its address, its
  -- tick and at least its rung, or the table was full of 64 live rows and stays as it was.
  pub accepted_is_stored :
      (fo : FloatOps F) (t : Clock) (s : Sighting) (app : ReconApp F)
      → Wf app
      → Passes s app
      → (((recon_app_report_flock fo t s app).flock ≡ app.flock)
          × (length app.flock ≡ 64)
          × All (λ e. e.archived ≡ false) app.flock)
        ⊎ SeenNow t s (recon_app_report_flock fo t s app).flock
  unfolding count_message
  accepted_is_stored fo t s app v p =
      let w = count_message-Wf app v in
      let counted = count_message app in
      let seen =
        Stored-SeenNow fo t s counted (store_sighting fo t s counted)
          (store-Stored fo t s counted w) in
      subst (Outcome t s app) (sym (report-Passes fo t s app p)) seen
