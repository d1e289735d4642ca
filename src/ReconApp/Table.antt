-- ===== src/ReconApp/Table.antt =====
-- What a sighting does to the hit table.
use flip_de_flock.Common.{
  Bool-cases, List, arith, false, inl, inr, length, none, not, refl, set, some, ℕ, ◌&&◌, ◌||◌, ◌≡◌,
  ◌≤◌, ◌⊎◌,
}
use flip_de_flock.Common.Search.{All}
use flip_de_flock.DetectRules.{flock_geotag_should_update}
use flip_de_flock.ReconApp.Claim.{Claimed, SlotOk, claim_row-SlotOk}
use flip_de_flock.ReconApp.Report.{
  Slot, alert_fires, claim_row, fresh_entry, max_conf, note_evidence, note_name, note_place,
  note_signal, record_sighting, store_sighting, update_entry,
}
use flip_de_flock.ReconApp.Rows.{Distinct, get_or-get_elem?}
use flip_de_flock.ReconApp.Types.{Clock, FloatOps, FlockEntry, GpsState, ReconApp, Sighting}

module _ {F : Type 0} where
  -- The table fits its array and has one row for each device.
  pub record Wf (app : ReconApp F) : Type 0 where
    pub fits : length app.flock ≤ 64
    pub one_each : Distinct app.flock

  -- What an update of a row keeps and sets.
  pub record Updated (t : Clock) (s : Sighting) (e e' : FlockEntry F) : Type 0 where
    pub same_mac : e'.mac ≡ e.mac
    pub live : e'.archived ≡ false
    pub tick : e'.last_tick ≡ t.tick
    pub conf : e'.confidence ≡ max_conf s.confidence e.confidence
    pub latch : e'.alerted ≡ e.alerted
    pub first : e'.first_tick ≡ e.first_tick

  note_place-Updated :
      (fo : FloatOps F) (gps : GpsState F) (t : Clock) (s : Sighting) (old e : FlockEntry F)
      → Updated t s old e
      → Updated t s old (note_place fo gps s e)
  unfolding note_place
  note_place-Updated fo gps t s old e u =
      elim (Bool-cases (
        not e.pos_broadcast
        && flock_geotag_should_update gps.valid (not (fo.isnan e.lat)) s.rssi e.geotag_rssi)) [
          | inl h ↦ rw h (record {
            same_mac = u.same_mac;
            live = u.live;
            tick = u.tick;
            conf = u.conf;
            latch = u.latch;
            first = u.first;
          })
          | inr h ↦ rw h u
        ]

  pub update_entry-Updated :
      (fo : FloatOps F) (gps : GpsState F) (t : Clock) (s : Sighting) (e : FlockEntry F)
      → Updated t s e (update_entry fo gps t s e)
  unfolding update_entry note_name note_evidence note_signal
  update_entry-Updated fo gps t s e =
      note_place-Updated fo gps t s e (note_name s (note_evidence s (note_signal t s e))) (record {
        same_mac = refl;
        live = refl;
        tick = refl;
        conf = refl;
        latch = refl;
        first = refl;
      })

  -- The row that is written back, with the latch of the alert.
  abbrev pub row_written : FloatOps F → ReconApp F → Clock → Sighting → FlockEntry F → FlockEntry F
  row_written fo app t s e =
      let e' = update_entry fo app.gps t s e in
      record e' { alerted = alert_fires app.alert t e e' || e'.alerted }

  pub row_written-mac :
      (fo : FloatOps F) (app : ReconApp F) (t : Clock) (s : Sighting) (e : FlockEntry F)
      → (row_written fo app t s e).mac ≡ e.mac
  row_written-mac fo app t s e = (update_entry-Updated fo app.gps t s e).same_mac

  -- A sighting that passes the gates: its row is written, or the table is full of live rows and
  -- stays.
  abbrev pub Stored : FloatOps F → Clock → Sighting → ReconApp F → ReconApp F → Type 0
  Stored fo t s before after =
      ((after.flock ≡ before.flock)
        × (length before.flock ≡ 64)
        × All (λ e. e.archived ≡ false) before.flock)
      ⊎ ((table : List (FlockEntry F)) × (i : ℕ) × (e : FlockEntry F) × Claimed s.mac before.flock
            table i e
          × (after.flock ≡ set table i (row_written fo before t s e)))

  store_at :
      (fo : FloatOps F) (t : Clock) (s : Sighting) (app : ReconApp F) (o : Slot F)
      → claim_row fo s.mac t.tick app.flock ≡ o
      → SlotOk s.mac app.flock o
      → Stored fo t s app (store_sighting fo t s app)
  unfolding store_sighting record_sighting
  store_at fo t s app none h k = inl (ground (arith, h), k.0, k.1)
  store_at fo t s app (some (table, i)) h (e, c) =
      let here = get_or-get_elem? table i e (fresh_entry fo s.mac t.tick) c.here in
      inr (table, i, e, c, ground (arith, h, here))

  pub store-Stored :
      (fo : FloatOps F) (t : Clock) (s : Sighting) (app : ReconApp F)
      → Wf app
      → Stored fo t s app (store_sighting fo t s app)
  store-Stored fo t s app v =
      store_at fo t s app (claim_row fo s.mac t.tick app.flock) refl
        (claim_row-SlotOk fo s.mac t.tick app.flock v.fits v.one_each)
