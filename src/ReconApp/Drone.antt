-- ===== src/ReconApp/Drone.antt =====
-- What a Remote ID broadcast does to the hit table.
use flip_de_flock.Common.{
  Bool-cases, List, [], arith, inl, inr, length, length-set, none, refl, set, some, subst, sym,
  true, ℕ, ◌||◌, ◌∷◌, ◌≡◌, ◌≤◌, ◌⊎◌,
}
use flip_de_flock.Common.Bytes.{Bytes}
use flip_de_flock.Common.Int.{ltb_ℤ, pos, ℤ}
use flip_de_flock.Common.Mac.{Mac}
use flip_de_flock.Common.Search.{All}
use flip_de_flock.ReconApp.Claim.{Claimed, SlotOk, claim_for-SlotOk}
use flip_de_flock.ReconApp.Remote.{
  merge_id, merge_operator, merge_place, note_broadcast, recon_app_report_remote_id, record_remote,
  remote_entry, store_remote, update_remote,
}
use flip_de_flock.ReconApp.Report.{
  Slot, alert_fires, claim_for, count_message, fresh_entry, note_evidence, note_name, note_place,
  note_signal, update_entry,
}
use flip_de_flock.ReconApp.Rows.{Distinct, Distinct-set_same, get_or-get_elem?}
use flip_de_flock.ReconApp.Table.{Wf}
use flip_de_flock.ReconApp.Types.{Clock, FloatOps, FlockEntry, GpsState, ReconApp, Sighting}
use flip_de_flock.RemoteId.{OdidFloats, OdidReport, odid_parse_ble_service_data, odid_report_init}

module _ {F : Type 0} where
  update_remote-mac :
      (fo : FloatOps F) (t : Clock) (rssi : ℤ) (rep : OdidReport F) (e : FlockEntry F)
      → (update_remote fo t rssi rep e).mac ≡ e.mac
  unfolding update_remote merge_operator merge_place merge_id note_broadcast
  update_remote-mac fo t rssi rep e = ground arith

  -- The table after a broadcast is stored: as it was, or with one row of the sender written.
  abbrev StoredRemote : Mac → List (FlockEntry F) → List (FlockEntry F) → Type 0
  StoredRemote addr before after =
      (after ≡ before)
      ⊎ ((table : List (FlockEntry F)) × (i : ℕ) × (old : FlockEntry F) × (new : FlockEntry F)
          × Claimed addr before table i old
          × (new.mac ≡ old.mac)
          × (after ≡ set table i new))

  store_remote_at :
      (fo : FloatOps F) (t : Clock) (addr : Mac) (rssi : ℤ) (rep : OdidReport F) (app : ReconApp F)
      (o : Slot F)
      → claim_for (remote_entry fo addr t.tick) app.flock ≡ o
      → SlotOk addr app.flock o
      → StoredRemote addr app.flock (store_remote fo t addr rssi rep app).flock
  unfolding store_remote record_remote
  store_remote_at fo t addr rssi rep app none h k = inl (ground (arith, h))
  store_remote_at fo t addr rssi rep app (some (table, i)) h (e, c) =
      let here = get_or-get_elem? table i e (remote_entry fo addr t.tick) c.here in
      let e' = update_remote fo t rssi rep e in
      inr (
        table,
        i,
        e,
        record e' { alerted = alert_fires app.alert t e e' || e'.alerted },
        c,
        update_remote-mac fo t rssi rep e,
        ground (arith, h, here),
      )

  remote-StoredRemote :
      (fo : FloatOps F) (fl : OdidFloats F) (t : Clock) (addr : Mac) (rssi : ℤ) (payload : Bytes)
      (app : ReconApp F)
      → Wf app
      → StoredRemote addr app.flock (recon_app_report_remote_id fo fl t addr rssi payload app).flock
  unfolding recon_app_report_remote_id count_message remote_entry fresh_entry
  remote-StoredRemote fo fl t addr rssi payload app v =
      let (rep, used) = odid_parse_ble_service_data fl payload (odid_report_init fl) in
      elim (Bool-cases (odid_parse_ble_service_data fl payload (odid_report_init fl)).1) [
        | inl h ↦ rw h (
            store_remote_at fo t addr rssi rep (count_message app)
              (claim_for (remote_entry fo addr t.tick) app.flock) refl
              (claim_for-SlotOk (remote_entry fo addr t.tick) app.flock v.fits v.one_each))
        | inr h ↦ rw h (inl refl)
      ]

  -- After any Remote ID broadcast, if before it, the table fits its 64 rows and has one row for
  -- each device.
  pub remote-Wf :
      (fo : FloatOps F) (fl : OdidFloats F) (t : Clock) (addr : Mac) (rssi : ℤ) (payload : Bytes)
      (app : ReconApp F)
      → Wf app
      → Wf (recon_app_report_remote_id fo fl t addr rssi payload app)
  remote-Wf fo fl t addr rssi payload app v =
      elim (remote-StoredRemote fo fl t addr rssi payload app v) [
        | inl same ↦ record {
          fits = subst (λ l. length l ≤ 64) (sym same) v.fits;
          one_each = subst Distinct (sym same) v.one_each;
        }
        | inr (table, i, old, new, c, m, h) ↦ record {
          fits =
              subst (λ l. length l ≤ 64) (sym h) (omega (arith, length-set table i new, c.no_more));
          one_each =
              subst Distinct (sym h) (Distinct-set_same table i old new c.still_distinct c.here m);
        }
      ]

  -- No channel, and a strongest signal of 0.
  abbrev Frozen : FlockEntry F → Type 0
  Frozen e = (e.channel ≡ 0) × (e.chan_rssi ≡ pos 0)

  -- Sightings of the row, one after the other.
  abbrev pub update_all :
      FloatOps F → GpsState F → List (Clock × Sighting) → FlockEntry F → FlockEntry F
  update_all fo gps [] e = e
  update_all fo gps ((t, s) ∷ ss) e = update_all fo gps ss (update_entry fo gps t s e)

  update_entry-Frozen :
      (fo : FloatOps F) (gps : GpsState F) (t : Clock) (s : Sighting) (e : FlockEntry F)
      → ltb_ℤ s.rssi (pos 0) ≡ true
      → Frozen e
      → Frozen (update_entry fo gps t s e)
  unfolding update_entry note_place note_name note_evidence note_signal
  update_entry-Frozen fo gps t s e neg z = ground (arith, neg, z.0, z.1)

  update_all-Frozen :
      (fo : FloatOps F) (gps : GpsState F) (ss : List (Clock × Sighting)) (e : FlockEntry F)
      → All (λ (x : Clock × Sighting). ltb_ℤ x.1.rssi (pos 0) ≡ true) ss
      → Frozen e
      → Frozen (update_all fo gps ss e)
  update_all-Frozen fo gps [] e neg z = z
  update_all-Frozen fo gps ((t, s) ∷ ss) e neg z =
      update_all-Frozen fo gps ss (update_entry fo gps t s e) neg.1
        (update_entry-Frozen fo gps t s e neg.0 z)

  remote_entry-Frozen :
      (fo : FloatOps F) (t : Clock) (addr : Mac) (rssi : ℤ) (rep : OdidReport F) (now : ℕ)
      → Frozen (update_remote fo t rssi rep (remote_entry fo addr now))
  unfolding update_remote merge_operator merge_place merge_id note_broadcast remote_entry
      fresh_entry
  remote_entry-Frozen fo t addr rssi rep now = ground arith

  -- A row that a Remote ID broadcast makes has no channel, and no number of later sightings of the
  -- device with a reading below 0 dBm gives it one.
  pub channel_never_set :
      (fo : FloatOps F) (gps : GpsState F) (t : Clock) (addr : Mac) (rssi : ℤ) (rep : OdidReport F)
      (now : ℕ) (ss : List (Clock × Sighting))
      → All (λ (x : Clock × Sighting). ltb_ℤ x.1.rssi (pos 0) ≡ true) ss
      → (update_all fo gps ss (update_remote fo t rssi rep (remote_entry fo addr now))).channel ≡ 0
  channel_never_set fo gps t addr rssi rep now ss neg =
      (update_all-Frozen fo gps ss (update_remote fo t rssi rep (remote_entry fo addr now)) neg
        (remote_entry-Frozen fo t addr rssi rep now)).0
