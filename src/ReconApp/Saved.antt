-- ===== src/ReconApp/Saved.antt =====
-- `recon_hits_rec_from_entry` and `recon_hits_add`: a row of the table becomes a line of hits.csv, and
-- a line of an earlier session becomes an archived row.
use flip_de_flock.Common.{
  List, Option, [], ap, arith, false, if◌then◌else◌, leb, length, none, refl, some, suc, take, true,
  zero, ℕ, ◌++◌, ◌-◌, ◌<◌, ◌∙◌, ◌∷◌, ◌≡◌,
}
use flip_de_flock.Common.Int.{pos}
use flip_de_flock.FlockDb.Types.{
  FlockConfidence, FlockDevClass, acoustic, alpr, bodycam, conf_none, confirmed, drone_class, gear,
  likely, possible, probe_fp, rung,
}
use flip_de_flock.FlockStore.Line.{
  FloatText, FlockStoreRec, flock_store_fmt_line, flock_store_label_len, flock_store_ssid_len,
}
use flip_de_flock.FlockStore.Parse.{flock_store_parse_line}
use flip_de_flock.FlockStore.Whole.{line_round_trip, stored}
use flip_de_flock.FlockStore.Width.{IsStorable}
use flip_de_flock.ReconApp.Types.{FlockEntry, recon_flock_max, recon_ssid_len}

-- `FlockDevClass` as the number that a record stores, and the casts back. A record that is read has a
-- rung and a class of at most 4.
abbrev pub class_number : FlockDevClass → ℕ
class_number alpr = 0
class_number acoustic = 1
class_number bodycam = 2
class_number gear = 3
class_number drone_class = 4

abbrev pub class_of : ℕ → FlockDevClass
class_of zero = alpr
class_of (suc zero) = acoustic
class_of (suc (suc zero)) = bodycam
class_of (suc (suc (suc zero))) = gear
class_of (suc (suc (suc (suc n)))) = drone_class

abbrev pub rung_of : ℕ → FlockConfidence
rung_of zero = conf_none
rung_of (suc zero) = possible
rung_of (suc (suc zero)) = likely
rung_of (suc (suc (suc zero))) = probe_fp
rung_of (suc (suc (suc (suc n)))) = confirmed

rung_of-rung : (c : FlockConfidence) → rung_of (rung c) ≡ c
rung_of-rung conf_none = refl
rung_of-rung possible = refl
rung_of-rung likely = refl
rung_of-rung probe_fp = refl
rung_of-rung confirmed = refl

class_of-number : (c : FlockDevClass) → class_of (class_number c) ≡ c
class_of-number alpr = refl
class_of-number acoustic = refl
class_of-number bodycam = refl
class_of-number gear = refl
class_of-number drone_class = refl

module _ {F : Type 0} where
  unfoldable pub recon_hits_rec_from_entry : FlockEntry F → FlockStoreRec F
  recon_hits_rec_from_entry e = record {
    mac = e.mac;
    ssid = take (flock_store_ssid_len - 1) e.ssid;
    rssi = e.rssi;
    channel = e.channel;
    ftype = e.ftype;
    conf = rung e.confidence;
    ie_fp = e.ie_fp;
    lat = e.lat;
    lon = e.lon;
    heading = e.heading;
    count = e.count;
    marked = e.marked;
    seen_by_operator = e.seen_by_operator;
    epoch = e.seen_epoch;
    dev_class = class_number e.dev_class;
    hidden = e.hidden;
    label = take (flock_store_label_len - 1) e.label;
    op_lat = e.op_lat;
    op_lon = e.op_lon;
    ua_type = e.ua_type;
  }

  -- The row of a record. The label's buffer is as long as that of the record.
  unfoldable pub archived_entry : FloatText F → FlockStoreRec F → FlockEntry F
  archived_entry fl r = record {
    mac = r.mac;
    ssid = take (recon_ssid_len - 1) r.ssid;
    rssi = r.rssi;
    channel = r.channel;
    ftype = r.ftype;
    confidence = rung_of r.conf;
    dev_class = class_of r.dev_class;
    hidden = r.hidden;
    probe_rate = 0;
    ble_tell = 0;
    geotag_rssi = if fl.isnan r.lat then pos 0 else r.rssi;
    chan_rssi = r.rssi;
    marked = r.marked;
    seen_by_operator = r.seen_by_operator;
    label = take (flock_store_label_len - 1) r.label;
    alerted = true;
    archived = true;
    ie_fp = r.ie_fp;
    lat = r.lat;
    lon = r.lon;
    heading = r.heading;
    count = r.count;
    first_tick = 0;
    last_tick = 0;
    seen_epoch = r.epoch;
    op_lat = r.op_lat;
    op_lon = r.op_lon;
    ua_type = r.ua_type;
    pos_broadcast = false;
  }

  unfoldable pub recon_hits_add :
      FloatText F → FlockStoreRec F → List (FlockEntry F) → List (FlockEntry F)
  recon_hits_add fl r table =
      if leb recon_flock_max (length table) then table else table ++ archived_entry fl r ∷ []

  -- A record that is added if its line is read.
  abbrev pub add_read :
      FloatText F → Option (FlockStoreRec F) → List (FlockEntry F) → List (FlockEntry F)
  add_read fl none table = table
  add_read fl (some r) table = recon_hits_add fl r table

  -- What the operator finds again: the same device with the same verdict, as a row that is archived
  -- and does not alert.
  pub record Restored (e e' : FlockEntry F) : Type 0 where
    pub mac : e'.mac ≡ e.mac
    pub confidence : e'.confidence ≡ e.confidence
    pub dev_class : e'.dev_class ≡ e.dev_class
    pub rssi : e'.rssi ≡ e.rssi
    pub channel : (e'.channel ≡ e.channel) × (e'.chan_rssi ≡ e.rssi)
    pub marks : (e'.marked ≡ e.marked) × (e'.seen_by_operator ≡ e.seen_by_operator)
    pub hidden : e'.hidden ≡ e.hidden
    pub seen : (e'.count ≡ e.count) × (e'.seen_epoch ≡ e.seen_epoch)
    pub at_rest : (e'.archived ≡ true) × (e'.alerted ≡ true)

  stored-Restored :
      (fl : FloatText F) (e : FlockEntry F)
      → Restored e (archived_entry fl (stored fl (recon_hits_rec_from_entry e)))
  unfolding archived_entry stored recon_hits_rec_from_entry
  stored-Restored fl e = record {
    mac = refl;
    confidence = rung_of-rung e.confidence;
    dev_class = class_of-number e.dev_class;
    rssi = refl;
    channel = (refl, refl);
    marks = (refl, refl);
    hidden = refl;
    seen = (refl, refl);
    at_rest = (refl, refl);
  }

  -- A row whose numbers are in the ranges of their types and whose coordinates are absent or print as
  -- numbers of at most 11 bytes, saved as a line and loaded into a table that has room: the table
  -- gains one row behind the others, with the same address, verdict, class, signal, channel, marks,
  -- count and date, which is archived and marked as announced.
  pub saved_hit_returns :
      (fl : FloatText F) (e : FlockEntry F) (table : List (FlockEntry F))
      → IsStorable fl (recon_hits_rec_from_entry e)
      → length table < 64
      → let line = flock_store_fmt_line fl 256 (recon_hits_rec_from_entry e) in
        (e' : FlockEntry F) × (add_read fl (flock_store_parse_line fl line) table
          ≡ table ++ e' ∷ [])
        × Restored e e'
  unfolding recon_hits_add
  saved_hit_returns fl e table v room =
      let r = recon_hits_rec_from_entry e in
      let no_limit : leb recon_flock_max (length table) ≡ false = ground arith in
      (
        archived_entry fl (stored fl r),
        ap (λ o. add_read fl o table) (line_round_trip fl r 256 v (omega arith)) ∙ rw no_limit refl,
        stored-Restored fl e,
      )
