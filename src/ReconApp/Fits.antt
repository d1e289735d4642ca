-- ===== src/ReconApp/Fits.antt =====
-- Each operation on a table keeps it within its array.
use flip_de_flock.Common.{
  Bool-cases, List, Option, [], ap, arith, get_or, inl, inr, length, length-append, length-set, ltb,
  none, not, refl, set, some, suc, ℕ, ◌&&◌, ◌++◌, ◌==◌, ◌||◌, ◌∷◌, ◌≡◌, ◌≤◌,
}
use flip_de_flock.Common.Mac.{Mac, mac_eq}
use flip_de_flock.EspParser.Message.{BleMsg, WifiMsg}
use flip_de_flock.FlockDb.Types.{Extras, conf_eq, conf_none}
use flip_de_flock.GpsParser.{GpsFloats}
use flip_de_flock.ReconApp.Ble.{
  BleDevice, BleTable, ble_cat_axon, ble_cat_flock, ble_cat_of, ble_model_of, ble_serial_of,
  ble_sighting, device_row, find_device, fresh_device, recon_app_ble_add, recon_ble_max, reuse_row,
  stalest_from, update_device, write_device,
}
use flip_de_flock.ReconApp.Dumps.{Found, locate_row-Found}
use flip_de_flock.ReconApp.Gates.{report-Wf}
use flip_de_flock.ReconApp.Report.{recon_app_report_flock}
use flip_de_flock.ReconApp.Rows.{Apart, Distinct}
use flip_de_flock.ReconApp.Survey.{
  Spot, SurveyEntry, SurveyLine, admit_row, better_tell, blank_row, heard_again, least_row,
  locate_row, recon_app_set_ble_tell, recon_app_survey_add, recon_survey_max, rows_after,
  survey_confidence, survey_sighting, tell_rows, update_row,
}
use flip_de_flock.ReconApp.Table.{Wf}
use flip_de_flock.ReconApp.Types.{Clock, FloatOps, FlockEntry, ReconApp}
use flip_de_flock.ReconApp.Wifi.{WifiTable, access_point, recon_app_wifi_add, recon_wifi_max}

admit_row-fits :
    (l : SurveyLine) (rows : List SurveyEntry) → length rows ≤ 48 → length (admit_row l rows) ≤ 48
unfolding admit_row
admit_row-fits l rows h =
    let fresh = update_row l (blank_row l.mac) in
    elim (Bool-cases (ltb (length rows) recon_survey_max)) [
      | inl room ↦ rw room (ground (arith, length-append rows (fresh ∷ []), room))
      | inr full ↦ elim (Bool-cases (ltb (least_row rows).1 l.count)) [
        | inl weaker ↦ rw (full, weaker) (omega (arith, length-set rows (least_row rows).0 fresh))
        | inr stronger ↦ rw (full, stronger) h
      ]
    ]

spot-fits :
    (l : SurveyLine) (rows : List SurveyEntry) (o : Spot)
    → Found l.mac rows o
    → length rows ≤ 48
    → length (rows_after l rows o) ≤ 48
spot-fits l rows none f h = admit_row-fits l rows h
spot-fits l rows (some (front, e, back)) f h = omega (
  arith,
  ap length f.0,
  length-append front (e ∷ back),
  length-append front (update_row l e ∷ back),
)

pub wifi-fits :
    (m : WifiMsg) (table : WifiTable)
    → length table.aps ≤ 8
    → length (recon_app_wifi_add m table).aps ≤ 8
unfolding recon_app_wifi_add
wifi-fits m table h = elim (Bool-cases (ltb (length table.aps) recon_wifi_max)) [
  | inl room ↦ rw room (ground (arith, room, length-append table.aps (access_point m ∷ [])))
  | inr full ↦ rw full h
]

module _ {F : Type 0} where
  -- The BLE devices after an advert.
  write_device-fits :
      (fresh : BleDevice F) (rows : List (BleDevice F)) (update : BleDevice F → BleDevice F)
      (o : Option ℕ)
      → length rows ≤ 8
      → length (write_device fresh rows update (device_row fresh rows o)) ≤ 8
  write_device-fits fresh rows update (some i) h =
      omega (arith, length-set rows i (update (get_or rows i fresh)))
  write_device-fits fresh rows update none h = elim (Bool-cases (ltb (length rows) recon_ble_max)) [
    | inl room ↦
        let longer = rows ++ fresh ∷ [] in
        rw room (
          ground (
            arith,
            room,
            length-append rows (fresh ∷ []),
            length-set longer (length rows) (update (get_or longer (length rows) fresh)),
          ))
    | inr full ↦ rw full (reused (stalest_from 0 none rows))
  ]
    where
      reused :
          (o : Option (ℕ × ℕ))
          → length (write_device fresh rows update (reuse_row fresh rows o)) ≤ 8
      reused none = h
      reused (some (v, tick)) =
          let written = set rows v fresh in
          omega
            (arith, length-set rows v fresh, length-set written v (update (get_or written v fresh)))

  -- A tell changes neither the addresses of the rows nor their number.
  tell_rows-length :
      (mac : Mac) (tell : ℕ) (es : List (FlockEntry F)) → length (tell_rows mac tell es) ≡ length es
  unfolding tell_rows
  tell_rows-length mac tell [] = refl
  tell_rows-length mac tell (e ∷ es) = elim (Bool-cases (mac_eq e.mac mac)) [
    | inl here ↦ rw here refl
    | inr there ↦ rw there (ap suc (tell_rows-length mac tell es))
  ]

  better_tell-mac : (tell : ℕ) (e : FlockEntry F) → (better_tell tell e).mac ≡ e.mac
  better_tell-mac tell e =
      elim (Bool-cases (not (tell == 0) && (e.ble_tell == 0 || ltb tell e.ble_tell))) [
        | inl better ↦ rw better refl
        | inr worse ↦ rw worse refl
      ]

  tell_rows-Apart :
      (x mac : Mac) (tell : ℕ) (es : List (FlockEntry F))
      → Apart x es
      → Apart x (tell_rows mac tell es)
  unfolding tell_rows
  tell_rows-Apart x mac tell [] a = tt
  tell_rows-Apart x mac tell (e ∷ es) a = elim (Bool-cases (mac_eq e.mac mac)) [
    | inl here ↦ rw (here, better_tell-mac tell e) a
    | inr there ↦ rw there (a.0, tell_rows-Apart x mac tell es a.1)
  ]

  tell_rows-Distinct :
      (mac : Mac) (tell : ℕ) (es : List (FlockEntry F))
      → Distinct es
      → Distinct (tell_rows mac tell es)
  unfolding tell_rows
  tell_rows-Distinct mac tell [] d = tt
  tell_rows-Distinct mac tell (e ∷ es) d = elim (Bool-cases (mac_eq e.mac mac)) [
    | inl here ↦ rw (here, better_tell-mac tell e) d
    | inr there ↦
        rw there (tell_rows-Apart e.mac mac tell es d.0, tell_rows-Distinct mac tell es d.1)
  ]

  tell-Wf :
      (mac : Mac) (tell : ℕ) (app : ReconApp F) → Wf app → Wf (recon_app_set_ble_tell mac tell app)
  unfolding recon_app_set_ble_tell
  tell-Wf mac tell app v = record {
    fits = omega (arith, tell_rows-length mac tell app.flock, v.fits);
    one_each = tell_rows-Distinct mac tell app.flock v.one_each;
  }

  pub ble_app-Wf :
      (fo : FloatOps F) (gf : GpsFloats F) (ex : Extras) (t : Clock) (m : BleMsg)
      (table : BleTable F) (app : ReconApp F)
      → Wf app
      → Wf (recon_app_ble_add fo gf ex t m (table, app)).1
  unfolding recon_app_ble_add
  ble_app-Wf fo gf ex t m table app v =
      let cat = ble_cat_of m.cat m.name in
      elim (Bool-cases (cat == ble_cat_flock || cat == ble_cat_axon)) [
        | inl known ↦ rw known (
            tell-Wf m.addr _ (recon_app_report_flock fo t (ble_sighting cat m) app)
              (report-Wf fo t (ble_sighting cat m) app v))
        | inr other ↦ rw other v
      ]

  pub ble_rows-fit :
      (fo : FloatOps F) (gf : GpsFloats F) (ex : Extras) (t : Clock) (m : BleMsg)
      (table : BleTable F) (app : ReconApp F)
      → length table.devices ≤ 8
      → length (recon_app_ble_add fo gf ex t m (table, app)).0.devices ≤ 8
  unfolding recon_app_ble_add
  ble_rows-fit fo gf ex t m table app h =
      let cat = ble_cat_of m.cat m.name in
      let serial = ble_serial_of cat m in
      write_device-fits (fresh_device gf app.gps m.addr t.tick) table.devices
        (update_device app.gps t.tick cat serial (ble_model_of cat serial m) m)
        (find_device m.addr 0 table.devices) h

  pub survey_app-Wf :
      (fo : FloatOps F) (ex : Extras) (t : Clock) (l : SurveyLine) (rows : List SurveyEntry)
      (app : ReconApp F)
      → Wf app
      → Wf (recon_app_survey_add fo ex t l (rows, app)).1
  unfolding recon_app_survey_add
  survey_app-Wf fo ex t l rows app v =
      let conf = survey_confidence ex l in
      elim (Bool-cases (heard_again l (locate_row l.mac rows) && not (conf_eq conf conf_none))) [
        | inl reported ↦ rw reported (report-Wf fo t (survey_sighting l conf) app v)
        | inr quiet ↦ rw quiet v
      ]

  pub survey_rows-fit :
      (fo : FloatOps F) (ex : Extras) (t : Clock) (l : SurveyLine) (rows : List SurveyEntry)
      (app : ReconApp F)
      → length rows ≤ 48
      → length (recon_app_survey_add fo ex t l (rows, app)).0 ≤ 48
  unfolding recon_app_survey_add
  survey_rows-fit fo ex t l rows app h =
      spot-fits l rows (locate_row l.mac rows) (locate_row-Found l.mac rows) h
