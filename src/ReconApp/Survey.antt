-- ===== src/ReconApp/Survey.antt =====
-- `recon_app_survey_add` and `recon_app_set_ble_tell`.
use flip_de_flock.Common.{
  Bool, List, Option, [], false, if◌then◌else◌, length, ltb, none, not, set, some, take, true, ℕ,
  ◌&&◌, ◌++◌, ◌+◌, ◌-◌, ◌==◌, ◌||◌, ◌∷◌,
}
use flip_de_flock.Common.Bytes.{Bytes, is_empty}
use flip_de_flock.Common.Int.{ltb_ℤ, pos, ℤ}
use flip_de_flock.Common.Mac.{Mac, mac_eq}
use flip_de_flock.FlockDb.Fingerprint.{flock_ie_fp_confidence, flock_mac_pin_confidence}
use flip_de_flock.FlockDb.Types.{Extras, FlockConfidence, alpr, conf_eq, conf_none, rung}
use flip_de_flock.ReconApp.Report.{recon_app_report_flock}
use flip_de_flock.ReconApp.Types.{Clock, FloatOps, FlockEntry, ReconApp, Sighting, is_zero_ℤ}

pub record SurveyEntry : Type 0 where
  pub mac : Mac
  pub fp : ℕ
  pub fp2 : ℕ
  pub rssi : ℤ
  pub channel : ℕ
  pub count : ℕ
  pub sig : Bytes

-- The arguments of `recon_app_survey_add`. `sig` may be NULL.
pub record SurveyLine : Type 0 where
  pub mac : Mac
  pub fp : ℕ
  pub rssi : ℤ
  pub channel : ℕ
  pub count : ℕ
  pub fp2 : ℕ
  pub sig : Option Bytes

abbrev pub recon_survey_max : ℕ
recon_survey_max = 48

abbrev pub recon_survey_sig_len : ℕ
recon_survey_sig_len = 72

-- The first row with the address, and the rows on both sides of it.
abbrev pub Spot : Type 0
Spot = Option (List SurveyEntry × SurveyEntry × List SurveyEntry)

abbrev pub behind : SurveyEntry → Spot → Spot
behind e none = none
behind e (some (front, x, back)) = some (e ∷ front, x, back)

unfoldable pub locate_row : Mac → List SurveyEntry → Spot
locate_row mac [] = none
locate_row mac (e ∷ es) =
    let later = behind e (locate_row mac es) in if mac_eq e.mac mac then some ([], e, es) else later

-- The row of least count, the first of those: its index and its count.
unfoldable pub least_from : ℕ → ℕ → ℕ → List SurveyEntry → ℕ × ℕ
least_from i v least [] = (v, least)
least_from i v least (e ∷ es) =
    least_from (i + 1) (if ltb e.count least then i else v)
      (if ltb e.count least then e.count else least) es

abbrev pub least_row : List SurveyEntry → ℕ × ℕ
least_row [] = (0, 0)
least_row (e ∷ es) = least_from 1 0 e.count es

abbrev pub blank_row : Mac → SurveyEntry
blank_row mac = record {
  mac = mac;
  fp = 0;
  fp2 = 0;
  rssi = pos 0;
  channel = 0;
  count = 0;
  sig = [];
}

abbrev pub text_or_empty : Option Bytes → Bytes
text_or_empty none = []
text_or_empty (some s) = s

-- What a line writes into its row.
unfoldable pub update_row : SurveyLine → SurveyEntry → SurveyEntry
update_row l e =
    let louder = ltb_ℤ e.rssi l.rssi || is_zero_ℤ e.rssi in
    record e {
      count = l.count;
      fp = l.fp;
      rssi = if louder then l.rssi else e.rssi;
      channel = if louder then l.channel else e.channel;
      fp2 = if l.fp2 == 0 then e.fp2 else l.fp2;
      sig =
          if not (is_empty (text_or_empty l.sig)) && is_empty e.sig
          then take (recon_survey_sig_len - 1) (text_or_empty l.sig)
          else e.sig;
    }

-- A device without a row: it gets a new one, or that of the device seen least, or none.
unfoldable pub admit_row : SurveyLine → List SurveyEntry → List SurveyEntry
admit_row l rows =
    let fresh = update_row l (blank_row l.mac) in
    let (v, least) = least_row rows in
    if ltb (length rows) recon_survey_max
    then rows ++ fresh ∷ []
    else if ltb least l.count
    then set rows v fresh
    else rows

abbrev pub rows_after : SurveyLine → List SurveyEntry → Spot → List SurveyEntry
rows_after l rows none = admit_row l rows
rows_after l rows (some (front, e, back)) = front ++ update_row l e ∷ back

-- Whether the device was heard since the last dump: its total has grown, or it had no row.
abbrev pub heard_again : SurveyLine → Spot → Bool
heard_again l none = true
heard_again l (some (front, e, back)) = ltb e.count l.count

-- The better of the two reasons to report.
unfoldable pub survey_confidence : Extras → SurveyLine → FlockConfidence
survey_confidence ex l =
    let fp_conf = flock_ie_fp_confidence ex l.fp (some l.mac) in
    let pin_conf = flock_mac_pin_confidence ex (some l.mac) in
    if ltb (rung fp_conf) (rung pin_conf) then pin_conf else fp_conf

abbrev pub survey_sighting : SurveyLine → FlockConfidence → Sighting
survey_sighting l conf = record {
  mac = l.mac;
  ssid = some [];
  rssi = l.rssi;
  channel = l.channel;
  ftype = b'F';
  confidence = conf;
  ie_fp = l.fp;
  dev_class = alpr;
  hidden = false;
  probe_rate = 0;
}

module _ {F : Type 0} where
  unfoldable pub recon_app_survey_add :
      FloatOps F
      → Extras
      → Clock
      → SurveyLine
      → List SurveyEntry × ReconApp F
      → List SurveyEntry × ReconApp F
  recon_app_survey_add fo ex t l (rows, app) =
      let spot = locate_row l.mac rows in
      let conf = survey_confidence ex l in
      (
        rows_after l rows spot,
        if heard_again l spot && not (conf_eq conf conf_none)
            then recon_app_report_flock fo t (survey_sighting l conf) app
            else app,
      )

  -- The stronger tell stays: a lower number that is not zero.
  abbrev pub better_tell : ℕ → FlockEntry F → FlockEntry F
  better_tell tell e =
      if not (tell == 0) && (e.ble_tell == 0 || ltb tell e.ble_tell)
      then record e { ble_tell = tell }
      else e

  unfoldable pub tell_rows : Mac → ℕ → List (FlockEntry F) → List (FlockEntry F)
  tell_rows mac tell [] = []
  tell_rows mac tell (e ∷ es) =
      let rest = e ∷ tell_rows mac tell es in
      if mac_eq e.mac mac then better_tell tell e ∷ es else rest

  unfoldable pub recon_app_set_ble_tell : Mac → ℕ → ReconApp F → ReconApp F
  unfolding tell_rows
  recon_app_set_ble_tell mac tell app = record app { flock = tell_rows mac tell app.flock }
