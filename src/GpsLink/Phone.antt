-- ===== src/GpsLink/Phone.antt =====
-- helpers/gps_rpc.c: the phone's answers, the position, and the badge that tells the operator which
-- answer came last.
use flip_de_flock.Common.{
  Bool, Bool-cases, Option, false, if◌then◌else◌, inl, inr, none, refl, some, true, ℕ, ◌≡◌, ◌≢◌,
}
use flip_de_flock.Common.Int.{ltb_ℤ, negsuc, pos, ℤ}
use flip_de_flock.GpsLink.{apply_fix, gps_publish_fix}
use flip_de_flock.GpsParser.{GpsFloats, NmeaFix, gps_coord_sane}
use flip_de_flock.GpsParser.Convert.{convert_gate, gps_rpc_convert}
use flip_de_flock.ReconApp.Types.{GpsState}

-- What the code tells apart of the firmware's status.
pub data GpsStatus : Type 0 where
  status_ok : GpsStatus
  status_no_permission : GpsStatus
  status_disabled : GpsStatus
  status_not_supported : GpsStatus
  status_other : GpsStatus

-- `ReconGpsPhoneState`
pub data PhoneState : Type 0 where
  phone_off : PhoneState
  phone_unsupported : PhoneState
  phone_waiting : PhoneState
  phone_no_client : PhoneState
  phone_streaming : PhoneState
  phone_coarse : PhoneState
  phone_no_permission : PhoneState
  phone_disabled : PhoneState
  phone_no_fix : PhoneState
  phone_error : PhoneState

-- The fields of the firmware's `GpsLocation` that are read.
pub record GpsLocation : Type 0 where
  pub latitude : ℤ
  pub longitude : ℤ
  pub heading : ℕ
  pub speed : ℕ
  pub accuracy : ℕ
  pub satellites : ℕ

abbrev pub refusal : GpsStatus → PhoneState
refusal status_no_permission = phone_no_permission
refusal status_disabled = phone_disabled
refusal status_not_supported = phone_no_fix
refusal status_ok = phone_error
refusal status_other = phone_error

-- The location behind a status, if it is to be used.
abbrev pub answer : GpsStatus → Option GpsLocation → Option GpsLocation
answer status_ok l = l
answer status_no_permission l = none
answer status_disabled l = none
answer status_not_supported l = none
answer status_other l = none

module _ {F : Type 0} (fl : GpsFloats F) where
  abbrev pub publish_location :
      ℕ → GpsStatus → Option GpsLocation → GpsState F → GpsState F × PhoneState
  publish_location now st none gps =
      let nowhere = fl.of_ℤ (pos 0) in
      (gps_publish_fix fl now nowhere nowhere (negsuc 0) false gps, refusal st)
  publish_location now st (some l) gps =
      let fix =
        gps_rpc_convert fl l.latitude l.longitude l.heading l.speed l.accuracy l.satellites in
      (apply_fix fl now (some fix) gps, if fix.valid then phone_streaming else phone_coarse)

  -- The position and the badge after a callback at the time `now`.
  unfoldable pub gps_rpc_on_location :
      ℕ → GpsStatus → Option GpsLocation → GpsState F → GpsState F × PhoneState
  gps_rpc_on_location now st location gps = publish_location now st (answer st location) gps

  refusal-not_streaming : (st : GpsStatus) → refusal st ≢ phone_streaming
  refusal-not_streaming status_no_permission e = cc
  refusal-not_streaming status_disabled e = cc
  refusal-not_streaming status_not_supported e = cc
  refusal-not_streaming status_ok e = cc
  refusal-not_streaming status_other e = cc

  -- A badge with the position: it says that a fix has arrived just when the position counts as one,
  -- and then the fix is of now, in a sane place.
  pub record IsHonest (now : ℕ) (after : GpsState F × PhoneState) : Type 0 where
    pub streaming :
        after.1 ≡ phone_streaming
        → (after.0.valid ≡ true)
          × (after.0.fix_tick ≡ now)
          × (gps_coord_sane fl after.0.lat after.0.lon ≡ true)
    pub otherwise : after.1 ≢ phone_streaming → after.0.valid ≡ false

  cleared :
      (now : ℕ) (lat lon : F) (sats : ℤ) (gps : GpsState F)
      → (gps_publish_fix fl now lat lon sats false gps).valid ≡ false
  unfolding gps_publish_fix
  cleared now lat lon sats gps = elim (Bool-cases (ltb_ℤ sats (pos 0))) [
    | inl unreported ↦ rw unreported refl
    | inr reported ↦ rw reported refl
  ]

  placed :
      (now : ℕ) (lat lon : F) (sats : ℤ) (gps : GpsState F)
      → gps_coord_sane fl lat lon ≡ true
      → let r = gps_publish_fix fl now lat lon sats true gps in
        (r.valid ≡ true) × (r.fix_tick ≡ now) × (r.lat ≡ lat) × (r.lon ≡ lon)
  unfolding gps_publish_fix
  placed now lat lon sats gps sane = elim (Bool-cases (ltb_ℤ sats (pos 0))) [
    | inl unreported ↦ rw (sane, unreported) (refl, refl, refl, refl)
    | inr reported ↦ rw (sane, reported) (refl, refl, refl, refl)
  ]

  published-IsHonest :
      (now : ℕ) (lat lon : F) (sats : ℤ) (valid : Bool) (gps : GpsState F)
      → (valid ≡ true → gps_coord_sane fl lat lon ≡ true)
      → IsHonest now (
        gps_publish_fix fl now lat lon sats valid gps,
        if valid then phone_streaming else phone_coarse,
      )
  published-IsHonest now lat lon sats true gps h =
      let (v, t, a, o) = placed now lat lon sats gps (h refl) in
      record { streaming = λ e. (v, t, rw (a, o) (h refl)); otherwise = λ e. absurd (e refl) }
  published-IsHonest now lat lon sats false gps h = record {
    streaming = λ e. cc;
    otherwise = λ e. cleared now lat lon sats gps;
  }

  fix-IsHonest :
      (now : ℕ) (fix : NmeaFix F) (gps : GpsState F)
      → (fix.valid ≡ true → gps_coord_sane fl fix.lat fix.lon ≡ true)
      → IsHonest now
          (apply_fix fl now (some fix) gps, if fix.valid then phone_streaming else phone_coarse)
  fix-IsHonest now fix gps h =
      let p = published-IsHonest now fix.lat fix.lon fix.sats fix.valid gps h in
      elim (Bool-cases fix.has_course) [
        | inl course ↦ rw course (record { streaming = p.streaming; otherwise = p.otherwise })
        | inr none_given ↦ rw none_given p
      ]

  publish-IsHonest :
      (now : ℕ) (st : GpsStatus) (o : Option GpsLocation) (gps : GpsState F)
      → IsHonest now (publish_location now st o gps)
  publish-IsHonest now st none gps = record {
    streaming = λ e. absurd (refusal-not_streaming st e);
    otherwise = λ e. cleared now (fl.of_ℤ (pos 0)) (fl.of_ℤ (pos 0)) (negsuc 0) gps;
  }
  publish-IsHonest now st (some l) gps =
      fix-IsHonest now
        (gps_rpc_convert fl l.latitude l.longitude l.heading l.speed l.accuracy l.satellites) gps
        (λ h.
          ((convert_gate fl l.latitude l.longitude l.heading l.speed l.accuracy l.satellites).0
            h).0)

  -- After any answer of the phone, whatever was known before: the badge says that a fix has arrived
  -- just when the position counts as one, and then the fix is stamped with the time of the answer and
  -- in a sane place.
  pub on_location-IsHonest :
      (now : ℕ) (st : GpsStatus) (location : Option GpsLocation) (gps : GpsState F)
      → IsHonest now (gps_rpc_on_location now st location gps)
  unfolding gps_rpc_on_location
  on_location-IsHonest now st location gps = publish-IsHonest now st (answer st location) gps
