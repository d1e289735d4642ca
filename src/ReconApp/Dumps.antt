-- ===== src/ReconApp/Dumps.antt =====
-- The survey, when a line of a dump is repeated.
use flip_de_flock.Common.{
  Bool, Bool-cases, List, [], ap, arith, false, if◌then◌else◌, inl, inr, length, ltb, none, not,
  refl, set, some, suc, take, true, zero, ℕ, ◌&&◌, ◌++◌, ◌+◌, ◌<◌, ◌==◌, ◌||◌, ◌∷◌, ◌≡◌, ◌≢◌, ◌⊎◌,
}
use flip_de_flock.Common.Bytes.{is_empty}
use flip_de_flock.Common.Int.{ltb_ℤ, ℤ}
use flip_de_flock.Common.Mac.{Mac, mac_eq, mac_eq_refl}
use flip_de_flock.Common.Search.{All, Exists}
use flip_de_flock.FlockDb.Types.{Extras}
use flip_de_flock.ReconApp.Survey.{
  Spot, SurveyEntry, SurveyLine, admit_row, behind, blank_row, least_from, least_row, locate_row,
  recon_app_survey_add, recon_survey_max, rows_after, text_or_empty, update_row,
}
use flip_de_flock.ReconApp.Types.{Clock, FloatOps, ReconApp, is_zero_ℤ}

-- Rows in front of the spot have other addresses.
abbrev NoneHas : Mac → List SurveyEntry → Type 0
NoneHas mac rows = All (λ e. mac_eq e.mac mac ≡ false) rows

locate_row-lem :
    (mac : Mac) (front back : List SurveyEntry) (e : SurveyEntry)
    → NoneHas mac front
    → mac_eq e.mac mac ≡ true
    → locate_row mac (front ++ e ∷ back) ≡ some (front, e, back)
unfolding locate_row
locate_row-lem mac [] back e a h = rw h
locate_row-lem mac (x ∷ front) back e a h = rw (a.0, locate_row-lem mac front back e a.1 h)

-- What a search finds.
abbrev pub Found : Mac → List SurveyEntry → Spot → Type 0
Found mac rows none = NoneHas mac rows
Found mac rows (some (front, e, back)) =
    (rows ≡ front ++ e ∷ back) × NoneHas mac front × (mac_eq e.mac mac ≡ true)

pub locate_row-Found : (mac : Mac) (rows : List SurveyEntry) → Found mac rows (locate_row mac rows)
unfolding locate_row
locate_row-Found mac [] = tt
locate_row-Found mac (x ∷ rows) = elim (Bool-cases (mac_eq x.mac mac)) [
  | inl same ↦ rw same (refl, tt, same)
  | inr other ↦ rw other (one_more x (locate_row mac rows) other (locate_row-Found mac rows))
]
  where
    one_more :
        (x : SurveyEntry) (o : Spot)
        → mac_eq x.mac mac ≡ false
        → Found mac rows o
        → Found mac (x ∷ rows) (behind x o)
    one_more x none h f = (h, f)
    one_more x (some (front, e, back)) h f = (ap (λ l. x ∷ l) f.0, (h, f.1), f.2)

update_row-mac : (l : SurveyLine) (e : SurveyEntry) → (update_row l e).mac ≡ e.mac
unfolding update_row
update_row-mac l e = refl

update_row-mac_eq :
    (l : SurveyLine) (e : SurveyEntry)
    → mac_eq e.mac l.mac ≡ true
    → mac_eq (update_row l e).mac l.mac ≡ true
unfolding update_row
update_row-mac_eq l e h = h

update_row-count : (l : SurveyLine) (e : SurveyEntry) → (update_row l e).count ≡ l.count
unfolding update_row
update_row-count l e = refl

if_same : {A : Type 0} (b : Bool) (x : A) → (if b then x else x) ≡ x
if_same true x = refl
if_same false x = refl

abbrev is_louder : SurveyLine → SurveyEntry → Bool
is_louder l e = ltb_ℤ e.rssi l.rssi || is_zero_ℤ e.rssi

abbrev names_it : SurveyLine → SurveyEntry → Bool
names_it l e = not (is_empty (text_or_empty l.sig)) && is_empty e.sig

-- Writing a line into its row once more changes nothing.
update_row_idem :
    (l : SurveyLine) (e : SurveyEntry) → update_row l (update_row l e) ≡ update_row l e
unfolding update_row
update_row_idem l e = elim (Bool-cases (is_louder l e)) [
  | inl loud ↦
      rw
        (
          loud,
          if_same (ltb_ℤ l.rssi l.rssi || is_zero_ℤ l.rssi) l.rssi,
          if_same (ltb_ℤ l.rssi l.rssi || is_zero_ℤ l.rssi) l.channel,
        )
        (sig_part (l.rssi) (l.channel))
  | inr quiet ↦ rw (quiet, quiet) (sig_part e.rssi e.channel)
]
  where
    sig_part :
        (r : ℤ) (c : ℕ)
        → ◌≡◌ {A = SurveyEntry}
            (record {
              mac = e.mac;
              fp = l.fp;
              fp2 = if l.fp2 == 0 then (if l.fp2 == 0 then e.fp2 else l.fp2) else l.fp2;
              rssi = r;
              channel = c;
              count = l.count;
              sig =
                  let s = if names_it l e then take 71 (text_or_empty l.sig) else e.sig in
                  if not (is_empty (text_or_empty l.sig)) && is_empty s
                  then take 71 (text_or_empty l.sig)
                  else s;
            })
            (record {
              mac = e.mac;
              fp = l.fp;
              fp2 = if l.fp2 == 0 then e.fp2 else l.fp2;
              rssi = r;
              channel = c;
              count = l.count;
              sig = if names_it l e then take 71 (text_or_empty l.sig) else e.sig;
            })
    sig_part r c = elim (Bool-cases (l.fp2 == 0)) [
      | inl unset ↦ elim (Bool-cases (names_it l e)) [
        | inl named ↦ rw (
          unset,
          named,
          if_same (not (is_empty (text_or_empty l.sig)) && is_empty (take 71 (text_or_empty l.sig)))
              (take 71 (text_or_empty l.sig)),
        )
        | inr kept ↦ rw (unset, kept, kept)
      ]
      | inr given ↦ elim (Bool-cases (names_it l e)) [
        | inl named ↦ rw (
          given,
          named,
          if_same (not (is_empty (text_or_empty l.sig)) && is_empty (take 71 (text_or_empty l.sig)))
              (take 71 (text_or_empty l.sig)),
        )
        | inr kept ↦ rw (given, kept, kept)
      ]
    ]

-- The survey after a line that has a row.
HasRow : SurveyLine → List SurveyEntry → Type 0
HasRow l rows =
    (front : List SurveyEntry) × (e : SurveyEntry) × (back : List SurveyEntry) × (rows
      ≡ front ++ update_row l e ∷ back)
    × NoneHas l.mac front
    × (mac_eq e.mac l.mac ≡ true)

-- What the search for the least row gives.
least_from-lt :
    (i v least : ℕ) (es : List SurveyEntry) → v < i → (least_from i v least es).0 < i + length es
unfolding least_from
least_from-lt i v least [] h = omega (arith, h)
least_from-lt i v least (e ∷ es) h =
    let next : (if ltb e.count least then i else v) < i + 1 = ground (arith, h) in
    omega (
      arith,
      least_from-lt (i + 1) (if ltb e.count least then i else v)
          (if ltb e.count least then e.count else least) es next,
    )

least_from-below :
    (i v least bound : ℕ) (es : List SurveyEntry)
    → (least < bound) ⊎ Exists (λ e. e.count < bound) es
    → (least_from i v least es).1 < bound
unfolding least_from
least_from-below i v least bound [] (inl h) = h
least_from-below i v least bound [] (inr h) = elim h [ ]
least_from-below i v least bound (e ∷ es) h =
    least_from-below (i + 1) (if ltb e.count least then i else v)
      (if ltb e.count least then e.count else least) bound es
      (elim h [
        | inl low ↦ inl (ground (arith, low))
        | inr (inl here) ↦ inl (ground (arith, here))
        | inr (inr later) ↦ inr later
      ])

least_row-lt : (rows : List SurveyEntry) → 0 < length rows → (least_row rows).0 < length rows
least_row-lt [] h = absurd (omega (arith, h))
least_row-lt (e ∷ es) h = omega (arith, least_from-lt 1 0 e.count es (omega arith))

least_row-below :
    (rows : List SurveyEntry) (bound : ℕ)
    → Exists (λ e. e.count < bound) rows
    → (least_row rows).1 < bound
least_row-below [] bound h = elim h [ ]
least_row-below (e ∷ es) bound h = least_from-below 1 0 e.count bound es h

-- A row that is overwritten, between the rows on both sides of it.
set-split :
    (mac : Mac) (rows : List SurveyEntry) (v : ℕ) (x : SurveyEntry)
    → v < length rows
    → NoneHas mac rows
    → (front : List SurveyEntry) × (back : List SurveyEntry) × (set rows v x ≡ front ++ x ∷ back)
      × NoneHas mac front
set-split mac [] v x h a = absurd (omega (arith, h))
set-split mac (e ∷ es) zero x h a = ([], es, refl, tt)
set-split mac (e ∷ es) (suc v) x h a =
    let (front, back, same, others) = set-split mac es v x (omega (arith, h)) a.1 in
    (e ∷ front, back, ap (λ l. e ∷ l) same, (a.0, others))

-- The line gets a row: it has one, or there is room, or a device with a lower total gives way.
abbrev pub GetsRow : SurveyLine → List SurveyEntry → Type 0
GetsRow l rows =
    (locate_row l.mac rows ≢ none) ⊎ ((length rows < 48) ⊎ Exists (λ e. e.count < l.count) rows)

rows_after-HasRow :
    (l : SurveyLine) (rows : List SurveyEntry) (o : Spot)
    → Found l.mac rows o
    → (o ≢ none) ⊎ ((length rows < 48) ⊎ Exists (λ e. e.count < l.count) rows)
    → HasRow l (rows_after l rows o)
unfolding HasRow
rows_after-HasRow l rows (some (front, e, back)) f h = (front, e, back, refl, f.1, f.2)
rows_after-HasRow l rows none f (inl h) = absurd (h refl)
rows_after-HasRow l rows none f (inr h) =
    let fresh = update_row l (blank_row l.mac) in
    elim (Bool-cases (ltb (length rows) recon_survey_max)) [
      | inl room ↦ (rows, blank_row l.mac, [], unfold admit_row in rw room, f, mac_eq_refl l.mac)
      | inr full ↦ elim h [
        | inl few ↦ absurd (ground (arith, few, full))
        | inr weaker ↦
            let low : ltb (least_row rows).1 l.count ≡ true =
              ground (arith, least_row-below rows l.count weaker) in
            let (front, back, same, others) =
              set-split l.mac rows (least_row rows).0 fresh
                (least_row-lt rows (ground (arith, full))) f in
            (
              front,
              blank_row l.mac,
              back,
              unfold admit_row in rw (full, low) same,
              others,
              mac_eq_refl l.mac,
            )
      ]
    ]

module _ {F : Type 0} where
  again :
      (fo : FloatOps F) (ex : Extras) (u : Clock) (l : SurveyLine) (rows : List SurveyEntry)
      (app : ReconApp F)
      → HasRow l rows
      → recon_app_survey_add fo ex u l (rows, app) ≡ (rows, app)
  unfolding recon_app_survey_add HasRow update_row
  again fo ex u l rows app (front, e, back, same, others, its) =
      let there =
        locate_row-lem l.mac front back (update_row l e) others (update_row-mac_eq l e its) in
      let not_more : ltb l.count l.count ≡ false = ground arith in
      rw (same, there, update_row-count l e, not_more)
        (ap (λ x. (front ++ x ∷ back, app)) (update_row_idem l e))

  -- A line of a dump that is heard again, word for word, after its device had a row or got one, be it
  -- a new one in a survey with room or, in a full one, that of a device with a lower total: neither
  -- the survey nor anything else changes, and nothing is reported.
  pub repeat_absorbed :
      (fo : FloatOps F) (ex : Extras) (t u : Clock) (l : SurveyLine) (rows : List SurveyEntry)
      (app : ReconApp F)
      → GetsRow l rows
      → let once = recon_app_survey_add fo ex t l (rows, app) in
        recon_app_survey_add fo ex u l once ≡ once
  repeat_absorbed fo ex t u l rows app h =
      let once = recon_app_survey_add fo ex t l (rows, app) in
      again fo ex u l once.0 once.1 (
        unfold recon_app_survey_add in
        rows_after-HasRow l rows (locate_row l.mac rows) (locate_row-Found l.mac rows) h)
