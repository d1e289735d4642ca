-- ===== src/SurveyRank.antt =====
-- helpers/survey_rank.c: the probe survey, scored and sorted best-first.
pub mod Sort
pub mod Score
use flip_de_flock.Common.{
  Bool, List, Option, [], false, if◌then◌else◌, leb, ltb, none, not, reverse, some, suc, zero, ℕ,
  ◌%◌, ◌&&◌, ◌*◌, ◌+◌, ◌/◌, ◌==◌, ◌^◌, ◌∷◌,
}
use flip_de_flock.Common.Int.{ltb_ℤ, negsuc, pos_part, ℤ, ◌-ℤ◌}
use flip_de_flock.Common.Mac.{Mac, mac_eq}
use flip_de_flock.FlockDb.Fingerprint.{flock_ie_fp_is_generic}

pub record SurveyRankRow : Type 0 where
  pub mac : Mac
  pub fp : ℕ
  pub rssi : ℤ
  pub channel : ℕ
  pub count : ℕ

-- The bits of the `evidence` mask.
pub record Evidence : Type 0 where
  pub local_admin : Bool
  pub persistent : Bool
  pub close : Bool
  pub rotating : Bool
  pub is_generic : Bool

pub record SurveyRanked : Type 0 where
  pub index : ℕ
  pub score : ℕ
  pub evidence : Evidence

abbrev pub w_persist : ℕ
w_persist = 45

abbrev pub w_close : ℕ
w_close = 35

abbrev pub w_rotate : ℕ
w_rotate = 20

-- `SURVEY_FLOOR_DBM` is -90, `SURVEY_CLOSE_DBM` is -55.
abbrev pub survey_floor_dbm : ℤ
survey_floor_dbm = negsuc 89

abbrev pub survey_close_dbm : ℤ
survey_close_dbm = negsuc 54

abbrev pub survey_persistent_count : ℕ
survey_persistent_count = 3

-- `mac[0] & 0x02`
unfoldable pub survey_mac_is_local : Option Mac → Bool
survey_mac_is_local none = false
survey_mac_is_local (some m) = m.b0 / 2 % 2 == 1

-- The loop of `fp_mac_spread`, at index `i` of the rows. `break` at the first hit.
unfoldable pub spread_from : SurveyRankRow → ℕ → ℕ → List SurveyRankRow → ℕ
spread_from r self i [] = 1
spread_from r self i (x ∷ xs) =
    let rest = spread_from r self (i + 1) xs in
    if i == self
    then rest
    else if not (x.fp == r.fp)
    then rest
    else if mac_eq x.mac r.mac
    then rest
    else 2

unfoldable pub fp_mac_spread : List SurveyRankRow → ℕ → SurveyRankRow → ℕ
fp_mac_spread rows self r = if r.fp == 0 then 1 else spread_from r self 0 rows

-- The loop that finds the busiest row that is not generic, and one round of it.
unfoldable pub busier : ℕ → SurveyRankRow → ℕ
busier b x = if flock_ie_fp_is_generic x.fp then b else if ltb b x.count then x.count else b

unfoldable pub busiest_from : ℕ → List SurveyRankRow → ℕ
busiest_from b [] = b
busiest_from b (x ∷ xs) = busiest_from (busier b x) xs

unfoldable pub persist_score : ℕ → ℕ → ℕ
persist_score busiest count = if ltb 0 busiest then count * w_persist / busiest else 0

-- `span` is 35, and `above` is capped at it.
abbrev pub close_span : ℕ
close_span = 35

unfoldable pub close_above : ℤ → ℕ
close_above rssi =
    let above = pos_part (rssi -ℤ survey_floor_dbm) in
    if ltb close_span above then close_span else above

unfoldable pub close_score : ℤ → ℕ
close_score rssi =
    if ltb_ℤ survey_floor_dbm rssi then close_above rssi * w_close / close_span else 0

unfoldable pub rotate_score : ℕ → ℕ
rotate_score spread = if leb 2 spread then w_rotate else 0

-- The body of the scoring loop, before the clamp.
unfoldable pub raw_score : List SurveyRankRow → ℕ → ℕ → SurveyRankRow → ℕ
raw_score rows busiest i r =
    if flock_ie_fp_is_generic r.fp
    then 0
    else persist_score busiest r.count + close_score r.rssi + rotate_score (fp_mac_spread rows i r)

unfoldable pub row_evidence : List SurveyRankRow → ℕ → SurveyRankRow → Evidence
row_evidence rows i r =
    let generic = flock_ie_fp_is_generic r.fp in
    record {
      local_admin = survey_mac_is_local (some r.mac);
      persistent = not generic && leb survey_persistent_count r.count;
      close = not generic && not (ltb_ℤ r.rssi survey_close_dbm);
      rotating = not generic && leb 2 (fp_mac_spread rows i r);
      is_generic = generic;
    }

-- The clamp, and the cast to `uint8_t`.
unfoldable pub rank_row : List SurveyRankRow → ℕ → ℕ → SurveyRankRow → SurveyRanked
rank_row rows busiest i r =
    let score = raw_score rows busiest i r in
    record {
      index = i;
      score = (if ltb 100 score then 100 else score) % 2 ^ 8;
      evidence = row_evidence rows i r;
    }

-- The scoring loop: `i` counts up, `room` is `out_max - n`.
unfoldable pub rank_from : List SurveyRankRow → ℕ → ℕ → ℕ → List SurveyRankRow → List SurveyRanked
rank_from rows busiest i room [] = []
rank_from rows busiest i zero (x ∷ xs) = []
rank_from rows busiest i (suc room) (x ∷ xs) =
    rank_row rows busiest i x ∷ rank_from rows busiest (i + 1) room xs

-- One round of the insertion sort. The sorted part of `out` is given from its end, so that the
-- head is `out[j - 1]`: entries with a lower score move up, and `v` goes below them.
unfoldable pub insert_back : SurveyRanked → List SurveyRanked → List SurveyRanked
insert_back v [] = v ∷ []
insert_back v (x ∷ xs) = if ltb x.score v.score then x ∷ insert_back v xs else v ∷ (x ∷ xs)

-- The outer loop: `sorted` is the part before `i`, from its end.
unfoldable pub sort_from : List SurveyRanked → List SurveyRanked → List SurveyRanked
sort_from sorted [] = reverse sorted
sort_from sorted (v ∷ vs) = sort_from (insert_back v sorted) vs

-- `rows` and `out` may be NULL; the result is the part of `out` that was written.
unfoldable pub survey_rank : Option (List SurveyRankRow) → Bool → ℕ → List SurveyRanked
survey_rank none have_out out_max = []
survey_rank (some rows) have_out out_max =
    if have_out && not (out_max == 0)
    then sort_from [] (rank_from rows (busiest_from 0 rows) 0 out_max rows)
    else []
