-- ===== src/SurveyRank/Score.antt =====
-- The scores.
use flip_de_flock.Common.{
  Bool-cases, List, [], ap, arith, false, inl, inr, ℕ, ◌*◌, ◌/◌, ◌<◌, ◌∷◌, ◌≡◌, ◌≤◌,
}
use flip_de_flock.Common.Int.{ℤ, ◌-ℤ◌}
use flip_de_flock.Common.Search.{Exists}
use flip_de_flock.FlockDb.Fingerprint.{flock_ie_fp_is_generic}
use flip_de_flock.SurveyRank.{
  SurveyRankRow, busier, busiest_from, close_above, close_score, persist_score, rank_row, raw_score,
  rotate_score, w_close, w_persist,
}

busiest_from-ge : (b : ℕ) (rows : List SurveyRankRow) → b ≤ busiest_from b rows
unfolding busiest_from busier
busiest_from-ge b [] = omega arith
busiest_from-ge b (x ∷ xs) = ground (arith, busiest_from-ge (busier b x) xs)

-- The row is one of the list.
abbrev pub Row : SurveyRankRow → List SurveyRankRow → Type 0
Row r rows = Exists (λ x. r ≡ x) rows

busiest_from_bound :
    (rows : List SurveyRankRow) (b : ℕ) (r : SurveyRankRow)
    → Row r rows
    → flock_ie_fp_is_generic r.fp ≡ false
    → r.count ≤ busiest_from b rows
unfolding busiest_from busier
busiest_from_bound [] b r m g = absurd m
busiest_from_bound (x ∷ xs) b r (inl e) g = ground (
  arith,
  ap (λ (z : SurveyRankRow). flock_ie_fp_is_generic z.fp) e,
  ap (λ (z : SurveyRankRow). z.count) e,
  busiest_from-ge (busier b x) xs,
)
busiest_from_bound (x ∷ xs) b r (inr m) g = busiest_from_bound xs (busier b x) r m g

share-le : (c b : ℕ) → c ≤ b → 0 < b → c * 45 / b ≤ 45
share-le c b h p = grind arith

persist_score-le : (b c : ℕ) → c ≤ b → persist_score b c ≤ w_persist
unfolding persist_score
persist_score-le b c h = ground (arith, share-le c b h)

close_score-le : (rssi : ℤ) → close_score rssi ≤ w_close
unfolding close_score close_above ◌-ℤ◌
close_score-le rssi = ground arith

raw_score-le :
    (rows : List SurveyRankRow) (i : ℕ) (r : SurveyRankRow)
    → Row r rows
    → raw_score rows (busiest_from 0 rows) i r ≤ 100
unfolding raw_score rotate_score
raw_score-le rows i r m = elim (Bool-cases (flock_ie_fp_is_generic r.fp)) [
  | inl g ↦ ground arith
  | inr g ↦ ground (
    arith,
    persist_score-le (busiest_from 0 rows) r.count (busiest_from_bound rows 0 r m g),
    close_score-le r.rssi,
  )
]

-- No row of a survey scores over 100 before the clamp: the three weights make up the whole scale,
-- and neither the clamp nor the cast to a byte changes a score.
score_exact :
    (rows : List SurveyRankRow) (i : ℕ) (r : SurveyRankRow)
    → Row r rows
    → (raw_score rows (busiest_from 0 rows) i r ≤ 100)
      × ((rank_row rows (busiest_from 0 rows) i r).score ≡ raw_score rows (busiest_from 0 rows) i r)
unfolding rank_row
score_exact rows i r m = let le = raw_score-le rows i r m in (le, ground (arith, le))
