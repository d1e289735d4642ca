-- ===== src/SurveyRank/Sort.antt =====
-- The insertion sort.
use flip_de_flock.Common.{
  Bool-cases, List, [], ap, append-nil, append_assoc, arith, if◌then◌else◌, inl, inr, ltb, refl,
  reverse, reverse-cons, suc, sym, tests, ℕ, ◌++◌, ◌==◌, ◌∙◌, ◌∷◌, ◌≡◌, ◌≤◌,
}
use flip_de_flock.Common.Search.{All, All-append}
use flip_de_flock.SurveyRank.{SurveyRanked, insert_back, sort_from}

-- Scores do not rise along the list.
abbrev pub Descending : List SurveyRanked → Type 0
Descending [] = Unit {0}
Descending (x ∷ xs) = All (λ y. y.score ≤ x.score) xs × Descending xs

abbrev Ascending : List SurveyRanked → Type 0
Ascending [] = Unit {0}
Ascending (x ∷ xs) = All (λ y. x.score ≤ y.score) xs × Ascending xs

-- The entries with a given score, in order.
unfoldable pub with_score : ℕ → List SurveyRanked → List SurveyRanked
with_score s [] = []
with_score s (x ∷ xs) = if x.score == s then x ∷ with_score s xs else with_score s xs

All-weaken :
    (m n : ℕ) (xs : List SurveyRanked)
    → m ≤ n
    → All (λ y. n ≤ y.score) xs
    → All (λ y. m ≤ y.score) xs
All-weaken m n [] h a = tt
All-weaken m n (x ∷ xs) h a = (omega arith, All-weaken m n xs h a.1)

insert_back-All :
    (n : ℕ) (v : SurveyRanked) (xs : List SurveyRanked)
    → n ≤ v.score
    → All (λ y. n ≤ y.score) xs
    → All (λ y. n ≤ y.score) (insert_back v xs)
unfolding insert_back
insert_back-All n v [] h a = (h, tt)
insert_back-All n v (x ∷ xs) h a = ground (arith, insert_back-All n v xs h a.1)

insert_back-Ascending :
    (v : SurveyRanked) (xs : List SurveyRanked) → Ascending xs → Ascending (insert_back v xs)
unfolding insert_back
insert_back-Ascending v [] a = (tt, tt)
insert_back-Ascending v (x ∷ xs) a = elim (Bool-cases (ltb x.score v.score)) [
  | inl lower ↦
      rw lower (insert_back-All x.score v xs (omega tests) a.0, insert_back-Ascending v xs a.1)
  | inr not_lower ↦
      rw not_lower (((ground arith), All-weaken v.score x.score xs (ground arith) a.0), a)
]

Descending-snoc :
    (xs : List SurveyRanked) (v : SurveyRanked)
    → Descending xs
    → All (λ y. v.score ≤ y.score) xs
    → Descending (xs ++ (v ∷ []))
Descending-snoc [] v d a = (tt, tt)
Descending-snoc (x ∷ xs) v d a =
    (All-append (λ y. y.score ≤ x.score) xs (v ∷ []) d.0 (a.0, tt), Descending-snoc xs v d.1 a.1)

All-reverse : (P : SurveyRanked → Type 0) (xs : List SurveyRanked) → All P xs → All P (reverse xs)
All-reverse P [] a = tt
All-reverse P (x ∷ xs) a =
    rw (reverse-cons x xs) (All-append P (reverse xs) (x ∷ []) (All-reverse P xs a.1) (a.0, tt))

reverse-Ascending : (xs : List SurveyRanked) → Ascending xs → Descending (reverse xs)
reverse-Ascending [] a = tt
reverse-Ascending (x ∷ xs) a = rw (reverse-cons x xs) (
    Descending-snoc (reverse xs) x (reverse-Ascending xs a.1)
      (All-reverse (λ y. x.score ≤ y.score) xs a.0))

sort_from-Descending :
    (sorted vs : List SurveyRanked) → Ascending sorted → Descending (sort_from sorted vs)
unfolding sort_from
sort_from-Descending sorted [] a = reverse-Ascending sorted a
sort_from-Descending sorted (v ∷ vs) a =
    sort_from-Descending (insert_back v sorted) vs (insert_back-Ascending v sorted a)

with_score-append :
    (s : ℕ) (xs ys : List SurveyRanked)
    → with_score s (xs ++ ys) ≡ with_score s xs ++ with_score s ys
unfolding with_score
with_score-append s [] ys = refl
with_score-append s (x ∷ xs) ys = ground (arith, with_score-append s xs ys)

with_score_none :
    (s : ℕ) (xs : List SurveyRanked) → All (λ y. suc s ≤ y.score) xs → with_score s xs ≡ []
unfolding with_score
with_score_none s [] a = refl
with_score_none s (x ∷ xs) a = ground (arith, with_score_none s xs a.1)

with_score-reverse :
    (s : ℕ) (xs : List SurveyRanked) → with_score s (reverse xs) ≡ reverse (with_score s xs)
unfolding with_score
with_score-reverse s [] = refl
with_score-reverse s (x ∷ xs) =
    rw (reverse-cons x xs, with_score-append s (reverse xs) (x ∷ []), with_score-reverse s xs)
      (ground (arith, reverse-cons x (with_score s xs), append-nil (reverse (with_score s xs))))

-- Among equals the inserted entry is the head, since it stops at the first that is not lower.
with_score-insert_back :
    (s : ℕ) (v : SurveyRanked) (xs : List SurveyRanked)
    → Ascending xs
    → with_score s (insert_back v xs) ≡ with_score s (v ∷ xs)
unfolding with_score insert_back
with_score-insert_back s v [] a = refl
with_score-insert_back s v (x ∷ xs) a = ground (arith, with_score-insert_back s v xs a.1)

with_score-sort_from :
    (s : ℕ) (sorted vs : List SurveyRanked)
    → Ascending sorted
    → with_score s (sort_from sorted vs) ≡ with_score s (reverse sorted ++ vs)
unfolding sort_from
with_score-sort_from s sorted [] a = rw (append-nil (reverse sorted))
with_score-sort_from s sorted (v ∷ vs) a =
    with_score-sort_from s (insert_back v sorted) vs (insert_back-Ascending v sorted a)
    ∙ with_score-append s (reverse (insert_back v sorted)) vs
    ∙ ap (λ t. t ++ with_score s vs) (with_score-reverse s (insert_back v sorted))
    ∙ ap (λ t. reverse t ++ with_score s vs) (with_score-insert_back s v sorted a)
    ∙ ap (λ t. t ++ with_score s vs) (sym (with_score-reverse s (v ∷ sorted)))
    ∙ sym (with_score-append s (reverse (v ∷ sorted)) vs)
    ∙ ap (with_score s)
        (ap (λ t. t ++ vs) (reverse-cons v sorted) ∙ append_assoc (reverse sorted) (v ∷ []) vs)

-- The sort that `survey_rank` runs over the scored rows gives a list whose scores do not rise, and
-- in which the entries of each score are those of the input, as often and in the same order: rows
-- that tie are not reshuffled.
pub sort_stable :
    (vs : List SurveyRanked)
    → Descending (sort_from [] vs) × ((s : ℕ) → with_score s (sort_from [] vs) ≡ with_score s vs)
sort_stable vs = (sort_from-Descending [] vs tt, λ s. with_score-sort_from s [] vs tt)
