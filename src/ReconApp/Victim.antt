-- ===== src/ReconApp/Victim.antt =====
-- The row that gives way when the table is full.
use flip_de_flock.Common.{
  Bool-cases, List, Option-cases, [], arith, false, get_elem?, inl, inr, none, refl, some, subst,
  suc, sym, true, ℕ, ◌&&◌, ◌+◌, ◌∷◌, ◌≡◌, ◌⊎◌,
}
use flip_de_flock.Common.Search.{All}
use flip_de_flock.FlockDb.Types.{rung}
use flip_de_flock.FlockStore.{flock_store_evict_better}
use flip_de_flock.ReconApp.Report.{Best, better_victim, victim_from}
use flip_de_flock.ReconApp.Types.{FlockEntry}

evict_not_better_trans :
    (a s b t c u : ℕ)
    → flock_store_evict_better a s b t ≡ false
    → flock_store_evict_better b t c u ≡ false
    → flock_store_evict_better a s c u ≡ false
unfolding flock_store_evict_better
evict_not_better_trans a s b t c u p q = ground arith

evict_better_not_after :
    (a s b t : ℕ)
    → flock_store_evict_better a s b t ≡ true
    → flock_store_evict_better b t a s ≡ false
unfolding flock_store_evict_better
evict_better_not_after a s b t p = ground arith

evict_irreflexive : (a s : ℕ) → flock_store_evict_better a s a s ≡ false
unfolding flock_store_evict_better
evict_irreflexive a s = ground arith

module _ {F : Type 0} where
  -- `e` may give way before `w` does, or they are tied.
  abbrev pub NotAfter : FlockEntry F → FlockEntry F → Type 0
  NotAfter w e =
      flock_store_evict_better (rung e.confidence) e.seen_epoch (rung w.confidence) w.seen_epoch
      ≡ false

  -- The best row so far is at least as good a victim as `e`, if `e` is archived.
  abbrev pub Covers : Best F → FlockEntry F → Type 0
  Covers none e = e.archived ≡ false
  Covers (some (v, w)) e = (e.archived ≡ false) ⊎ NotAfter w e

  better_victim-Covers :
      (i : ℕ) (e : FlockEntry F) (best : Best F) → Covers (better_victim i e best) e
  unfolding better_victim
  better_victim-Covers i e none = elim (Bool-cases e.archived) [
    | inl h ↦ rw h (inr (evict_irreflexive (rung e.confidence) e.seen_epoch))
    | inr h ↦ rw h refl
  ]
  better_victim-Covers i e (some (v, w)) = elim (Bool-cases e.archived) [
    | inl h ↦
        elim (Bool-cases (
          flock_store_evict_better (rung e.confidence) e.seen_epoch (rung w.confidence)
            w.seen_epoch)) [
              | inl k ↦ rw (h, k) (inr (evict_irreflexive (rung e.confidence) e.seen_epoch))
              | inr k ↦ rw (h, k) (inr k)
            ]
    | inr h ↦ rw h (inl refl)
  ]

  better_victim-keeps :
      (i : ℕ) (e x : FlockEntry F) (best : Best F)
      → Covers best x
      → Covers (better_victim i e best) x
  unfolding better_victim
  better_victim-keeps i e x none c = elim (Bool-cases e.archived) [
    | inl h ↦ rw h (inl c)
    | inr h ↦ rw h c
  ]
  better_victim-keeps i e x (some (v, w)) c =
      elim (Bool-cases (
        e.archived
        && flock_store_evict_better (rung e.confidence) e.seen_epoch (rung w.confidence)
            w.seen_epoch)) [
              | inl h ↦ rw h (elim c [
                | inl live ↦ inl live
                | inr worse ↦ inr (
                    evict_not_better_trans (rung x.confidence) x.seen_epoch (rung w.confidence)
                      w.seen_epoch (rung e.confidence) e.seen_epoch worse
                      (evict_better_not_after (rung e.confidence) e.seen_epoch (rung w.confidence)
                        w.seen_epoch (ground (arith, h))))
              ])
              | inr h ↦ rw h c
            ]

  victim_from-keeps :
      (i : ℕ) (es : List (FlockEntry F)) (x : FlockEntry F) (best : Best F)
      → Covers best x
      → Covers (victim_from i best es) x
  unfolding victim_from
  victim_from-keeps i [] x best c = c
  victim_from-keeps i (e ∷ es) x best c =
      victim_from-keeps (i + 1) es x (better_victim i e best) (better_victim-keeps i e x best c)

  victim_from-Covers :
      (i : ℕ) (es : List (FlockEntry F)) (best : Best F) → All (Covers (victim_from i best es)) es
  unfolding victim_from
  victim_from-Covers i [] best = tt
  victim_from-Covers i (e ∷ es) best = (
    victim_from-keeps (i + 1) es e (better_victim i e best) (better_victim-Covers i e best),
    victim_from-Covers (i + 1) es (better_victim i e best),
  )

  -- A victim is an archived row of the list that starts at index `i`.
  abbrev IsRow : ℕ → List (FlockEntry F) → ℕ × FlockEntry F → Type 0
  IsRow i es (v, w) = (k : ℕ) × (v ≡ i + k) × (get_elem? es k ≡ some w) × (w.archived ≡ true)

  better_victim-from :
      (i : ℕ) (e : FlockEntry F) (best : Best F) (r : ℕ × FlockEntry F)
      → better_victim i e best ≡ some r
      → (best ≡ some r) ⊎ ((r ≡ (i, e)) × (e.archived ≡ true))
  unfolding better_victim
  better_victim-from i e none r h = elim (Bool-cases e.archived) [
    | inl k ↦ inr (ground (arith, h, k), k)
    | inr k ↦ ground (arith, h, k)
  ]
  better_victim-from i e (some (v, w)) r h =
      elim (Bool-cases (
        e.archived
        && flock_store_evict_better (rung e.confidence) e.seen_epoch (rung w.confidence)
            w.seen_epoch)) [
              | inl k ↦ inr (ground (arith, h, k), ground (arith, k))
              | inr k ↦ inl (ground (arith, h, k))
            ]

  victim_from-IsRow :
      (i : ℕ) (es : List (FlockEntry F)) (best : Best F) (r : ℕ × FlockEntry F)
      → victim_from i best es ≡ some r
      → (best ≡ some r) ⊎ IsRow i es r
  unfolding victim_from
  victim_from-IsRow i [] best r h = inl h
  victim_from-IsRow i (e ∷ es) best r h =
      elim (victim_from-IsRow (i + 1) es (better_victim i e best) r h) [
        | inl k ↦ elim (better_victim-from i e best r k) [
          | inl b ↦ inl b
          | inr (b, a) ↦ inr (subst (IsRow i (e ∷ es)) (sym b) (0, omega arith, refl, a))
        ]
        | inr (k, p, q, a) ↦ inr (suc k, omega (arith, p), q, a)
      ]

  -- The search over a whole table finds nothing only if every row is live; otherwise it finds an
  -- archived row, and no archived row is a better victim.
  pub victim_is_weakest :
      (table : List (FlockEntry F))
      → ((victim_from 0 none table ≡ none) × All (λ e. e.archived ≡ false) table)
        ⊎ ((v : ℕ) × (w : FlockEntry F) × (victim_from 0 none table ≡ some (v, w))
            × (get_elem? table v ≡ some w)
            × (w.archived ≡ true)
            × All (λ e. (e.archived ≡ false) ⊎ NotAfter w e) table)
  victim_is_weakest table =
      let all = victim_from-Covers 0 table none in
      elim (Option-cases (victim_from 0 none table)) [
        | inl h ↦ inl (h, subst (λ b. All (Covers b) table) h all)
        | inr ((v, w), h) ↦ elim (victim_from-IsRow 0 table none (v, w) h) [
          | inl b ↦ ground arith
          | inr (k, p, q, a) ↦ inr (
            v,
            w,
            h,
            subst (λ j. get_elem? table j ≡ some w) (omega (arith, p)) q,
            a,
            subst (λ b. All (Covers b) table) h all,
          )
        ]
      ]
