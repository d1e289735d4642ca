-- ===== src/ReconApp/Purge.antt =====
-- `recon_app_purge_excluded`: rows of excluded devices leave the table.
use flip_de_flock.Common.{
  Bool, Bool-cases, List, [], ap, append-nil, append_assoc, arith, drop, false, get_elem?,
  get_elem?-set_self, if◌then◌else◌, inl, inr, length, none, not, refl, set, some, subst, suc, sym,
  take, true, zero, ℕ, ◌&&◌, ◌++◌, ◌+◌, ◌<◌, ◌==◌, ◌||◌, ◌∙◌, ◌∷◌, ◌≡◌, ◌≤◌,
}
use flip_de_flock.Common.Int.{ltb_ℤ, pos, ℤ}
use flip_de_flock.Common.Mac.{Mac, mac_eq}
use flip_de_flock.Common.Search.{any_of}
use flip_de_flock.ReconApp.Rows.{get_elem?-lt}
use flip_de_flock.ReconApp.Survey.{behind}
use flip_de_flock.ReconApp.Types.{FlockEntry, ReconApp}

abbrev last_or_0 : ℕ → ℤ
last_or_0 zero = pos 0
last_or_0 (suc w) = pos w

module _ {ℓ} {A : Type ℓ} where
  get_elem?-drop : (i : ℕ) (t rest : List A) (e : A) → drop i t ≡ e ∷ rest → get_elem? t i ≡ some e
  get_elem?-drop zero [] rest e h = ground arith
  get_elem?-drop zero (x ∷ t) rest e h = ground (arith, h)
  get_elem?-drop (suc i) [] rest e h = ground arith
  get_elem?-drop (suc i) (x ∷ t) rest e h = get_elem?-drop i t rest e h

  drop-suc : (i : ℕ) (t rest : List A) (e : A) → drop i t ≡ e ∷ rest → drop (suc i) t ≡ rest
  drop-suc zero [] rest e h = ground arith
  drop-suc zero (x ∷ t) rest e h = ground (arith, h)
  drop-suc (suc i) [] rest e h = ground arith
  drop-suc (suc i) (x ∷ t) rest e h = drop-suc i t rest e h

  drop-set : (n w : ℕ) (t : List A) (e : A) → w < n → drop n (set t w e) ≡ drop n t
  drop-set zero w t e h = absurd (omega arith)
  drop-set (suc n) w [] e h = refl
  drop-set (suc n) zero (x ∷ t) e h = refl
  drop-set (suc n) (suc w) (x ∷ t) e h = drop-set n w t e (omega arith)

  take-suc :
      (w : ℕ) (t : List A) (e : A) → get_elem? t w ≡ some e → take (suc w) t ≡ take w t ++ (e ∷ [])
  take-suc zero [] e h = ground arith
  take-suc (suc w) [] e h = ground arith
  take-suc zero (x ∷ t) e h = ground (arith, h)
  take-suc (suc w) (x ∷ t) e h = ap (λ l. x ∷ l) (take-suc w t e h)

  take-set : (w : ℕ) (t : List A) (e : A) → take w (set t w e) ≡ take w t
  take-set zero t e = refl
  take-set (suc w) [] e = refl
  take-set (suc w) (x ∷ t) e = ap (λ l. x ∷ l) (take-set w t e)

module _ {F : Type 0} where
  -- The two loops over the exclusions.
  unfoldable pub is_gone : List Mac → List ℕ → FlockEntry F → Bool
  is_gone macs fps e =
      any_of (λ m. mac_eq m e.mac) macs || (not (e.ie_fp == 0) && any_of (λ f. f == e.ie_fp) fps)

  -- The loop that moves the rows that stay to the front, with `n` rows to go, reading at `i` and
  -- writing at `w`.
  unfoldable pub purge_loop :
      (FlockEntry F → Bool) → ℕ → ℕ → ℕ → ℕ → List (FlockEntry F) → List (FlockEntry F) × ℕ × ℕ
  purge_loop gone zero i w removed table = (table, w, removed)
  purge_loop gone (suc n) i w removed table = elim (get_elem? table i) [
    | none ↦ (table, w, removed)
    | some e ↦
        if gone e
        then purge_loop gone n (i + 1) w (removed + 1) table
        else purge_loop gone n (i + 1) (w + 1) removed (if w == i then table else set table w e)
  ]

  -- The new state, and the number of rows removed.
  unfoldable pub recon_app_purge_excluded : ReconApp F → ReconApp F × ℕ
  recon_app_purge_excluded app =
      let gone = is_gone app.ignore_macs app.ignore_fps in
      let (table, w, removed) = purge_loop gone (length app.flock) 0 0 0 app.flock in
      (
        record app {
          flock = take w table;
          selected = if ltb_ℤ app.selected (pos w) then app.selected else last_or_0 w;
          hits_dirty = app.hits_dirty || not (removed == 0);
        },
        removed,
      )

  -- The rows that stay.
  abbrev pub rows_kept : (FlockEntry F → Bool) → List (FlockEntry F) → List (FlockEntry F)
  rows_kept gone [] = []
  rows_kept gone (e ∷ es) = if gone e then rows_kept gone es else e ∷ rows_kept gone es

  -- What the loop leaves: the front with the kept rows behind it, and the count of the others.
  record LoopDone (gone : FlockEntry F → Bool) (w removed : ℕ) (front rest : List (FlockEntry F))
      (out : List (FlockEntry F) × ℕ × ℕ) : Type 0 where
    table : take out.1 out.0 ≡ front ++ rows_kept gone rest
    width : out.1 ≡ w + length (rows_kept gone rest)
    count : out.2 + length (rows_kept gone rest) ≡ removed + length rest

  moved : List (FlockEntry F) → ℕ → ℕ → FlockEntry F → List (FlockEntry F)
  moved table w i e = if w == i then table else set table w e

  moved-take :
      (table rest : List (FlockEntry F)) (w i : ℕ) (e : FlockEntry F)
      → w ≤ i
      → drop i table ≡ e ∷ rest
      → (take (suc w) (moved table w i e) ≡ take w table ++ (e ∷ []))
        × (drop (suc i) (moved table w i e) ≡ rest)
  unfolding moved
  moved-take table rest w i e le h =
      let at_i = get_elem?-drop i table rest e h in
      let lt = get_elem?-lt table i e at_i in
      elim (Bool-cases (w == i)) [
        | inl q ↦
            let same : w ≡ i = ground (arith, q) in
            rw q (take-suc w table e (ap (get_elem? table) same ∙ at_i), drop-suc i table rest e h)
        | inr q ↦ rw q (
          take-suc w (set table w e) e (get_elem?-set_self table w e (omega (arith, le, lt)))
              ∙ ap (λ l. l ++ (e ∷ [])) (take-set w table e),
          drop-set (suc i) w table e (omega (arith, le)) ∙ drop-suc i table rest e h,
        )
      ]

  LoopDone-gone :
      (gone : FlockEntry F → Bool) (w removed : ℕ) (front rest : List (FlockEntry F))
      (e : FlockEntry F) (out : List (FlockEntry F) × ℕ × ℕ)
      → gone e ≡ true
      → LoopDone gone w (removed + 1) front rest out
      → LoopDone gone w removed front (e ∷ rest) out
  LoopDone-gone gone w removed front rest e out g d =
      let same : rows_kept gone (e ∷ rest) ≡ rows_kept gone rest = ground (arith, g) in
      record {
        table = d.table ∙ ap (λ l. front ++ l) (sym same);
        width = omega (arith, d.width, ap length same);
        count = omega (arith, d.count, ap length same);
      }

  LoopDone-kept :
      (gone : FlockEntry F → Bool) (w removed : ℕ) (front rest : List (FlockEntry F))
      (e : FlockEntry F) (out : List (FlockEntry F) × ℕ × ℕ)
      → gone e ≡ false
      → LoopDone gone (w + 1) removed (front ++ (e ∷ [])) rest out
      → LoopDone gone w removed front (e ∷ rest) out
  LoopDone-kept gone w removed front rest e out g d =
      let same : rows_kept gone (e ∷ rest) ≡ e ∷ rows_kept gone rest = ground (arith, g) in
      record {
        table =
            d.table
            ∙ append_assoc front (e ∷ []) (rows_kept gone rest)
            ∙ ap (λ l. front ++ l) (sym same);
        width = omega (arith, d.width, ap length same);
        count = omega (arith, d.count, ap length same);
      }

  purge_loop-LoopDone :
      (gone : FlockEntry F → Bool) (rest : List (FlockEntry F)) (i w removed : ℕ)
      (table : List (FlockEntry F))
      → w ≤ i
      → drop i table ≡ rest
      → LoopDone gone w removed
          (take w table)
          rest
          (purge_loop gone (length rest) i w removed table)
  unfolding purge_loop moved
  purge_loop-LoopDone gone [] i w removed table le h = record {
    table = sym (append-nil (take w table));
    width = omega arith;
    count = omega arith;
  }
  purge_loop-LoopDone gone (e ∷ rest) i w removed table le h =
      let at_i = get_elem?-drop i table rest e h in
      let plus : suc i ≡ i + 1 = omega arith in
      elim (Bool-cases (gone e)) [
        | inl g ↦
            let ih =
              purge_loop-LoopDone gone rest (i + 1) w (removed + 1) table (omega (arith, le))
                (ap (λ n. drop n table) (sym plus) ∙ drop-suc i table rest e h) in
            subst (LoopDone gone w removed (take w table) (e ∷ rest)) (ground (arith, at_i, g)) (
              LoopDone-gone gone w removed (take w table) rest e
                (purge_loop gone (length rest) (i + 1) w (removed + 1) table) g ih)
        | inr g ↦
            let next = moved table w i e in
            let plus_w : w + 1 ≡ suc w = omega arith in
            let (front, behind) = moved-take table rest w i e le h in
            let ih =
              purge_loop-LoopDone gone rest (i + 1) (w + 1) removed next (omega (arith, le))
                (ap (λ n. drop n next) (sym plus) ∙ behind) in
            let ih' =
              subst
                (λ l.
                  LoopDone gone (w + 1) removed l rest
                    (purge_loop gone (length rest) (i + 1) (w + 1) removed next))
                (ap (λ n. take n next) plus_w ∙ front) ih in
            subst (LoopDone gone w removed (take w table) (e ∷ rest)) (ground (arith, at_i, g)) (
              LoopDone-kept gone w removed (take w table) rest e
                (purge_loop gone (length rest) (i + 1) (w + 1) removed next) g ih')
      ]

  -- The loop that moves rows in place leaves exactly the rows that no exclusion names, in their
  -- order, and reports how many are gone.
  pub purge_keeps :
      (app : ReconApp F)
      → ((recon_app_purge_excluded app).0.flock
          ≡ rows_kept (is_gone app.ignore_macs app.ignore_fps) app.flock)
        × ((recon_app_purge_excluded app).1 + length (recon_app_purge_excluded app).0.flock
            ≡ length app.flock)
  unfolding recon_app_purge_excluded
  purge_keeps app =
      let d =
        purge_loop-LoopDone (is_gone app.ignore_macs app.ignore_fps) app.flock 0 0 0 app.flock
          (omega arith) refl in
      (d.table, omega (arith, d.count, ap length d.table))
