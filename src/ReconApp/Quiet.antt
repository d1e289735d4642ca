-- ===== src/ReconApp/Quiet.antt =====
-- No sighting of another device makes a row of an address, and none changes the exclusions.
use mathlib.Core.Bool.{false≢true}
use flip_de_flock.Common.{
  Bool, Bool-cases, List, Option-cases, [], ap, arith, false, get_or, inl, inr, length, ltb, none,
  refl, set, some, subst, suc, sym, true, zero, ℕ, ◌++◌, ◌==◌, ◌∙◌, ◌∷◌, ◌≡◌, ◌≢◌,
}
use flip_de_flock.Common.Mac.{Mac, mac_eq, mac_eq_iff}
use flip_de_flock.Common.Search.{All, All-append, any_of}
use flip_de_flock.DetectRules.{flock_is_excluded, fp_excluded, mac_excluded}
use flip_de_flock.ReconApp.Gates.{report-cases}
use flip_de_flock.ReconApp.Once.{report_all}
use flip_de_flock.ReconApp.Purge.{is_gone, rows_kept}
use flip_de_flock.ReconApp.Report.{
  Slot, claim_for, claim_row, count_message, evict_for, find_entry, fresh_entry,
  recon_app_report_flock, record_sighting, store_sighting, victim_from,
}
use flip_de_flock.ReconApp.Table.{row_written, row_written-mac}
use flip_de_flock.ReconApp.Types.{Clock, FloatOps, FlockEntry, ReconApp, Sighting, recon_flock_max}

pub rows_kept-All :
    {F : Type 0} (gone : FlockEntry F → Bool) (rows : List (FlockEntry F))
    → All (λ e. gone e ≡ false) (rows_kept gone rows)
rows_kept-All gone [] = tt
rows_kept-All gone (e ∷ rows) = elim (Bool-cases (gone e)) [
  | inl g ↦ rw g (rows_kept-All gone rows)
  | inr g ↦ rw g (g, rows_kept-All gone rows)
]

module _ {F : Type 0} where
  -- No row of the table has the address.
  abbrev pub Absent : Mac → List (FlockEntry F) → Type 0
  Absent mac rows = All (λ e. mac_eq mac e.mac ≡ false) rows

  abbrev pub IsListed : Mac → ReconApp F → Type 0
  IsListed mac app = any_of (λ x. mac_eq x mac) app.ignore_macs ≡ true

  pub listed-excluded :
      (mac : Mac) (fp : ℕ) (app : ReconApp F)
      → IsListed mac app
      → flock_is_excluded (some mac) fp (some app.ignore_macs) (some app.ignore_fps) ≡ true
  unfolding flock_is_excluded mac_excluded
  listed-excluded mac fp app h = rw h

  pub listed_fp-excluded :
      (mac : Mac) (fp : ℕ) (app : ReconApp F)
      → fp ≢ 0
      → any_of (λ x. x == fp) app.ignore_fps ≡ true
      → flock_is_excluded (some mac) fp (some app.ignore_macs) (some app.ignore_fps) ≡ true
  unfolding flock_is_excluded mac_excluded fp_excluded
  listed_fp-excluded mac fp app z h = ground arith

  pub kept-Absent :
      (mac : Mac) (macs : List Mac) (fps : List ℕ) (rows : List (FlockEntry F))
      → any_of (λ x. mac_eq x mac) macs ≡ true
      → All (λ e. is_gone macs fps e ≡ false) rows
      → Absent mac rows
  unfolding is_gone
  kept-Absent mac macs fps [] h a = tt
  kept-Absent mac macs fps (e ∷ rows) h a = (
    elim (Bool-cases (mac_eq mac e.mac)) [
      | inr other ↦ other
      | inl same ↦
          let path = (mac_eq_iff mac e.mac).0 same in
          let hit : any_of (λ x. mac_eq x e.mac) macs ≡ true =
            subst (λ m. any_of (λ x. mac_eq x m) macs ≡ true) path h in
          absurd (ground (arith, a.0, hit))
    ],
    kept-Absent mac macs fps rows h a.1,
  )

module _ {A : Type 0} (P : A → Type 0) where
  All-set : (xs : List A) (i : ℕ) (v : A) → All P xs → P v → All P (set xs i v)
  All-set [] i v a p = tt
  All-set (x ∷ xs) zero v a p = (p, a.1)
  All-set (x ∷ xs) (suc i) v a p = (a.0, All-set xs i v a.1 p)

  All-get_or : (xs : List A) (i : ℕ) (d : A) → All P xs → P d → P (get_or xs i d)
  All-get_or [] i d a p = p
  All-get_or (x ∷ xs) zero d a p = a.0
  All-get_or (x ∷ xs) (suc i) d a p = All-get_or xs i d a.1 p

module _ {F : Type 0} (fo : FloatOps F) (mac : Mac) where
  -- The table of a slot has no row of the address either.
  abbrev SlotAbsent : Slot F → Type 0
  SlotAbsent none = Unit {0}
  SlotAbsent (some (table, i)) = Absent mac table

  evict_for-Absent :
      (fresh : FlockEntry F) (table : List (FlockEntry F))
      → mac_eq mac fresh.mac ≡ false
      → Absent mac table
      → SlotAbsent (evict_for fresh table)
  evict_for-Absent fresh table n a = elim (Option-cases (victim_from 0 none table)) [
    | inl e ↦ subst SlotAbsent (sym (nobody e)) tt
    | inr ((v, w), e) ↦ subst SlotAbsent (sym (gives_way v w e)) (All-set _ table v fresh a n)
  ]
    where
      nobody : victim_from 0 none table ≡ none → evict_for fresh table ≡ none
      nobody e = unfold evict_for in ground (arith, e)

      gives_way :
          (v : ℕ) (w : FlockEntry F)
          → victim_from 0 none table ≡ some (v, w)
          → evict_for fresh table ≡ some (set table v fresh, v)
      gives_way v w e = unfold evict_for in ground (arith, e)

  claim_for-Absent :
      (fresh : FlockEntry F) (table : List (FlockEntry F))
      → mac_eq mac fresh.mac ≡ false
      → Absent mac table
      → SlotAbsent (claim_for fresh table)
  claim_for-Absent fresh table n a = elim (Option-cases (find_entry fresh.mac 0 table)) [
    | inr (i, e) ↦ subst SlotAbsent (sym (found i e)) a
    | inl e ↦ elim (Bool-cases (ltb (length table) recon_flock_max)) [
      | inl room ↦ subst SlotAbsent (sym (added e room)) (All-append _ table (fresh ∷ []) a (n, tt))
      | inr full ↦ subst SlotAbsent (sym (evicts e full)) (evict_for-Absent fresh table n a)
    ]
  ]
    where
      found :
          (i : ℕ) → find_entry fresh.mac 0 table ≡ some i → claim_for fresh table ≡ some (table, i)
      found i e = unfold claim_for in ground (arith, e)

      added :
          find_entry fresh.mac 0 table ≡ none
          → ltb (length table) recon_flock_max ≡ true
          → claim_for fresh table ≡ some (table ++ (fresh ∷ []), length table)
      added e room = unfold claim_for in ground (arith, e, room)

      evicts :
          find_entry fresh.mac 0 table ≡ none
          → ltb (length table) recon_flock_max ≡ false
          → claim_for fresh table ≡ evict_for fresh table
      evicts e full = unfold claim_for in ground (arith, e, full)

  store_slot-Absent :
      (t : Clock) (s : Sighting) (app : ReconApp F) (o : Slot F)
      → claim_row fo s.mac t.tick app.flock ≡ o
      → SlotAbsent o
      → mac_eq mac s.mac ≡ false
      → Absent mac app.flock
      → Absent mac (store_sighting fo t s app).flock
        × ((store_sighting fo t s app).ignore_macs ≡ app.ignore_macs)
        × ((store_sighting fo t s app).ignore_fps ≡ app.ignore_fps)
  unfolding store_sighting record_sighting
  store_slot-Absent t s app none h b n a =
      (subst (Absent mac) (ground (arith, h)) a, ground (arith, h), ground (arith, h))
  store_slot-Absent t s app (some (table, i)) h b n a =
      let e = get_or table i (fresh_entry fo s.mac t.tick) in
      let old : mac_eq mac e.mac ≡ false =
        All-get_or (λ x. mac_eq mac x.mac ≡ false) table i (fresh_entry fo s.mac t.tick) b
          (fresh n) in
      let new : mac_eq mac (row_written fo app t s e).mac ≡ false =
        ap (mac_eq mac) (row_written-mac fo app t s e) ∙ old in
      (
        subst (Absent mac) (ground (arith, h))
            (All-set (λ x. mac_eq mac x.mac ≡ false) table i (row_written fo app t s e) b new),
        ground (arith, h),
        ground (arith, h),
      )
    where
      fresh : mac_eq mac s.mac ≡ false → mac_eq mac (fresh_entry fo s.mac t.tick).mac ≡ false
      fresh n = unfold fresh_entry in n

  -- The address is excluded, and no row has it.
  pub record IsSilent (fps : List ℕ) (app : ReconApp F) : Type 0 where
    pub listed : IsListed mac app
    pub same_fps : app.ignore_fps ≡ fps
    pub absent : Absent mac app.flock

  pub report-IsSilent :
      (fps : List ℕ) (t : Clock) (s : Sighting) (app : ReconApp F)
      → IsSilent fps app
      → IsSilent fps (recon_app_report_flock fo t s app)
  report-IsSilent fps t s app q = elim (report-cases fo t s app) [
    | inl same ↦
        subst (IsSilent fps) (sym same)
          (record { listed = q.listed; same_fps = q.same_fps; absent = q.absent })
    | inr (p, h) ↦
        let other : mac_eq mac s.mac ≡ false = elim (Bool-cases (mac_eq mac s.mac)) [
          | inr n ↦ n
          | inl e ↦
              let path = (mac_eq_iff mac s.mac).0 e in
              absurd (
                false≢true (
                  sym p.1
                  ∙ listed-excluded s.mac s.ie_fp app (subst (λ m. IsListed m app) path q.listed)))
        ] in
        let counted = count_message app in
        let (a, macs, fps') =
          store_slot-Absent t s counted (claim_row fo s.mac t.tick counted.flock) refl
            (unfold claim_row in
              claim_for-Absent (fresh_entry fo s.mac t.tick) counted.flock
                (unfold fresh_entry in other) (unfold count_message in q.absent))
            other (unfold count_message in q.absent) in
        subst (IsSilent fps) (sym h) (record {
          listed =
              subst (λ l. any_of (λ x. mac_eq x mac) l ≡ true) (sym macs)
                (unfold count_message in q.listed);
          same_fps = fps' ∙ (unfold count_message in q.same_fps);
          absent = a;
        })
  ]

  pub report_all-IsSilent :
      (fps : List ℕ) (ss : List (Clock × Sighting)) (app : ReconApp F)
      → IsSilent fps app
      → IsSilent fps (report_all fo ss app)
  report_all-IsSilent fps [] app q = q
  report_all-IsSilent fps ((t, s) ∷ ss) app q =
      report_all-IsSilent fps ss (recon_app_report_flock fo t s app) (report-IsSilent fps t s app q)
