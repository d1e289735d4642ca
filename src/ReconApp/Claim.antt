-- ===== src/ReconApp/Claim.antt =====
-- The row that a sighting claims.
use flip_de_flock.Common.{
  Bool-cases, List, Option-cases, [], arith, false, get_elem?, get_elem?-set_ne, get_elem?-set_self,
  inl, inr, length, length-append, length-set, ltb, none, refl, set, some, subst, sym, true, ℕ,
  ◌++◌, ◌<◌, ◌∙◌, ◌∷◌, ◌≡◌, ◌≢◌, ◌≤◌,
}
use flip_de_flock.Common.Mac.{Mac}
use flip_de_flock.Common.Search.{All}
use flip_de_flock.ReconApp.Report.{Slot, claim_for, claim_row, evict_for, find_entry, fresh_entry}
use flip_de_flock.ReconApp.Rows.{
  Apart, Apart-at, Distinct, Distinct-append, Distinct-set_new, Distinct-unique, find_entry-Apart,
  find_entry-row, get_elem?-append_last, get_elem?-append_left, get_elem?-lt,
}
use flip_de_flock.ReconApp.Types.{FloatOps, FlockEntry}
use flip_de_flock.ReconApp.Victim.{victim_is_weakest}

module _ {F : Type 0} where
  -- The table after a claim: the row has the address, and every live row of another device is
  -- where it was.
  pub record Claimed (mac : Mac) (before after : List (FlockEntry F)) (i : ℕ) (e : FlockEntry F)
      : Type 0 where
    pub here : get_elem? after i ≡ some e
    pub its_mac : e.mac ≡ mac
    pub no_more : length after ≤ 64
    pub still_distinct : Distinct after
    pub known : (j : ℕ) (x : FlockEntry F) → get_elem? before j ≡ some x → x.mac ≡ mac → e ≡ x
    pub others :
        (j : ℕ) (x : FlockEntry F)
        → get_elem? before j ≡ some x
        → x.mac ≢ mac
        → x.archived ≡ false
        → (get_elem? after j ≡ some x) × (i ≢ j)

  claim_found :
      (mac : Mac) (table : List (FlockEntry F)) (i : ℕ)
      → length table ≤ 64
      → Distinct table
      → find_entry mac 0 table ≡ some i
      → (e : FlockEntry F) × Claimed mac table table i e
  claim_found mac table i le d h =
      let (k, e, p, q, m) = find_entry-row mac 0 i table h in
      let at_i : get_elem? table i ≡ some e =
        subst (λ n. get_elem? table n ≡ some e) (omega (arith, p)) q in
      (
        e,
        record {
          here = at_i;
          its_mac = m;
          known = λ j x g same. Distinct-unique table i j e x d at_i g (m ∙ sym same);
          no_more = le;
          still_distinct = d;
          others = λ j x g ne live. (g, λ same. ne (ground (arith, at_i, same, g, m)));
        },
      )

  claim_new :
      (table : List (FlockEntry F)) (e : FlockEntry F)
      → length table < 64
      → Distinct table
      → Apart e.mac table
      → Claimed e.mac table (table ++ (e ∷ [])) (length table) e
  claim_new table e lt d a = record {
    here = get_elem?-append_last table e;
    its_mac = refl;
    known = λ j x g same. absurd (Apart-at e.mac table j x a g same);
    no_more = omega (arith, length-append table (e ∷ []), lt);
    still_distinct = Distinct-append table e d a;
    others = λ j x g ne live. (
      get_elem?-append_left table (e ∷ []) j x g,
      λ same. absurd (omega (arith, get_elem?-lt table j x g, same)),
    );
  }

  archived_apart :
      (table : List (FlockEntry F)) (v j : ℕ) (w x : FlockEntry F)
      → get_elem? table v ≡ some w
      → w.archived ≡ true
      → get_elem? table j ≡ some x
      → x.archived ≡ false
      → v ≢ j
  archived_apart table v j w x g old k live same = ground (arith, g, old, k, live, same)

  claim_evicted :
      (table : List (FlockEntry F)) (v : ℕ) (w e : FlockEntry F)
      → length table ≤ 64
      → Distinct table
      → Apart e.mac table
      → get_elem? table v ≡ some w
      → w.archived ≡ true
      → Claimed e.mac table (set table v e) v e
  claim_evicted table v w e le d a g old = record {
    here = get_elem?-set_self table v e (get_elem?-lt table v w g);
    its_mac = refl;
    known = λ j x k same. absurd (Apart-at e.mac table j x a k same);
    no_more = omega (arith, length-set table v e, le);
    still_distinct = Distinct-set_new table v e d a;
    others = λ j x k ne live. (
      get_elem?-set_ne table e (archived_apart table v j w x g old k live) ∙ k,
      archived_apart table v j w x g old k live,
    );
  }

  -- What a claim gives: nothing only if the table is full of live rows.
  abbrev pub SlotOk : Mac → List (FlockEntry F) → Slot F → Type 0
  SlotOk mac before none = (length before ≡ 64) × All (λ e. e.archived ≡ false) before
  SlotOk mac before (some (after, i)) = (e : FlockEntry F) × Claimed mac before after i e

  evict_for-SlotOk :
      (table : List (FlockEntry F)) (e : FlockEntry F)
      → length table ≡ 64
      → Distinct table
      → Apart e.mac table
      → SlotOk e.mac table (evict_for e table)
  unfolding evict_for
  evict_for-SlotOk table e le d a = elim (victim_is_weakest table) [
    | inl (h, live) ↦
        let q : evict_for e table ≡ none = ground (arith, h) in
        subst (SlotOk e.mac table) (sym q) (le, live)
    | inr (v, w, h, g, old, best) ↦
        let q : evict_for e table ≡ some (set table v e, v) = ground (arith, h) in
        subst (SlotOk e.mac table) (sym q)
          (e, claim_evicted table v w e (omega (arith, le)) d a g old)
  ]

  pub claim_for-SlotOk :
      (e : FlockEntry F) (table : List (FlockEntry F))
      → length table ≤ 64
      → Distinct table
      → SlotOk e.mac table (claim_for e table)
  unfolding claim_for
  claim_for-SlotOk e table le d = elim (Option-cases (find_entry e.mac 0 table)) [
    | inr (i, h) ↦
        let q : claim_for e table ≡ some (table, i) = ground (arith, h) in
        subst (SlotOk e.mac table) (sym q) (claim_found e.mac table i le d h)
    | inl h ↦
        let a = find_entry-Apart e.mac 0 table h in
        elim (Bool-cases (ltb (length table) 64)) [
          | inl k ↦
              let q : claim_for e table ≡ some (table ++ (e ∷ []), length table) =
                ground (arith, h, k) in
              subst (SlotOk e.mac table) (sym q) (e, claim_new table e (ground (arith, k)) d a)
          | inr k ↦
              let q : claim_for e table ≡ evict_for e table = ground (arith, h, k) in
              subst (SlotOk e.mac table) (sym q)
                (evict_for-SlotOk table e (ground (arith, k, le)) d a)
        ]
  ]

  pub claim_row-SlotOk :
      (fo : FloatOps F) (mac : Mac) (now : ℕ) (table : List (FlockEntry F))
      → length table ≤ 64
      → Distinct table
      → SlotOk mac table (claim_row fo mac now table)
  unfolding claim_row fresh_entry
  claim_row-SlotOk fo mac now table le d = claim_for-SlotOk (fresh_entry fo mac now) table le d
