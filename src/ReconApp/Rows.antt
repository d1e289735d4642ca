-- ===== src/ReconApp/Rows.antt =====
-- Rows of a table and their addresses.
use flip_de_flock.Common.{
  Bool-cases, List, [], ap, arith, get_elem?, get_or, inl, inr, length, none, refl, set, some,
  subst, suc, sym, zero, ℕ, ◌++◌, ◌+◌, ◌<◌, ◌∙◌, ◌∷◌, ◌≡◌, ◌≢◌,
}
use flip_de_flock.Common.Mac.{Mac, mac_eq, mac_eq_iff}
use flip_de_flock.Common.Search.{All}
use flip_de_flock.ReconApp.Report.{find_entry}
use flip_de_flock.ReconApp.Types.{FlockEntry}

module _ {ℓ} {A : Type ℓ} where
  pub get_elem?-append_left :
      (xs ys : List A) (j : ℕ) (e : A) → get_elem? xs j ≡ some e → get_elem? (xs ++ ys) j ≡ some e
  get_elem?-append_left [] ys j e h = ground arith
  get_elem?-append_left (x ∷ xs) ys zero e h = h
  get_elem?-append_left (x ∷ xs) ys (suc j) e h = get_elem?-append_left xs ys j e h

  pub get_elem?-append_last :
      (xs : List A) (e : A) → get_elem? (xs ++ (e ∷ [])) (length xs) ≡ some e
  get_elem?-append_last [] e = refl
  get_elem?-append_last (x ∷ xs) e = get_elem?-append_last xs e

  pub get_elem?-lt : (xs : List A) (j : ℕ) (e : A) → get_elem? xs j ≡ some e → j < length xs
  get_elem?-lt [] j e h = ground arith
  get_elem?-lt (x ∷ xs) zero e h = omega arith
  get_elem?-lt (x ∷ xs) (suc j) e h = omega (arith, get_elem?-lt xs j e h)

  pub get_or-get_elem? :
      (xs : List A) (j : ℕ) (e d : A) → get_elem? xs j ≡ some e → get_or xs j d ≡ e
  get_or-get_elem? [] j e d h = ground arith
  get_or-get_elem? (x ∷ xs) zero e d h = ground (arith, h)
  get_or-get_elem? (x ∷ xs) (suc j) e d h = get_or-get_elem? xs j e d h

module _ {F : Type 0} where
  -- No row has this address.
  abbrev pub Apart : Mac → List (FlockEntry F) → Type 0
  Apart mac = All (λ e. e.mac ≢ mac)

  -- No two rows have the same address.
  abbrev pub Distinct : List (FlockEntry F) → Type 0
  Distinct [] = Unit {0}
  Distinct (e ∷ es) = Apart e.mac es × Distinct es

  pub find_entry-Apart :
      (mac : Mac) (i : ℕ) (es : List (FlockEntry F)) → find_entry mac i es ≡ none → Apart mac es
  unfolding find_entry
  find_entry-Apart mac i [] h = tt
  find_entry-Apart mac i (e ∷ es) h = elim (Bool-cases (mac_eq e.mac mac)) [
    | inl k ↦ ground (arith, h, k)
    | inr k ↦ (
      λ q. ground (arith, k, mac_eq_iff e.mac mac, q),
      find_entry-Apart mac (i + 1) es (ground (arith, h, k)),
    )
  ]

  pub find_entry-row :
      (mac : Mac) (i r : ℕ) (es : List (FlockEntry F))
      → find_entry mac i es ≡ some r
      → (k : ℕ) × (e : FlockEntry F) × (r ≡ i + k) × (get_elem? es k ≡ some e) × (e.mac ≡ mac)
  unfolding find_entry
  find_entry-row mac i r [] h = ground arith
  find_entry-row mac i r (e ∷ es) h = elim (Bool-cases (mac_eq e.mac mac)) [
    | inl k ↦ (0, e, ground (arith, h, k), refl, (mac_eq_iff e.mac mac).0 k)
    | inr k ↦
        let (j, e', p, q, m) = find_entry-row mac (i + 1) r es (ground (arith, h, k)) in
        (suc j, e', omega (arith, p), q, m)
  ]

  Apart-set :
      (mac : Mac) (es : List (FlockEntry F)) (i : ℕ) (e : FlockEntry F)
      → Apart mac es
      → e.mac ≢ mac
      → Apart mac (set es i e)
  Apart-set mac [] i e a ne = tt
  Apart-set mac (x ∷ es) zero e a ne = (ne, a.1)
  Apart-set mac (x ∷ es) (suc i) e a ne = (a.0, Apart-set mac es i e a.1 ne)

  -- A row that replaces another and whose address is nowhere in the table.
  pub Distinct-set_new :
      (es : List (FlockEntry F)) (i : ℕ) (e : FlockEntry F)
      → Distinct es
      → Apart e.mac es
      → Distinct (set es i e)
  Distinct-set_new [] i e d a = tt
  Distinct-set_new (x ∷ es) zero e d a = (a.1, d.1)
  Distinct-set_new (x ∷ es) (suc i) e d a =
      (Apart-set x.mac es i e d.0 (λ q. a.0 (sym q)), Distinct-set_new es i e d.1 a.1)

  pub Apart-at :
      (mac : Mac) (es : List (FlockEntry F)) (i : ℕ) (e : FlockEntry F)
      → Apart mac es
      → get_elem? es i ≡ some e
      → e.mac ≢ mac
  Apart-at mac [] i e a h = ground arith
  Apart-at mac (x ∷ es) zero e a h =
      let same : x ≡ e = ground (arith, h) in subst (λ (y : FlockEntry F). y.mac ≢ mac) same a.0
  Apart-at mac (x ∷ es) (suc i) e a h = Apart-at mac es i e a.1 h

  -- The row of an address is unique.
  pub Distinct-unique :
      (es : List (FlockEntry F)) (i j : ℕ) (e x : FlockEntry F)
      → Distinct es
      → get_elem? es i ≡ some e
      → get_elem? es j ≡ some x
      → e.mac ≡ x.mac
      → e ≡ x
  Distinct-unique [] i j e x d p q m = ground arith
  Distinct-unique (y ∷ es) zero zero e x d p q m = ground (arith, p, q)
  Distinct-unique (y ∷ es) zero (suc j) e x d p q m =
      let same : y ≡ e = ground (arith, p) in
      absurd (Apart-at y.mac es j x d.0 q (sym m ∙ ap (λ (z : FlockEntry F). z.mac) (sym same)))
  Distinct-unique (y ∷ es) (suc i) zero e x d p q m =
      let same : y ≡ x = ground (arith, q) in
      absurd (Apart-at y.mac es i e d.0 p (m ∙ ap (λ (z : FlockEntry F). z.mac) (sym same)))
  Distinct-unique (y ∷ es) (suc i) (suc j) e x d p q m = Distinct-unique es i j e x d.1 p q m

  -- A row that is written again under its own address.
  pub Distinct-set_same :
      (es : List (FlockEntry F)) (i : ℕ) (old e : FlockEntry F)
      → Distinct es
      → get_elem? es i ≡ some old
      → e.mac ≡ old.mac
      → Distinct (set es i e)
  Distinct-set_same [] i old e d h m = tt
  Distinct-set_same (x ∷ es) zero old e d h m =
      let same : x ≡ old = ground (arith, h) in
      let path : e.mac ≡ x.mac = m ∙ ap (λ (y : FlockEntry F). y.mac) (sym same) in
      (subst (λ k. Apart k es) (sym path) d.0, d.1)
  Distinct-set_same (x ∷ es) (suc i) old e d h m = (
    Apart-set x.mac es i e d.0 (subst (λ k. k ≢ x.mac) (sym m) (Apart-at x.mac es i old d.0 h)),
    Distinct-set_same es i old e d.1 h m,
  )

  Apart-append :
      (mac : Mac) (es : List (FlockEntry F)) (e : FlockEntry F)
      → Apart mac es
      → e.mac ≢ mac
      → Apart mac (es ++ (e ∷ []))
  Apart-append mac [] e a ne = (ne, tt)
  Apart-append mac (x ∷ es) e a ne = (a.0, Apart-append mac es e a.1 ne)

  pub Distinct-append :
      (es : List (FlockEntry F)) (e : FlockEntry F)
      → Distinct es
      → Apart e.mac es
      → Distinct (es ++ (e ∷ []))
  Distinct-append [] e d a = (tt, tt)
  Distinct-append (x ∷ es) e d a =
      (Apart-append x.mac es e d.0 (λ q. a.0 (sym q)), Distinct-append es e d.1 a.1)
