-- ===== src/Common/Search.antt =====
-- Linear searches: the loops `for(i < n) if(test(a[i])) return true;`, and what they find.
use flip_de_flock.Common.{Bool, List, [], arith, false, true, ◌++◌, ◌||◌, ◌↔◌, ◌∷◌, ◌≡◌, ◌⊎◌}

unfoldable pub any_of {ℓ} : {A : Type ℓ} → (A → Bool) → List A → Bool
any_of p [] = false
any_of p (x ∷ xs) = p x || any_of p xs

-- Some element has the property.
abbrev pub Exists {ℓ} : {A : Type ℓ} → (A → Type 0) → List A → Type 0
Exists P [] = ⊥
Exists P (x ∷ xs) = P x ⊎ Exists P xs

-- Every element has the property.
abbrev pub All {ℓ} : {A : Type ℓ} → (A → Type 0) → List A → Type 0
All P [] = Unit {0}
All P (x ∷ xs) = P x × All P xs

module _ {ℓ} {A : Type ℓ} (p : A → Bool) where
  pub any_of_iff : (xs : List A) → (any_of p xs ≡ true) ↔ Exists (λ x. p x ≡ true) xs
  unfolding any_of
  any_of_iff [] = ground arith
  any_of_iff (x ∷ xs) = ground (arith, any_of_iff xs)

pub All-append {ℓ} :
    {A : Type ℓ} (P : A → Type 0) (xs ys : List A) → All P xs → All P ys → All P (xs ++ ys)
All-append P [] ys a b = b
All-append P (x ∷ xs) ys a b = (a.0, All-append P xs ys a.1 b)
