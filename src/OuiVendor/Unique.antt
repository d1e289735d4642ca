-- ===== src/OuiVendor/Unique.antt =====
-- The table names at most one maker for an address.
use flip_de_flock.Common.{
  Bool, Bool-cases, List, [], arith, false, inl, inr, not, refl, some, true, ◌&&◌, ◌==◌, ◌∷◌, ◌≡◌,
}
use flip_de_flock.Common.Mac.{Mac, Oui, has_oui}
use flip_de_flock.Common.Search.{Exists}
use flip_de_flock.OuiVendor.{OuiVendor, find_vendor, oui_vendor, vendors}

-- The prefix stands in no row of the list.
abbrev row_differs : Oui → OuiVendor → Bool
row_differs o v = not (o.o0 == v.b.o0 && (o.o1 == v.b.o1 && o.o2 == v.b.o2))

differs : Oui → List OuiVendor → Bool
differs o [] = true
differs o (v ∷ vs) = row_differs o v && differs o vs

no_repeat : List OuiVendor → Bool
unfolding differs
no_repeat [] = true
no_repeat (v ∷ vs) = differs v.b vs && no_repeat vs

differs_use :
    (m : Mac) (o : Oui) (v : OuiVendor) (vs : List OuiVendor)
    → differs o vs ≡ true
    → has_oui m o ≡ true
    → Exists (λ x. v ≡ x) vs
    → has_oui m v.b ≡ false
unfolding differs has_oui
differs_use m o v [] d h l = absurd l
differs_use m o v (x ∷ vs) d h (inl e) = rw e (ground arith)
differs_use m o v (x ∷ vs) d h (inr l) = differs_use m o v vs (ground arith) h l

find_vendor_unique :
    (m : Mac) (v : OuiVendor) (vs : List OuiVendor)
    → no_repeat vs ≡ true
    → Exists (λ x. v ≡ x) vs
    → has_oui m v.b ≡ true
    → find_vendor m vs ≡ some v.name
unfolding find_vendor no_repeat
find_vendor_unique m v [] d l h = absurd l
find_vendor_unique m v (x ∷ vs) d (inl e) h = ground arith
find_vendor_unique m v (x ∷ vs) d (inr l) h = elim (Bool-cases (has_oui m x.b)) [
  | inl hit ↦ cc (differs_use m x.b v vs (ground arith) hit l)
  | inr miss ↦ rw miss (find_vendor_unique m v vs (ground arith) l h)
]

vendors-no_repeat : no_repeat vendors ≡ true
unfolding no_repeat vendors
vendors-no_repeat = refl

-- Each row of the table is reached: an address with the row's prefix gets the row's name, so that
-- no row hides another.
pub oui_vendor_reaches :
    (m : Mac) (v : OuiVendor)
    → Exists (λ x. v ≡ x) vendors
    → has_oui m v.b ≡ true
    → oui_vendor (some m) ≡ some v.name
unfolding oui_vendor
oui_vendor_reaches m v l h = find_vendor_unique m v vendors vendors-no_repeat l h
