-- ===== src/FlockDb/Vendor/Unique.antt =====
-- The vendor tables share no prefix, so the order in which they are scanned does not matter.
use flip_de_flock.Common.{
  Bool, Bool-cases, List, Option, Option-cases, [], ap, arith, false, inl, inr, none, not, refl,
  some, true, ◌&&◌, ◌||◌, ◌∷◌, ◌≡◌,
}
use flip_de_flock.Common.Mac.{Mac, Oui, has_oui, has_oui_iff, prefix_of}
use flip_de_flock.Common.Search.{All, Exists, any_of}
use flip_de_flock.FlockDb.Types.{
  FlockDevClass, FlockVendor, acoustic, alpr, axon, bodycam, digital_ally, drone_class, drone_maker,
  flock_safety, gear, sound_thinking, unknown, utility,
}
use flip_de_flock.FlockDb.Vendor.{
  FlockVendorTable, find_row, flock_class_from_mac, flock_vendor_from_mac, flock_vendor_tables,
  in_table, vendor_row_for_mac,
}

-- An address with a given prefix.
abbrev mac_of : Oui → Mac
mac_of o = record { b0 = o.o0; b1 = o.o1; b2 = o.o2; b3 = 0; b4 = 0; b5 = 0 }

in_table_of_prefix : (m : Mac) (os : List Oui) → in_table (mac_of (prefix_of m)) os ≡ in_table m os
unfolding in_table any_of has_oui
in_table_of_prefix m [] = refl
in_table_of_prefix m (o ∷ os) = ap (λ b. has_oui m o || b) (in_table_of_prefix m os)

-- No table of the list has the prefix.
row_free : Oui → List FlockVendorTable → Bool
row_free o [] = true
row_free o (t ∷ ts) = not (in_table (mac_of o) t.ouis) && row_free o ts

all_free : List Oui → List FlockVendorTable → Bool
all_free [] ts = true
all_free (o ∷ os) ts = row_free o ts && all_free os ts

abbrev Disjoint : List FlockVendorTable → Type 0
Disjoint [] = Unit {0}
Disjoint (t ∷ ts) = (all_free t.ouis ts ≡ true) × Disjoint ts

-- The table is one of the list.
abbrev pub Lists : FlockVendorTable → List FlockVendorTable → Type 0
Lists t ts = Exists (λ x. t ≡ x) ts

all_free_use :
    (m : Mac) (os : List Oui) (ts : List FlockVendorTable)
    → all_free os ts ≡ true
    → in_table m os ≡ true
    → row_free (prefix_of m) ts ≡ true
unfolding all_free in_table any_of
all_free_use m [] ts f h = cc
all_free_use m (o ∷ os) ts f h = ground (arith, has_oui_iff m o, all_free_use m os ts)

row_free_use :
    (m : Mac) (t : FlockVendorTable) (ts : List FlockVendorTable)
    → row_free (prefix_of m) ts ≡ true
    → Lists t ts
    → in_table m t.ouis ≡ false
unfolding row_free
row_free_use m t [] f l = absurd l
row_free_use m t (x ∷ ts) f (inl e) = rw e (ground (arith, in_table_of_prefix m x.ouis))
row_free_use m t (x ∷ ts) f (inr l) = row_free_use m t ts (ground arith) l

find_row_unique :
    (m : Mac) (t : FlockVendorTable) (ts : List FlockVendorTable)
    → Disjoint ts
    → Lists t ts
    → in_table m t.ouis ≡ true
    → find_row m ts ≡ some t
unfolding find_row
find_row_unique m t [] d l h = absurd l
find_row_unique m t (x ∷ ts) d (inl e) h = ground arith
find_row_unique m t (x ∷ ts) d (inr l) h = elim (Bool-cases (in_table m x.ouis)) [
  | inl hit ↦ cc (row_free_use m t ts (all_free_use m x.ouis ts d.0 hit) l)
  | inr miss ↦ rw miss (find_row_unique m t ts d.1 l h)
]

tables-Disjoint : Disjoint flock_vendor_tables
unfolding flock_vendor_tables all_free row_free in_table any_of has_oui
tables-Disjoint =
    (refl, (refl, (refl, (refl, (refl, (refl, (refl, (refl, (refl, (refl, (refl, tt)))))))))))

-- Whichever table holds an address's prefix is the one that `vendor_row_for_mac` answers with: no
-- prefix stands in two tables, so scanning them in another order would change nothing.
vendor_row_unique :
    (m : Mac) (t : FlockVendorTable)
    → Lists t flock_vendor_tables
    → in_table m t.ouis ≡ true
    → vendor_row_for_mac (some m) ≡ some t
unfolding vendor_row_for_mac
vendor_row_unique m t l h = find_row_unique m t flock_vendor_tables tables-Disjoint l h

-- The class that goes with a vendor.
abbrev pub class_of_vendor : FlockVendor → FlockDevClass
class_of_vendor unknown = alpr
class_of_vendor flock_safety = alpr
class_of_vendor sound_thinking = acoustic
class_of_vendor axon = bodycam
class_of_vendor utility = bodycam
class_of_vendor digital_ally = bodycam
class_of_vendor drone_maker = drone_class
class_of_vendor _ = gear

abbrev Consistent : FlockVendorTable → Type 0
Consistent t = t.cls ≡ class_of_vendor t.vendor

find_row-Consistent :
    (m : Mac) (ts : List FlockVendorTable) (t : FlockVendorTable)
    → All Consistent ts
    → find_row m ts ≡ some t
    → Consistent t
unfolding find_row
find_row-Consistent m [] t a e = cc
find_row-Consistent m (x ∷ ts) t a e = ground (arith, find_row-Consistent m ts t a.1)

tables-Consistent : All Consistent flock_vendor_tables
unfolding flock_vendor_tables
tables-Consistent =
    (refl, (refl, (refl, (refl, (refl, (refl, (refl, (refl, (refl, (refl, (refl, tt)))))))))))

row_Consistent :
    (mac : Option Mac) {t : FlockVendorTable} → vendor_row_for_mac mac ≡ some t → Consistent t
unfolding vendor_row_for_mac
row_Consistent none e = cc
row_Consistent (some m) e = find_row-Consistent m flock_vendor_tables _ tables-Consistent e

-- The class of an address is the one that goes with its vendor: the two answers cannot disagree.
pub class-vendor :
    (mac : Option Mac) → flock_class_from_mac mac ≡ class_of_vendor (flock_vendor_from_mac mac)
unfolding flock_class_from_mac flock_vendor_from_mac
class-vendor mac = elim (Option-cases (vendor_row_for_mac mac)) [
  | inl e ↦ ground (arith, e)
  | inr (t, e) ↦ ground (arith, e, row_Consistent mac e)
]

abbrev pub is_unknown : FlockVendor → Bool
is_unknown unknown = true
is_unknown _ = false
