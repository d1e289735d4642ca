-- ===== src/FlockDb/Vendor.antt =====
-- Which vendor and device class a MAC's prefix stands for.
pub mod Unique
use flip_de_flock.Common.{
  Bool, List, Option, [], false, get_elem?, if◌then◌else◌, leb, length, none, not, some, true, ℕ,
  ◌||◌, ◌∷◌,
}
use flip_de_flock.Common.Mac.{Mac, Oui, has_oui}
use flip_de_flock.Common.Search.{any_of}
use flip_de_flock.FlockDb.Ouis.{
  avigilon_ouis, axon_ouis, digitalally_ouis, drone_ouis, flock_ouis, genetec_ouis, motorola_ouis,
  soundthinking_ouis, ubicquia_ouis, utility_ouis, verkada_ouis,
}
use flip_de_flock.FlockDb.Types.{
  Extras, FlockDevClass, FlockVendor, acoustic, alpr, avigilon, axon, bodycam, digital_ally,
  drone_class, drone_maker, flock_safety, gear, genetec, motorola, sound_thinking, ubicquia,
  unknown, utility, verkada,
}

-- `FlockVendorTable`
pub record FlockVendorTable : Type 0 where
  pub ouis : List Oui
  pub vendor : FlockVendor
  pub cls : FlockDevClass

abbrev row : List Oui → FlockVendor → FlockDevClass → FlockVendorTable
row os v c = record { ouis = os; vendor = v; cls = c }

unfoldable pub flock_vendor_tables : List FlockVendorTable
flock_vendor_tables =
    row flock_ouis flock_safety alpr
    ∷ row soundthinking_ouis sound_thinking acoustic
    ∷ row axon_ouis axon bodycam
    ∷ row ubicquia_ouis ubicquia gear
    ∷ row motorola_ouis motorola gear
    ∷ row verkada_ouis verkada gear
    ∷ row genetec_ouis genetec gear
    ∷ row avigilon_ouis avigilon gear
    ∷ row utility_ouis utility bodycam
    ∷ row digitalally_ouis digital_ally bodycam
    ∷ row drone_ouis drone_maker drone_class
    ∷ []

-- The inner loops of the matchers.
unfoldable pub in_table : Mac → List Oui → Bool
in_table m = any_of (has_oui m)

-- The outer loop of `vendor_row_for_mac`.
unfoldable pub find_row : Mac → List FlockVendorTable → Option FlockVendorTable
find_row m [] = none
find_row m (t ∷ ts) = if in_table m t.ouis then some t else find_row m ts

unfoldable pub vendor_row_for_mac : Option Mac → Option FlockVendorTable
vendor_row_for_mac none = none
vendor_row_for_mac (some m) = find_row m flock_vendor_tables

unfoldable pub soundthinking_oui_match : Option Mac → Bool
soundthinking_oui_match none = false
soundthinking_oui_match (some m) = in_table m soundthinking_ouis

unfoldable pub axon_oui_match : Option Mac → Bool
axon_oui_match none = false
axon_oui_match (some m) = in_table m axon_ouis

-- The vendors with matchers of their own.
abbrev shares_silicon : FlockVendor → Bool
shares_silicon flock_safety = true
shares_silicon sound_thinking = true
shares_silicon axon = true
shares_silicon _ = false

unfoldable pub vendor_exclusive_oui_match : Option Mac → Bool
vendor_exclusive_oui_match mac = elim (vendor_row_for_mac mac) [
  | none ↦ false
  | some t ↦ not (shares_silicon t.vendor)
]

unfoldable pub flock_vendor_from_mac : Option Mac → FlockVendor
flock_vendor_from_mac mac = elim (vendor_row_for_mac mac) [ none ↦ unknown | some t ↦ t.vendor ]

unfoldable pub flock_class_from_mac : Option Mac → FlockDevClass
flock_class_from_mac mac = elim (vendor_row_for_mac mac) [ none ↦ alpr | some t ↦ t.cls ]

-- The user's prefixes are scanned after the built-in ones.
unfoldable pub flock_oui_match : Extras → Option Mac → Bool
flock_oui_match ex none = false
flock_oui_match ex (some m) =
    in_table m flock_ouis || elim ex [ none ↦ false | some x ↦ in_table m x.ouis ]

pub flock_oui_count : ℕ
flock_oui_count = length flock_ouis

pub flock_oui_get : ℕ → Option Oui
flock_oui_get index = if leb flock_oui_count index then none else get_elem? flock_ouis index
