-- ===== src/OuiVendor.antt =====
-- helpers/oui_vendor.c: the maker of an access point's radio.
pub mod Unique
use flip_de_flock.Common.{List, Option, String, [], if◌then◌else◌, none, some, ℕ, ◌∷◌}
use flip_de_flock.Common.Bytes.{Bytes, codes}
use flip_de_flock.Common.Mac.{Mac, Oui, has_oui, oui}

pub record OuiVendor : Type 0 where
  pub b : Oui
  pub name : Bytes

abbrev vendor_row : ℕ → ℕ → ℕ → String → OuiVendor
vendor_row x y z s = record { b = oui x y z; name = codes s }

unfoldable pub vendors : List OuiVendor
vendors =
    vendor_row 0x24 0x0a 0xc4 "Espressif"
    ∷ vendor_row 0x24 0x6f 0x28 "Espressif"
    ∷ vendor_row 0x30 0xae 0xa4 "Espressif"
    ∷ vendor_row 0x84 0xcc 0xa8 "Espressif"
    ∷ vendor_row 0x84 0xf3 0xeb "Espressif"
    ∷ vendor_row 0x18 0xfe 0x34 "Espressif"
    ∷ vendor_row 0x5c 0xcf 0x7f "Espressif"
    ∷ vendor_row 0x60 0x01 0x94 "Espressif"
    ∷ vendor_row 0x7c 0xdf 0xa1 "Espressif"
    ∷ vendor_row 0xa4 0xcf 0x12 "Espressif"
    ∷ vendor_row 0xb4 0xe6 0x2d "Espressif"
    ∷ vendor_row 0xbc 0xdd 0xc2 "Espressif"
    ∷ vendor_row 0xc8 0x2b 0x96 "Espressif"
    ∷ vendor_row 0xd8 0xa0 0x1d "Espressif"
    ∷ vendor_row 0xec 0xfa 0xbc "Espressif"
    ∷ vendor_row 0xc4 0x4f 0x33 "Espressif"
    ∷ vendor_row 0x3c 0x71 0xbf "Espressif"
    ∷ vendor_row 0xb8 0x27 0xeb "Raspberry Pi"
    ∷ vendor_row 0xdc 0xa6 0x32 "Raspberry Pi"
    ∷ vendor_row 0xe4 0x5f 0x01 "Raspberry Pi"
    ∷ vendor_row 0x28 0xcd 0xc1 "Raspberry Pi"
    ∷ vendor_row 0xd8 0x3a 0xdd "Raspberry Pi"
    ∷ vendor_row 0x2c 0xcf 0x67 "Raspberry Pi"
    ∷ vendor_row 0x04 0x18 0xd6 "Ubiquiti"
    ∷ vendor_row 0x24 0xa4 0x3c "Ubiquiti"
    ∷ vendor_row 0x78 0x8a 0x20 "Ubiquiti"
    ∷ vendor_row 0x80 0x2a 0xa8 "Ubiquiti"
    ∷ vendor_row 0xb4 0xfb 0xe4 "Ubiquiti"
    ∷ vendor_row 0xdc 0x9f 0xdb "Ubiquiti"
    ∷ vendor_row 0xf0 0x9f 0xc2 "Ubiquiti"
    ∷ vendor_row 0xfc 0xec 0xda "Ubiquiti"
    ∷ vendor_row 0x68 0xd7 0x9a "Ubiquiti"
    ∷ vendor_row 0x74 0x83 0xc2 "Ubiquiti"
    ∷ vendor_row 0x50 0xc7 0xbf "TP-Link"
    ∷ vendor_row 0x14 0xcc 0x20 "TP-Link"
    ∷ vendor_row 0xa4 0x2b 0xb0 "TP-Link"
    ∷ vendor_row 0xc0 0x25 0xe9 "TP-Link"
    ∷ vendor_row 0xec 0x08 0x6b "TP-Link"
    ∷ vendor_row 0x60 0x32 0xb1 "TP-Link"
    ∷ vendor_row 0xb0 0x48 0x7a "TP-Link"
    ∷ vendor_row 0xac 0x84 0xc6 "TP-Link"
    ∷ vendor_row 0x20 0xe5 0x2a "Netgear"
    ∷ vendor_row 0x9c 0x3d 0xcf "Netgear"
    ∷ vendor_row 0xa0 0x40 0xa0 "Netgear"
    ∷ vendor_row 0xc0 0x3f 0x0e "Netgear"
    ∷ vendor_row 0x28 0xc6 0x8e "Netgear"
    ∷ vendor_row 0x3c 0x37 0x86 "Netgear"
    ∷ vendor_row 0x4c 0xbd 0x8f "Hikvision"
    ∷ vendor_row 0xbc 0xad 0x28 "Hikvision"
    ∷ vendor_row 0xc0 0x56 0xe3 "Hikvision"
    ∷ vendor_row 0x44 0x19 0xb6 "Hikvision"
    ∷ vendor_row 0x3c 0xef 0x8c "Dahua"
    ∷ vendor_row 0x90 0x02 0xa9 "Dahua"
    ∷ vendor_row 0x00 0x40 0x8c "Axis"
    ∷ vendor_row 0xac 0xcc 0x8e "Axis"
    ∷ []

unfoldable pub find_vendor : Mac → List OuiVendor → Option Bytes
find_vendor m [] = none
find_vendor m (v ∷ vs) = if has_oui m v.b then some v.name else find_vendor m vs

unfoldable pub oui_vendor : Option Mac → Option Bytes
oui_vendor none = none
oui_vendor (some m) = find_vendor m vendors
