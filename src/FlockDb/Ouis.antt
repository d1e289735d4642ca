-- ===== src/FlockDb/Ouis.antt =====
-- The OUI tables of helpers/flock_db.c, in the order of the source.
use flip_de_flock.Common.{List, [], ◌∷◌}
use flip_de_flock.Common.Mac.{Oui, oui}

abbrev pub flock_ouis : List Oui
flock_ouis =
    oui 0x70 0xc9 0x4e
    ∷ oui 0x3c 0x91 0x80
    ∷ oui 0xd8 0xf3 0xbc
    ∷ oui 0x80 0x30 0x49
    ∷ oui 0xb8 0x35 0x32
    ∷ oui 0x14 0x5a 0xfc
    ∷ oui 0x74 0x4c 0xa1
    ∷ oui 0x08 0x3a 0x88
    ∷ oui 0x9c 0x2f 0x9d
    ∷ oui 0xc0 0x35 0x32
    ∷ oui 0x94 0x08 0x53
    ∷ oui 0xe4 0xaa 0xea
    ∷ oui 0xf4 0x6a 0xdd
    ∷ oui 0x24 0xb2 0xb9
    ∷ oui 0x00 0xf4 0x8d
    ∷ oui 0xd0 0x39 0x57
    ∷ oui 0xe8 0xd0 0xfc
    ∷ oui 0xe0 0x4f 0x43
    ∷ oui 0xb8 0x1e 0xa4
    ∷ oui 0x70 0x08 0x94
    ∷ oui 0x58 0x8e 0x81
    ∷ oui 0xec 0x1b 0xbd
    ∷ oui 0x58 0x00 0xe3
    ∷ oui 0x90 0x35 0xea
    ∷ oui 0x5c 0x93 0xa2
    ∷ oui 0x64 0x6e 0x69
    ∷ oui 0xb4 0x1e 0x52
    ∷ oui 0xe0 0x0a 0xf6
    ∷ oui 0x38 0x5b 0x44
    ∷ oui 0x14 0xb5 0xcd
    ∷ []

abbrev pub soundthinking_ouis : List Oui
soundthinking_ouis = oui 0xd4 0x11 0xd6 ∷ []

abbrev pub axon_ouis : List Oui
axon_ouis = oui 0x00 0x25 0xdf ∷ []

abbrev pub ubicquia_ouis : List Oui
ubicquia_ouis = oui 0x94 0x7b 0xbe ∷ []

abbrev pub motorola_ouis : List Oui
motorola_ouis =
    oui 0x00 0x04 0x7d
    ∷ oui 0x00 0x18 0x85
    ∷ oui 0x00 0x1f 0x92
    ∷ oui 0x4c 0xcc 0x34
    ∷ oui 0x10 0x74 0x6f
    ∷ oui 0xb8 0xe2 0x8c
    ∷ oui 0x9c 0x86 0x2b
    ∷ []

abbrev pub verkada_ouis : List Oui
verkada_ouis = oui 0xe0 0xa7 0x00 ∷ []

abbrev pub genetec_ouis : List Oui
genetec_ouis = oui 0x00 0xbf 0x15 ∷ oui 0x0c 0xbf 0x15 ∷ []

abbrev pub avigilon_ouis : List Oui
avigilon_ouis = oui 0x70 0x1a 0xd5 ∷ []

abbrev pub utility_ouis : List Oui
utility_ouis = oui 0x00 0x09 0xbc ∷ oui 0x00 0x16 0xed ∷ []

abbrev pub digitalally_ouis : List Oui
digitalally_ouis = oui 0x00 0x23 0xbd ∷ []

abbrev pub drone_ouis : List Oui
drone_ouis =
    oui 0x60 0x60 0x1f
    ∷ oui 0x34 0xd2 0x62
    ∷ oui 0x48 0x1c 0xb9
    ∷ oui 0xe4 0x7a 0x2c
    ∷ oui 0x58 0xb8 0x58
    ∷ oui 0x04 0xa8 0x5a
    ∷ oui 0x8c 0x58 0x23
    ∷ oui 0x0c 0x9a 0xe6
    ∷ oui 0x88 0x29 0x85
    ∷ oui 0x4c 0x43 0xf6
    ∷ oui 0x9c 0x5a 0x8a
    ∷ oui 0xec 0x72 0xf7
    ∷ oui 0x34 0x91 0xf0
    ∷ oui 0x38 0x1d 0x14
    ∷ oui 0x00 0x12 0x1c
    ∷ oui 0x00 0x26 0x7e
    ∷ oui 0x90 0x03 0xb7
    ∷ oui 0x90 0x3a 0xe6
    ∷ oui 0xa0 0x14 0x3d
    ∷ oui 0xb0 0x30 0xc8
    ∷ oui 0x00 0x1a 0xf9
    ∷ oui 0x14 0xdd 0x48
    ∷ oui 0xec 0x71 0x5e
    ∷ oui 0x74 0xb8 0x0f
    ∷ []
