-- ===== src/EspParser/Fields.antt =====
-- `esp_split_fields`, hex digits and compact addresses.
use flip_de_flock.Common.{
  List, Option, [], get_or, if◌then◌else◌, length, ltb, none, some, suc, zero, ℕ, ◌*◌, ◌+◌, ◌-◌,
  ◌==◌, ◌>>=◌, ◌∷◌,
}
use flip_de_flock.Common.Bytes.{Bytes, between, char_at}
use flip_de_flock.Common.Mac.{Mac}

-- `none` is the -1 of the source.
unfoldable pub esp_hexval : ℕ → Option ℕ
esp_hexval c =
    if between b'0' b'9' c
    then some (c - b'0')
    else if between b'a' b'f' c
    then some (c - b'a' + 10)
    else if between b'A' b'F' c
    then some (c - b'A' + 10)
    else none

unfoldable pub hex_pair : Bytes → ℕ → Option ℕ
hex_pair s i = do
  hi ← esp_hexval (char_at s i)
  lo ← esp_hexval (char_at s (i + 1))
  some (hi * 16 + lo)

unfoldable pub parse_mac_compact : Bytes → Option Mac
parse_mac_compact s = do
  a ← hex_pair s 0
  b ← hex_pair s 2
  c ← hex_pair s 4
  d ← hex_pair s 6
  e ← hex_pair s 8
  f ← hex_pair s 10
  some (record { b0 = a; b1 = b; b2 = c; b3 = d; b4 = e; b5 = f })

-- The callers that also test `strlen(s) >= 12`.
unfoldable pub parse_mac_field : Bytes → Option Mac
parse_mac_field s = if ltb (length s) 12 then none else parse_mac_compact s

-- The loop that collects bytes of hex until the buffer is full or a digit is missing.
unfoldable pub hex_bytes : ℕ → Bytes → Bytes
hex_bytes zero s = []
hex_bytes (suc room) (a ∷ (b ∷ s)) =
    let rest = hex_bytes room s in
    elim (esp_hexval a) [
      | none ↦ []
      | some hi ↦ elim (esp_hexval b) [ none ↦ [] | some lo ↦ (hi * 16 + lo) ∷ rest ]
    ]
hex_bytes (suc room) s = []

abbrev pub prepend : ℕ → List Bytes → List Bytes
prepend c [] = (c ∷ []) ∷ []
prepend c (f ∷ fs) = (c ∷ f) ∷ fs

-- The fields from here on, with `room` more commas to split at.
unfoldable pub split_more : ℕ → Bytes → List Bytes
split_more room [] = [] ∷ []
split_more zero (c ∷ s) = (c ∷ s) ∷ []
split_more (suc room) (c ∷ s) =
    let here = split_more room s in
    let later = split_more (suc room) s in if c == b',' then [] ∷ here else prepend c later

-- The number of fields is the length of the list; past `max` fields the rest of the line stays in
-- the last one.
unfoldable pub esp_split_fields : Bytes → ℕ → List Bytes
esp_split_fields line zero = []
esp_split_fields line (suc room) = split_more room line

abbrev pub field : List Bytes → ℕ → Bytes
field f i = get_or f i []
