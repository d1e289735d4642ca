-- ===== src/FlockStore.antt =====
-- helpers/flock_store.c: the saved hits. Here: fields, addresses, versions and the order of
-- eviction. A whole line is in FlockStore/Line (writing) and FlockStore/Parse (reading).
pub mod Field
pub mod RoundTrip
pub mod Evict
pub mod Line
pub mod Parse
pub mod Columns
pub mod Stored
pub mod Width
pub mod Whole
pub mod Accepts
use flip_de_flock.Common.{
  Bool, List, Option, [], false, if◌then◌else◌, length, ltb, none, some, true, ℕ, ◌*◌, ◌+◌, ◌-◌,
  ◌==◌, ◌>>=◌, ◌∷◌,
}
use flip_de_flock.Common.Bytes.{Bytes, between, bytes_eq, char_at, codes}
use flip_de_flock.Common.Mac.{Mac}
use flip_de_flock.Common.Search.{any_of}
use flip_de_flock.ReportEscape.{quote}

-- A hex digit's value; `none` is the -1 of the source.
unfoldable pub fs_hex_nibble : ℕ → Option ℕ
fs_hex_nibble c =
    if between b'0' b'9' c
    then some (c - b'0')
    else if between b'a' b'f' c
    then some (c - b'a' + 10)
    else if between b'A' b'F' c
    then some (c - b'A' + 10)
    else none

-- Two digits at an index.
unfoldable pub fs_byte : Bytes → ℕ → Option ℕ
fs_byte s at = elim (fs_hex_nibble (char_at s at)) [
  | none ↦ none
  | some hi ↦ elim (fs_hex_nibble (char_at s (at + 1))) [
    | none ↦ none
    | some lo ↦ some (hi * 16 + lo)
  ]
]

-- A byte of the address after the first, with the colon in front of it.
unfoldable pub fs_colon_byte : Bytes → ℕ → Option ℕ
fs_colon_byte s at = if char_at s (at - 1) == b':' then fs_byte s at else none

unfoldable pub fs_parse_mac : Bytes → Option Mac
fs_parse_mac s = if length s == 17 then bytes else none
  where
    bytes : Option Mac
    bytes = do
      a ← fs_byte s 0
      b ← fs_colon_byte s 3
      c ← fs_colon_byte s 6
      d ← fs_colon_byte s 9
      e ← fs_colon_byte s 12
      f ← fs_colon_byte s 15
      some (record { b0 = a; b1 = b; b2 = c; b3 = d; b4 = e; b5 = f })

-- What a reader of a field leaves: the content written to `out`, what follows the closing quote or
-- the last byte of the field.
abbrev pub Part : Type 0
Part = Bytes × Bytes

-- `if(w + 1 < out_len) out[w++] = c`, in front of what is written later.
abbrev pub put : ℕ → ℕ → ℕ → Bytes → Bytes
put n w c out = if ltb (w + 1) n then c ∷ out else out

abbrev pub bump : ℕ → ℕ → ℕ
bump n w = if ltb (w + 1) n then w + 1 else w

abbrev pub put_part : ℕ → ℕ → ℕ → Option Part → Option Part
put_part n w c none = none
put_part n w c (some (out, rest)) = some (put n w c out, rest)

-- The loop behind the opening quote. A quote as the last byte closes the field.
unfoldable pub read_quoted : ℕ → ℕ → Bytes → Option Part
read_quoted n w [] = none
read_quoted n w (c ∷ []) = if c == quote then some ([], []) else none
read_quoted n w (c ∷ (d ∷ s)) =
    let twice = put_part n w quote (read_quoted n (bump n w) s) in
    let plain = put_part n w c (read_quoted n (bump n w) (d ∷ s)) in
    if c == quote then if d == quote then twice else some ([], d ∷ s) else plain

-- The loop over a field that is not quoted.
unfoldable pub read_plain : ℕ → ℕ → Bytes → Part
read_plain n w [] = ([], [])
read_plain n w (c ∷ s) =
    let (out, rest) = read_plain n (bump n w) s in
    if c == b',' then ([], c ∷ s) else (put n w c out, rest)

-- The end of `fs_next_field`: the comma, if one follows, is passed over.
unfoldable pub past_comma : Part → Bytes × Bytes × Bool
past_comma (out, []) = (out, [], false)
past_comma (out, c ∷ s) = if c == b',' then (out, s, true) else (out, c ∷ s, false)

unfoldable pub close_quoted : Option Part → Option (Bytes × Bytes × Bool)
close_quoted none = none
close_quoted (some (out, [])) = some (out, [], false)
close_quoted (some (out, c ∷ s)) = if c == b',' then some (out, s, true) else none

-- `fs_next_field`: the content, what is left to read, and `had_comma`.
unfoldable pub fs_next_field : Bytes → ℕ → Option (Bytes × Bytes × Bool)
fs_next_field [] n = some ([], [], false)
fs_next_field (c ∷ s) n =
    if c == quote
    then close_quoted (read_quoted n 0 s)
    else some (past_comma (read_plain n 0 (c ∷ s)))

abbrev pub schemas : List Bytes
schemas =
    codes "# FlipDeFlock hits v4"
    ∷ codes "# FlipDeFlock hits v3"
    ∷ codes "# FlipDeFlock hits v2"
    ∷ codes "# FlipDeFlock hits v1"
    ∷ []

unfoldable pub flock_store_schema_supported : Option Bytes → Bool
flock_store_schema_supported none = false
flock_store_schema_supported (some line) = any_of (bytes_eq line) schemas

unfoldable pub flock_store_evict_better : ℕ → ℕ → ℕ → ℕ → Bool
flock_store_evict_better conf_a epoch_a conf_b epoch_b =
    if conf_a == conf_b then ltb epoch_a epoch_b else ltb conf_a conf_b
