-- ===== src/ReportEscape.antt =====
-- helpers/report_escape.c: text fields for CSV, JSON, Markdown and XML reports. The result is what
-- stands in `out` before the NUL, and `none` where `out_len` is 0 and nothing is written.
pub mod Loop
pub mod Json
pub mod Markup
use flip_de_flock.Common.{
  Bool, Option, [], if◌then◌else◌, length, ltb, none, not, some, take, ℕ, ◌%◌, ◌&&◌, ◌++◌, ◌+◌, ◌-◌,
  ◌/◌, ◌==◌, ◌||◌, ◌∷◌,
}
use flip_de_flock.Common.Bytes.{Bytes, codes}
use flip_de_flock.Common.Print.{hex_digit}
use flip_de_flock.Common.Search.{any_of}

abbrev pub quote : ℕ
quote = b'"'

abbrev pub csv_special : ℕ → Bool
csv_special c = c == b',' || (c == quote || (c == b'\n' || c == b'\r'))

-- The loop after the opening quote, with `j` bytes written and `limit` = `out_len - 2`.
unfoldable pub quote_body : ℕ → ℕ → Bytes → Bytes
quote_body limit j [] = []
quote_body limit j (c ∷ s) =
    let need = if c == quote then 2 else 1 in
    let rest = quote_body limit (j + need) s in
    if ltb limit (j + need) then [] else if c == quote then quote ∷ quote ∷ rest else c ∷ rest

unfoldable pub csv_field_escape : Bytes → ℕ → Option Bytes
csv_field_escape s out_len =
    if out_len == 0
    then none
    else if not (any_of csv_special s)
    then some (take (out_len - 1) s)
    else if ltb out_len 3
    then some []
    else some (quote ∷ (quote_body (out_len - 2) 1 s ++ (quote ∷ [])))

-- The loop of the other three functions: each byte becomes a sequence, which is written whole or
-- not at all; the first that does not fit ends the loop. `limit` is `out_len - 1`.
unfoldable pub escape_loop : (ℕ → Bytes) → ℕ → ℕ → Bytes → Bytes
escape_loop seq limit j [] = []
escape_loop seq limit j (c ∷ s) =
    let need = length (seq c) in
    let rest = escape_loop seq limit (j + need) s in
    if ltb limit (j + need) then [] else seq c ++ rest

unfoldable pub escape_with : (ℕ → Bytes) → Bytes → ℕ → Option Bytes
escape_with seq s out_len = if out_len == 0 then none else some (escape_loop seq (out_len - 1) 0 s)

unfoldable pub json_seq : ℕ → Bytes
json_seq c =
    if c == quote
    then b'\\' ∷ quote ∷ []
    else if c == b'\\'
    then b'\\' ∷ b'\\' ∷ []
    else if c == b'\n'
    then b'\\' ∷ b'n' ∷ []
    else if c == b'\r'
    then b'\\' ∷ b'r' ∷ []
    else if c == b'\t'
    then b'\\' ∷ b't' ∷ []
    else if ltb c 0x20
    then b'\\' ∷ b'u' ∷ b'0' ∷ b'0' ∷ hex_digit (c / 16) ∷ hex_digit (c % 16) ∷ []
    else c ∷ []

unfoldable pub json_escape : Bytes → ℕ → Option Bytes
json_escape = escape_with json_seq

unfoldable pub md_seq : ℕ → Bytes
md_seq c =
    if c == b'|'
    then b'\\' ∷ b'|' ∷ []
    else if c == b'`'
    then b'\'' ∷ []
    else if ltb c 0x20
    then b' ' ∷ []
    else c ∷ []

unfoldable pub md_escape : Bytes → ℕ → Option Bytes
md_escape = escape_with md_seq

-- A control character that XML forbids is dropped: its sequence is empty, which always fits.
unfoldable pub xml_seq : ℕ → Bytes
xml_seq c =
    if c == b'&'
    then codes "&amp;"
    else if c == b'<'
    then codes "&lt;"
    else if c == b'>'
    then codes "&gt;"
    else if c == quote
    then codes "&quot;"
    else if c == b'\''
    then codes "&apos;"
    else if ltb c 0x20 && (not (c == b'\t') && (not (c == b'\n') && not (c == b'\r')))
    then []
    else c ∷ []

unfoldable pub xml_escape : Bytes → ℕ → Option Bytes
xml_escape = escape_with xml_seq
