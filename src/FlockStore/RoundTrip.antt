-- ===== src/FlockStore/RoundTrip.antt =====
-- What is written to hits.csv is read back.
use flip_de_flock.Common.{
  Bool-cases, [], ap, append_assoc, arith, false, inl, inr, length, length-take, refl, some, suc,
  take, true, zero, ℕ, ◌%◌, ◌*◌, ◌++◌, ◌+◌, ◌-◌, ◌/◌, ◌<◌, ◌∙◌, ◌∷◌, ◌≡◌, ◌≤◌,
}
use flip_de_flock.Common.Bytes.{Bytes, char_at}
use flip_de_flock.Common.Mac.{Mac}
use flip_de_flock.Common.Search.{any_of}
use flip_de_flock.FlockStore.{
  close_quoted, fs_byte, fs_colon_byte, fs_hex_nibble, fs_next_field, fs_parse_mac, past_comma,
}
use flip_de_flock.FlockStore.Field.{
  any_of-take, doubled, quote_body-doubled, read_plain_lem, read_quoted-doubled,
}
use flip_de_flock.ReportEscape.{csv_field_escape, csv_special, quote, quote_body}
use flip_de_flock.ReportFmt.{fmt_mac, hex_upper}

pub take_all : (k : ℕ) (s : Bytes) → length s ≤ k → take k s ≡ s
take_all zero [] h = refl
take_all zero (c ∷ s) h = absurd (omega arith)
take_all (suc k) [] h = refl
take_all (suc k) (c ∷ s) h = ap (λ t. c ∷ t) (take_all k s (omega arith))

-- `text` is a prefix of the field, and a reader with a buffer of `m` bytes finds it.
pub record ReadsBack (s : Bytes) (n m : ℕ) (rest e text : Bytes) (k : ℕ) : Type 0 where
  pub is_prefix : text ≡ take k s
  pub found : fs_next_field (e ++ (b',' ∷ rest)) m ≡ some (text, rest, true)
  pub exact : 3 + 2 * length s ≤ n → text ≡ s

pub plain_field :
    (m : ℕ) (t rest : Bytes)
    → any_of csv_special t ≡ false
    → length t < m
    → fs_next_field (t ++ (b',' ∷ rest)) m ≡ some (t, rest, true)
unfolding fs_next_field past_comma any_of
plain_field m [] rest h l = ground (arith, read_plain_lem m 0 [] rest h (omega arith))
plain_field m (c ∷ t) rest h l = ground (arith, read_plain_lem m 0 (c ∷ t) rest h (omega arith))

quoted_field :
    (m : ℕ) (t rest : Bytes)
    → length t < m
    → fs_next_field (quote ∷ (doubled t ++ (quote ∷ b',' ∷ rest))) m ≡ some (t, rest, true)
unfolding fs_next_field close_quoted
quoted_field m t rest l = rw (read_quoted-doubled m 0 t rest (omega arith))

length-take-le : (k : ℕ) (s : Bytes) → length (take k s) ≤ length s
length-take-le k s = omega (arith, length-take k s)

-- Whatever `csv_field_escape` writes into a buffer of three bytes or more, cut or not, reads back
-- through `fs_next_field` as a prefix of the field, with the rest of the record behind the comma
-- untouched; and as the whole field if the buffer has two bytes for each of its bytes and three
-- more. The reader's buffer must hold the field.
pub csv-ReadsBack :
    (s rest : Bytes) (n m : ℕ)
    → 3 ≤ n
    → length s < m
    → (e : Bytes) × (text : Bytes) × (k : ℕ) × (csv_field_escape s n ≡ some e)
      × ReadsBack s n m rest e text k
unfolding csv_field_escape
csv-ReadsBack s rest n m h l = elim (Bool-cases (any_of csv_special s)) [
  | inr none_special ↦ (
    take (n - 1) s,
    take (n - 1) s,
    n - 1,
    ground arith,
    record {
      is_prefix = refl;
      found =
          plain_field m (take (n - 1) s) rest (any_of-take csv_special (n - 1) s none_special)
            (omega (arith, length-take-le (n - 1) s));
      exact = λ f. take_all (n - 1) s (omega arith);
    },
  )
  | inl special ↦
      let (k, body, le, all) = quote_body-doubled (n - 2) 1 s in
      (
        quote ∷ (quote_body (n - 2) 1 s ++ (quote ∷ [])),
        take k s,
        k,
        ground arith,
        record {
          is_prefix = refl;
          found =
              rw (body, append_assoc (doubled (take k s)) (quote ∷ []) (b',' ∷ rest))
                (quoted_field m (take k s) rest (omega (arith, length-take-le k s)));
          exact = λ f. take_all k s (omega (arith, all (omega arith)));
        },
      )
]

nibble_hex : (n : ℕ) → n < 16 → fs_hex_nibble (hex_upper n) ≡ some n
unfolding fs_hex_nibble
nibble_hex n h = ground arith

two_nibbles :
    (s : Bytes) (at hi lo : ℕ)
    → fs_hex_nibble (char_at s at) ≡ some hi
    → fs_hex_nibble (char_at s (at + 1)) ≡ some lo
    → fs_byte s at ≡ some (hi * 16 + lo)
unfolding fs_byte
two_nibbles s at hi lo p q = ground arith

byte_at :
    (s : Bytes) (at b : ℕ)
    → b < 256
    → char_at s at ≡ hex_upper (b / 16)
    → char_at s (at + 1) ≡ hex_upper (b % 16)
    → fs_byte s at ≡ some b
byte_at s at b h p q =
    two_nibbles s at (b / 16) (b % 16) (ap fs_hex_nibble p ∙ nibble_hex (b / 16) (omega arith))
      (ap fs_hex_nibble q ∙ nibble_hex (b % 16) (omega arith))
    ∙ ap some (omega arith)

-- The bytes of an address are bytes.
pub record IsMac (m : Mac) : Type 0 where
  pub byte0 : m.b0 < 256
  pub byte1 : m.b1 < 256
  pub byte2 : m.b2 < 256
  pub byte3 : m.b3 < 256
  pub byte4 : m.b4 < 256
  pub byte5 : m.b5 < 256

-- An address that `fmt_mac` writes into a buffer of 18 bytes reads back as itself.
pub parse_mac-fmt_mac : (m : Mac) → IsMac m → fs_parse_mac (fmt_mac 18 m) ≡ some m
unfolding fs_parse_mac fs_colon_byte fmt_mac
parse_mac-fmt_mac m v =
    let s = fmt_mac 18 m in
    rw (
      byte_at s 0 m.b0 v.byte0 refl refl,
      byte_at s 3 m.b1 v.byte1 refl refl,
      byte_at s 6 m.b2 v.byte2 refl refl,
      byte_at s 9 m.b3 v.byte3 refl refl,
      byte_at s 12 m.b4 v.byte4 refl refl,
      byte_at s 15 m.b5 v.byte5 refl refl,
    )

-- A field that `csv_field_escape` writes into a buffer with two bytes for each of its bytes and
-- three more, and that is followed by a comma, is read back whole by `fs_next_field` into a buffer
-- that holds it, and the rest of the record is what is left to read.
pub csv_field_survives :
    (s rest : Bytes) (n m : ℕ)
    → 3 + 2 * length s ≤ n
    → length s < m
    → (e : Bytes) × (csv_field_escape s n ≡ some e)
      × (fs_next_field (e ++ (b',' ∷ rest)) m ≡ some (s, rest, true))
csv_field_survives s rest n m h l =
    let (e, text, k, p, r) = csv-ReadsBack s rest n m (omega arith) l in
    (e, p, r.found ∙ ap (λ t. some (t, rest, true)) (r.exact h))
