-- ===== src/SigDb/Text.antt =====
-- What a text of lines holds, and what one more line adds to it.
use flip_de_flock.Common.{
  Bool-cases, List, [], ap, append_assoc, arith, false, inl, inr, map, refl, sym, ℕ, ◌++◌, ◌<◌,
  ◌==◌, ◌∙◌, ◌∷◌, ◌≡◌, ◌⊎◌,
}
use flip_de_flock.Common.Bytes.{Bytes}
use flip_de_flock.Common.Print.{hex_digit}
use flip_de_flock.Common.Search.{All, any_of}
use flip_de_flock.SigDb.{sig_learned_parse_line, skip_blanks}
use flip_de_flock.SigDb.Lines.{Kept, Room, keep_line, keep_lines, lines_of, none_kept, onto_first}

-- A text that is empty or ends with a newline.
abbrev pub IsWhole : Bytes → Type 0
IsWhole t = (t ≡ []) ⊎ ((g : Bytes) × (t ≡ g ++ b'\n' ∷ []))

-- What a reader gets out of a whole text.
abbrev pub recorded : Room → Bytes → Kept
recorded room t = keep_lines room none_kept (lines_of t)

lines_of-cons : (s : Bytes) → (l : Bytes) × (ls : List Bytes) × (lines_of s ≡ l ∷ ls)
unfolding lines_of
lines_of-cons [] = ([], [], refl)
lines_of-cons (c ∷ s) =
    let (l, ls, e) = lines_of-cons s in
    elim (Bool-cases (c == b'\n')) [
      | inl n ↦ ([], lines_of s, rw n)
      | inr p ↦ (c ∷ l, ls, rw (p, e))
    ]

onto_first-append :
    (c : ℕ) (s : Bytes) (ls : List Bytes)
    → onto_first c (lines_of s ++ ls) ≡ onto_first c (lines_of s) ++ ls
onto_first-append c s ls = let (l, m, e) = lines_of-cons s in rw e

lines_of-append : (s t : Bytes) → lines_of (s ++ b'\n' ∷ t) ≡ lines_of s ++ lines_of t
unfolding lines_of
lines_of-append [] t = refl
lines_of-append (c ∷ s) t = elim (Bool-cases (c == b'\n')) [
  | inl n ↦ rw (n, lines_of-append s t)
  | inr p ↦ rw (p, lines_of-append s t, onto_first-append c s (lines_of t))
]

lines_of-one : (l : Bytes) → any_of (λ c. c == b'\n') l ≡ false → lines_of l ≡ l ∷ []
unfolding lines_of any_of
lines_of-one [] h = refl
lines_of-one (c ∷ l) h = ground (arith, lines_of-one l)

keep_lines-append :
    (room : Room) (k : Kept) (ls ms : List Bytes)
    → keep_lines room k (ls ++ ms) ≡ keep_lines room (keep_lines room k ls) ms
unfolding keep_lines
keep_lines-append room k [] ms = refl
keep_lines-append room k (l ∷ ls) ms = keep_lines-append room (keep_line room k l) ls ms

keep_line-nil : (room : Room) (k : Kept) → keep_line room k [] ≡ k
unfolding keep_line sig_learned_parse_line skip_blanks
keep_line-nil room k = refl

-- The text up to a newline counts line by line, and so does what follows.
recorded-split :
    (room : Room) (g t : Bytes)
    → recorded room (g ++ b'\n' ∷ t) ≡ keep_lines room (recorded room g) (lines_of t)
recorded-split room g t =
    ap (keep_lines room none_kept) (lines_of-append g t)
    ∙ keep_lines-append room none_kept (lines_of g) (lines_of t)

last_line :
    (room : Room) (k : Kept) (l : Bytes)
    → any_of (λ c. c == b'\n') l ≡ false
    → keep_lines room k (lines_of (l ++ b'\n' ∷ [])) ≡ keep_line room k l
unfolding keep_lines
last_line room k l h =
    ap (keep_lines room k) (lines_of-append l [])
    ∙ rw (lines_of-one l h) (unfold lines_of in keep_line-nil room (keep_line room k l))

pub recorded-nil : (room : Room) → recorded room [] ≡ none_kept
unfolding keep_lines lines_of
recorded-nil room = keep_line-nil room none_kept

-- A line that is added behind a whole text is read after the lines that were there.
pub recorded-append :
    (room : Room) (t l : Bytes)
    → IsWhole t
    → any_of (λ c. c == b'\n') l ≡ false
    → recorded room (t ++ (l ++ b'\n' ∷ [])) ≡ keep_line room (recorded room t) l
recorded-append room t l (inl e) h = rw (e, recorded-nil room) (last_line room none_kept l h)
recorded-append room t l (inr (g, e)) h =
    let same : recorded room t ≡ recorded room g =
      ap (recorded room) e
      ∙ recorded-split room g []
      ∙ (unfold keep_lines lines_of in keep_line-nil room (recorded room g)) in
    ap (λ s. recorded room (s ++ (l ++ b'\n' ∷ []))) e
    ∙ ap (recorded room) (append_assoc g (b'\n' ∷ []) (l ++ b'\n' ∷ []))
    ∙ recorded-split room g (l ++ b'\n' ∷ [])
    ∙ last_line room (recorded room g) l h
    ∙ ap (λ k. keep_line room k l) (sym same)

pub append-IsWhole : (t l : Bytes) → IsWhole (t ++ (l ++ b'\n' ∷ []))
append-IsWhole t l = inr (t ++ l, sym (append_assoc t l (b'\n' ∷ [])))

-- The lines of digits have no newline.
pub digits_one_line :
    (ns : List ℕ) → All (λ n. n < 16) ns → any_of (λ c. c == b'\n') (map hex_digit ns) ≡ false
unfolding any_of
digits_one_line [] a = refl
digits_one_line (n ∷ ns) a = ground (arith, digits_one_line ns a.1)
