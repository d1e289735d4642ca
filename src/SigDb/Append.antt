-- ===== src/SigDb/Append.antt =====
-- Reading and appending on a card whose calls succeed.
use flip_de_flock.Common.{
  Bool-cases, Option, Option-cases, [], ap, arith, if◌then◌else◌, inl, inr, leb, length, ltb, none,
  refl, some, subst, sym, true, ◌%◌, ◌++◌, ◌<◌, ◌==◌, ◌^◌, ◌∙◌, ◌∷◌, ◌≡◌, ◌≤◌,
}
use flip_de_flock.Common.Bytes.{Bytes}
use flip_de_flock.SigDb.Lines.{
  Room, read_whole, sig_lines_append, sig_lines_read, sig_max_file, write_header,
}
use flip_de_flock.SigDb.Storage.{IsReliable, Storage, text_of}
use flip_de_flock.SigDb.Text.{recorded, recorded-nil}

-- What stands in front of the new line: a new file starts with the header.
abbrev pub start_of : Bytes → Bytes → Bytes
start_of header t = if length t == 0 then header else t

pub empty_text : (t : Bytes) → (length t == 0) ≡ true → t ≡ []
empty_text [] h = refl
empty_text (c ∷ t) h = absurd (ground arith)

module _ (S : Storage) (file : S.Card → Bytes → Option Bytes) (R : IsReliable S file) where
  read_missing : (c : S.Card) (p : Bytes) → file c p ≡ none → read_whole S c p ≡ none
  unfolding read_whole
  read_missing c p gone = rw (R.missing c p gone)

  read_empty : (c : S.Card) (p : Bytes) → file c p ≡ some [] → read_whole S c p ≡ none
  unfolding read_whole
  read_empty c p e = rw (R.present c p [] e, R.sized c p [] e)

  read_present :
      (c : S.Card) (p b : Bytes)
      → file c p ≡ some b
      → 0 < length b
      → length b ≤ sig_max_file
      → read_whole S c p ≡ some b
  unfolding read_whole
  read_present c p b e h l =
      let some_text : ltb 0 (length b) ≡ true = ground arith in
      let fits : leb (length b) sig_max_file ≡ true = ground arith in
      let cast : length b % 2 ^ 16 ≡ length b = omega arith in
      let whole : (length b == length b) ≡ true = ground arith in
      rw (R.present c p b e, R.sized c p b e, cast, R.reads c p b e, some_text, fits, whole)

  pub read_lem :
      (c : S.Card) (p : Bytes) (room : Room)
      → length (text_of (file c p)) ≤ sig_max_file
      → sig_lines_read S c p room ≡ recorded room (text_of (file c p))
  unfolding sig_lines_read
  read_lem c p room h = elim (Option-cases (file c p)) [
    | inl gone ↦ rw (read_missing c p gone, gone) (sym (recorded-nil room))
    | inr ([], e) ↦ rw (read_empty c p e, e) (sym (recorded-nil room))
    | inr (x ∷ b, e) ↦
        let fits : length (x ∷ b) ≤ sig_max_file =
          subst (λ o. length (text_of o) ≤ sig_max_file) e h in
        rw (read_present c p (x ∷ b) e (omega arith) fits, e)
  ]

  pub append_lem :
      (c : S.Card) (p header l : Bytes)
      → let r = sig_lines_append S c p header l in
        (r.0 ≡ true) × (file r.1 p ≡ some (start_of header (text_of (file c p)) ++ l))
  unfolding sig_lines_append
  append_lem c p header l =
      let t = text_of (file c p) in
      let c1 = (S.open_append (S.mkdir c) p).1 in
      let there : file c1 p ≡ some t =
        R.made (S.mkdir c) p ∙ ap (λ o. some (text_of o)) (R.keeps c p) in
      let c2 = write_header S c1 p header in
      let begun : file c2 p ≡ some (start_of header t) = elim (Bool-cases (length t == 0)) [
        | inl new ↦
            rw (R.sized c1 p t there, new)
              (R.written c1 p t header there ∙ ap (λ s. some (s ++ header)) (empty_text t new))
        | inr old ↦ rw (R.sized c1 p t there, old) there
      ] in
      let same : (length l == length l) ≡ true = ground arith in
      (
        rw (R.opens (S.mkdir c) p, R.writes c2 p l) same,
        rw (R.opens (S.mkdir c) p) (R.written c2 p (start_of header t) l begun),
      )
