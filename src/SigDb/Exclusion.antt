-- ===== src/SigDb/Exclusion.antt =====
-- Excluding a device, against the list that it stands for.
use flip_de_flock.Common.{
  Bool, Bool-cases, List, Option, [], ap, arith, false, if◌then◌else◌, inl, inr, leb, length,
  length-append, ltb, not, refl, subst, sym, take, true, ℕ, ◌&&◌, ◌++◌, ◌+◌, ◌-◌, ◌==◌, ◌||◌, ◌∙◌,
  ◌∷◌, ◌≡◌, ◌≢◌, ◌≤◌,
}
use flip_de_flock.Common.Bytes.{Bytes}
use flip_de_flock.Common.Mac.{Mac, mac_eq, mac_eq_refl}
use flip_de_flock.Common.Search.{any_of}
use flip_de_flock.FlockDb.Fingerprint.{flock_ie_fp_is_generic}
use flip_de_flock.SigDb.{is_no_device, sig_learned_parse_line, skip_blanks}
use flip_de_flock.SigDb.Append.{append_lem, empty_text, start_of}
use flip_de_flock.SigDb.Learn.{ignored_append, ignored_room, sig_ignored_header, sig_ignored_path}
use flip_de_flock.SigDb.Lines.{Kept, keep_fp, keep_line, keep_lines, keep_mac, lines_of, none_kept}
use flip_de_flock.SigDb.Storage.{IsReliable, Storage, text_of}
use flip_de_flock.SigDb.Text.{IsWhole, append-IsWhole, recorded, recorded-append, recorded-nil}

-- The list of exclusions without a card: an address is added unless it is there, and is refused if
-- there is no room; a fingerprint is added only next to an address, and only if it is one, no common
-- pattern, new, and there is room.
unfoldable pub exclude_spec : Kept → Mac → ℕ → Bool × Bool × Kept
exclude_spec k mac fp =
    if is_no_device mac || (not (any_of (λ x. mac_eq x mac) k.macs) && leb 32 (length k.macs))
    then (false, false, k)
    else let k1 = keep_mac 32 mac k in
      let by_fp =
        not (fp == 0)
        && (not (flock_ie_fp_is_generic fp)
            && (not (any_of (λ x. x == fp) k.fps) && ltb (length k.fps) 32)) in
      (true, by_fp, if by_fp then keep_fp 32 fp k1 else k1)

ignored_header-IsWhole : IsWhole sig_ignored_header
unfolding sig_ignored_header
ignored_header-IsWhole = inr (take (length sig_ignored_header - 1) sig_ignored_header, refl)

ignored_header-recorded : recorded ignored_room sig_ignored_header ≡ none_kept
unfolding sig_ignored_header keep_lines lines_of keep_line sig_learned_parse_line skip_blanks
ignored_header-recorded = refl

length-ignored_header : length sig_ignored_header ≤ 320
unfolding sig_ignored_header
length-ignored_header = omega arith

start-IsWhole : (t : Bytes) → IsWhole t → IsWhole (start_of sig_ignored_header t)
start-IsWhole t w = elim (Bool-cases (length t == 0)) [
  | inl new ↦ rw new ignored_header-IsWhole
  | inr old ↦ rw old w
]

start-recorded :
    (t : Bytes) → recorded ignored_room (start_of sig_ignored_header t) ≡ recorded ignored_room t
start-recorded t = elim (Bool-cases (length t == 0)) [
  | inl new ↦ rw (new, empty_text t new) (ignored_header-recorded ∙ sym (recorded-nil ignored_room))
  | inr old ↦ rw old
]

length-start : (t : Bytes) → length (start_of sig_ignored_header t) ≤ length t + 320
length-start t = elim (Bool-cases (length t == 0)) [
  | inl new ↦ rw new (omega (arith, length-ignored_header))
  | inr old ↦ rw old (omega arith)
]

module _ (S : Storage) (file : S.Card → Bytes → Option Bytes) (R : IsReliable S file) where
  abbrev pub ignored_text : S.Card → Bytes
  ignored_text c = text_of (file c sig_ignored_path)

  -- The file after a line, against the file before.
  pub record IsAdded (c c' : S.Card) (l : Bytes) : Type 0 where
    pub whole : IsWhole (ignored_text c')
    pub grown : length (ignored_text c') ≤ length (ignored_text c) + length l + 321
    pub holds :
        recorded ignored_room (ignored_text c')
        ≡ keep_line ignored_room (recorded ignored_room (ignored_text c)) l

  pub add_line :
      (c : S.Card) (l : Bytes)
      → IsWhole (ignored_text c)
      → any_of (λ x. x == b'\n') l ≡ false
      → ((ignored_append S c (l ++ b'\n' ∷ [])).0 ≡ true)
        × IsAdded c (ignored_append S c (l ++ b'\n' ∷ [])).1 l
  unfolding ignored_append
  add_line c l w h =
      let t = ignored_text c in
      let r = append_lem S file R c sig_ignored_path sig_ignored_header (l ++ b'\n' ∷ []) in
      let after : ignored_text (ignored_append S c (l ++ b'\n' ∷ [])).1
          ≡ start_of sig_ignored_header t ++ (l ++ b'\n' ∷ []) =
        ap text_of r.1 in
      (
        r.0,
        record {
          whole = subst IsWhole (sym after) (append-IsWhole (start_of sig_ignored_header t) l);
          grown = omega (
            arith,
            length-start t,
            ap length after,
            length-append (start_of sig_ignored_header t) (l ++ b'\n' ∷ []),
            length-append l (b'\n' ∷ []),
          );
          holds =
              ap (recorded ignored_room) after
              ∙ recorded-append ignored_room (start_of sig_ignored_header t) l (start-IsWhole t w) h
              ∙ ap (λ k. keep_line ignored_room k l) (start-recorded t);
        },
      )

any_of-last :
    {A : Type 0} (p : A → Bool) (xs : List A) (x : A) → p x ≡ true → any_of p (xs ++ x ∷ []) ≡ true
unfolding any_of
any_of-last p [] x h = ground arith
any_of-last p (y ∷ xs) x h = ground (arith, any_of-last p xs x h)

keep_mac_holds :
    (k : Kept) (m : Mac)
    → (not (any_of (λ x. mac_eq x m) k.macs) && leb 32 (length k.macs)) ≡ false
    → any_of (λ x. mac_eq x m) (keep_mac 32 m k).macs ≡ true
unfolding keep_mac
keep_mac_holds k m h = ground (arith, any_of-last (λ x. mac_eq x m) k.macs m (mac_eq_refl m))

keep_fp_holds :
    (k : Kept) (fp : ℕ)
    → ltb (length k.fps) 32 ≡ true
    → any_of (λ x. x == fp) (keep_fp 32 fp k).fps ≡ true
unfolding keep_fp
keep_fp_holds k fp h = ground (arith, any_of-last (λ x. x == fp) k.fps fp (ground arith))

keep_mac-fps : (k : Kept) (m : Mac) → (keep_mac 32 m k).fps ≡ k.fps
unfolding keep_mac
keep_mac-fps k m = ground arith

keep_fp-macs : (k : Kept) (fp : ℕ) → (keep_fp 32 fp k).macs ≡ k.macs
unfolding keep_fp
keep_fp-macs k fp = ground arith

-- What success promises: the address is on the list, and the fingerprint too if the flag says so.
pub exclude_spec_promise :
    (k : Kept) (m : Mac) (fp : ℕ)
    → (exclude_spec k m fp).0 ≡ true
    → (any_of (λ x. mac_eq x m) (exclude_spec k m fp).2.macs ≡ true)
      × ((exclude_spec k m fp).1 ≡ true
          → (fp ≢ 0) × (any_of (λ x. x == fp) (exclude_spec k m fp).2.fps ≡ true))
unfolding exclude_spec
exclude_spec_promise k m fp h =
    let k1 = keep_mac 32 m k in
    (
      ground (arith, keep_mac_holds k m, keep_fp-macs k1 fp),
      λ f. (λ z. ground arith, ground (arith, keep_mac-fps k m, keep_fp_holds k1 fp)),
    )
