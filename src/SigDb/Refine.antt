-- ===== src/SigDb/Refine.antt =====
-- The file of exclusions is the list of exclusions.
use flip_de_flock.Common.{
  Bool, Bool-cases, List, Option, ap, arith, false, if◌then◌else◌, inl, inr, leb, length, ltb, map,
  not, refl, sym, true, ℕ, ◌&&◌, ◌+◌, ◌<◌, ◌==◌, ◌^◌, ◌||◌, ◌∙◌, ◌≡◌, ◌≢◌, ◌≤◌,
}
use flip_de_flock.Common.Bytes.{Bytes}
use flip_de_flock.Common.Mac.{Mac, mac_eq}
use flip_de_flock.Common.Print.{hex_digit, hex_u32, u32_nibbles}
use flip_de_flock.Common.Search.{any_of}
use flip_de_flock.FlockDb.Fingerprint.{flock_ie_fp_is_generic}
use flip_de_flock.FlockStore.RoundTrip.{IsMac}
use flip_de_flock.SigDb.{fp_line, is_no_device, mac_line, mac_nibbles}
use flip_de_flock.SigDb.Append.{read_lem}
use flip_de_flock.SigDb.Exclusion.{add_line, exclude_spec, ignored_text}
use flip_de_flock.SigDb.Hex.{mac_nibbles-IsNibble, parse-hex_u32, parse-mac_nibbles}
use flip_de_flock.SigDb.Learn.{
  ignore_fp, ignore_mac, ignored_room, sig_db_ignore_add, sig_db_ignored_read, sig_ignored_path,
}
use flip_de_flock.SigDb.Lines.{Kept, keep_fp, keep_line, keep_mac, sig_lines_read, sig_max_file}
use flip_de_flock.SigDb.Storage.{IsReliable, Storage}
use flip_de_flock.SigDb.Text.{IsWhole, digits_one_line, recorded}

mac_line_kept :
    (k : Kept) (m : Mac)
    → IsMac m
    → is_no_device m ≡ false
    → keep_line ignored_room k (map hex_digit (mac_nibbles m)) ≡ keep_mac 32 m k
unfolding keep_line
mac_line_kept k m v d =
    let (w, p, e) = parse-mac_nibbles m v d in rw p (ap (λ x. keep_mac 32 x k) e)

fp_line_kept :
    (k : Kept) (fp : ℕ)
    → fp < 2 ^ 32
    → fp ≢ 0
    → keep_line ignored_room k (hex_u32 fp) ≡ keep_fp 32 fp k
unfolding keep_line
fp_line_kept k fp h z = rw (parse-hex_u32 fp h z) (ap (λ x. keep_fp 32 x k) (omega arith))

keep_mac_known : (k : Kept) (m : Mac) → any_of (λ x. mac_eq x m) k.macs ≡ true → keep_mac 32 m k ≡ k
unfolding keep_mac
keep_mac_known k m h = elim (Bool-cases (ltb (length k.macs) 32)) [
  | inl room ↦ rw (room, h)
  | inr full ↦ rw full
]

hex_u32_one_line : (fp : ℕ) → any_of (λ c. c == b'\n') (hex_u32 fp) ≡ false
unfolding hex_u32
hex_u32_one_line fp = digits_one_line (u32_nibbles fp) (omega arith)

length-hex_u32 : (fp : ℕ) → length (hex_u32 fp) ≡ 8
unfolding hex_u32
length-hex_u32 fp = refl

some_of : (a b known : Bool) → a ≡ not known → ((a || b) || known) ≡ true
some_of a b true e = ground arith
some_of a b false e = ground arith

-- The test in front of a fingerprint's line.
abbrev takes_fp : List ℕ → ℕ → Bool
takes_fp fps fp =
    not (fp == 0)
    && (not (flock_ie_fp_is_generic fp) && (not (any_of (λ x. x == fp) fps) && ltb (length fps) 32))

module _ (S : Storage) (file : S.Card → Bytes → Option Bytes) (R : IsReliable S file) where
  -- The card's file is whole, holds `k`, and has at most so many bytes.
  record Holds (c : S.Card) (k : Kept) (n : ℕ) : Type 0 where
    pub whole : IsWhole (ignored_text S file R c)
    pub holds : recorded ignored_room (ignored_text S file R c) ≡ k
    pub small : length (ignored_text S file R c) ≤ n

  mac_step :
      (c : S.Card) (k : Kept) (n : ℕ) (m : Mac) (dup : Bool)
      → IsMac m
      → is_no_device m ≡ false
      → any_of (λ x. mac_eq x m) k.macs ≡ dup
      → Holds c k n
      → let r = ignore_mac S c dup m in (r.0 ≡ not dup) × Holds r.1 (keep_mac 32 m k) (n + 340)
  unfolding ignore_mac mac_line
  mac_step c k n m true v d e h = (
    refl,
    record {
      whole = h.whole;
      holds = h.holds ∙ sym (keep_mac_known k m e);
      small = omega (arith, h.small);
    },
  )
  mac_step c k n m false v d e h =
      let l = map hex_digit (mac_nibbles m) in
      let (written, a) =
        add_line S file R c l h.whole
          (digits_one_line (mac_nibbles m) (mac_nibbles-IsNibble m v)) in
      (
        written,
        unfold mac_line in
            record {
              whole = a.whole;
              holds =
                  a.holds ∙ ap (λ x. keep_line ignored_room x l) h.holds ∙ mac_line_kept k m v d;
              small = omega (arith, a.grown, h.small);
            },
      )

  fp_step :
      (c : S.Card) (k : Kept) (have : List ℕ) (n fp : ℕ) (ok : Bool)
      → fp < 2 ^ 32
      → takes_fp have fp ≡ ok
      → Holds c k n
      → let r = ignore_fp S c have fp in
        (r.0 ≡ ok) × Holds r.1 (if ok then keep_fp 32 fp k else k) (n + 340)
  unfolding ignore_fp fp_line
  fp_step c k have n fp false v e h =
      rw e (refl, record { whole = h.whole; holds = h.holds; small = omega (arith, h.small) })
  fp_step c k have n fp true v e h =
      let seen : fp ≢ 0 = λ z. ground arith in
      let (written, a) = add_line S file R c (hex_u32 fp) h.whole (hex_u32_one_line fp) in
      rw e (
        written,
        record {
          whole = a.whole;
          holds =
              a.holds
              ∙ ap (λ x. keep_line ignored_room x (hex_u32 fp)) h.holds
              ∙ fp_line_kept k fp v seen;
          small = omega (arith, a.grown, h.small, length-hex_u32 fp);
        },
      )

  -- One exclusion on a card whose calls succeed, from a file that is empty or ends with a newline and
  -- has 700 bytes left to the reader's limit: the result, the flag for the fingerprint, and the list
  -- that is read back from the card are those of the list without a card, and the file is again whole.
  pub ignore_add-refines :
      (c : S.Card) (m : Mac) (fp : ℕ)
      → IsMac m
      → fp < 2 ^ 32
      → IsWhole (ignored_text S file R c)
      → length (ignored_text S file R c) + 700 ≤ sig_max_file
      → let r = sig_db_ignore_add S c m fp in
        let spec = exclude_spec (sig_db_ignored_read S c ignored_room) m fp in
        (r.0 ≡ spec.0)
        × (r.1 ≡ spec.1)
        × (sig_db_ignored_read S r.2 ignored_room ≡ spec.2)
        × IsWhole (ignored_text S file R r.2)
  unfolding sig_db_ignore_add exclude_spec sig_db_ignored_read
  ignore_add-refines c m fp v u w l =
      let k = sig_lines_read S c sig_ignored_path ignored_room in
      let known = any_of (λ x. mac_eq x m) k.macs in
      let start : Holds c k (length (ignored_text S file R c)) = record {
        whole = w;
        holds = sym (read_lem S file R c sig_ignored_path ignored_room (omega arith));
        small = omega arith;
      } in
      elim (Bool-cases (is_no_device m)) [
        | inl nobody ↦ rw nobody (refl, refl, refl, w)
        | inr some_device ↦ elim (Bool-cases (not known && leb 32 (length k.macs))) [
          | inl full ↦ rw (some_device, full) (refl, refl, refl, w)
          | inr room ↦
              let (marked, h1) = mac_step c k _ m known v some_device refl start in
              let c1 = (ignore_mac S c known m).1 in
              let (flagged, h2) =
                fp_step c1 (keep_mac 32 m k) k.fps _ fp (takes_fp k.fps fp) u refl h1 in
              let c2 = (ignore_fp S c1 k.fps fp).1 in
              rw (some_device, room)
                (
                  some_of _ _ known marked,
                  flagged,
                  read_lem S file R c2 sig_ignored_path ignored_room (omega (arith, h2.small))
                      ∙ h2.holds,
                  h2.whole,
                )
        ]
      ]
