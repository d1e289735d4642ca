-- ===== src/Marauder/Counts.antt =====
-- How many addresses a line has, and how many are kept.
use flip_de_flock.Common.{
  Bool, Bool-cases, List, Option, Option-cases, [], arith, inl, inr, length, length-append, ltb,
  none, refl, some, suc, zero, ℕ, ◌+◌, ◌<◌, ◌==◌, ◌∷◌, ◌≡◌, ◌≤◌, ◌⊎◌,
}
use flip_de_flock.Common.Bytes.{Bytes}
use flip_de_flock.Common.Mac.{Mac}
use flip_de_flock.FlockDb.Types.{Extras, FlockConfidence}
use flip_de_flock.Marauder.{
  MarauderHit, Walk, add_hit, line_conf, marauder_scan_line, note_mac, parse_mac_colon, scan_text,
  score_all, score_candidate, walk, walk_line,
}

pub record WalkInv (w : Walk) : Type 0 where
  pub total : w.mac_count ≡ length w.cand + w.dropped
  pub kept : length w.cand ≤ 8
  pub full : 0 < w.dropped → length w.cand ≡ 8

note_mac-WalkInv : (m : Mac) (w : Walk) → WalkInv w → WalkInv (note_mac m w)
unfolding note_mac
note_mac-WalkInv m w v = elim (Bool-cases (ltb (length w.cand) 8)) [
  | inl e ↦
      let le : length w.cand < 8 = ground (arith, e) in
      let grown = length-append w.cand (m ∷ []) in
      rw e (record {
        total = omega (arith, grown, v.total);
        kept = omega (arith, grown, le);
        full = λ h. absurd (omega (arith, v.full h, le));
      })
  | inr e ↦
      let ge : 8 ≤ length w.cand = ground (arith, e) in
      rw e (record {
        total = omega (arith, v.total);
        kept = v.kept;
        full = λ h. omega (arith, v.kept, ge);
      })
]

walk-WalkInv : (skip : ℕ) (s : Bytes) (w : Walk) → WalkInv w → WalkInv (walk skip s w)
unfolding walk
walk-WalkInv skip [] w v = v
walk-WalkInv (suc skip) (c ∷ s) w v = walk-WalkInv skip s w v
walk-WalkInv zero (c ∷ s) w v = elim (Bool-cases (ltb (length (c ∷ s)) 17)) [
  | inl e ↦ rw e v
  | inr e ↦ elim (Option-cases (parse_mac_colon (c ∷ s))) [
    | inl k ↦ rw (e, k) (walk-WalkInv 0 s w v)
    | inr (m, k) ↦ rw (e, k) (walk-WalkInv 16 s (note_mac m w) (note_mac-WalkInv m w v))
  ]
]

length-add_hit :
    (o : Option MarauderHit) (hits : List MarauderHit) → length (add_hit o hits) ≤ length hits + 1
length-add_hit none hits = omega arith
length-add_hit (some h) hits = omega arith

score_all-le :
    (ex : Extras) (conf : FlockConfidence) (single : Bool) (ms : List Mac)
    → length (score_all ex conf single ms) ≤ length ms
unfolding score_all
score_all-le ex conf single [] = omega arith
score_all-le ex conf single (m ∷ ms) = omega (
  arith,
  score_all-le ex conf single ms,
  length-add_hit (score_candidate ex conf single m) (score_all ex conf single ms),
)

dropped_none : (w : Walk) → WalkInv w → (w.dropped ≡ 0) ⊎ (8 < w.mac_count)
dropped_none w v = elim (Bool-cases (ltb 0 w.dropped)) [
  | inl e ↦
      let some_dropped : 0 < w.dropped = ground (arith, e) in
      inr (omega (arith, v.total, v.full some_dropped, some_dropped))
  | inr e ↦ inl (ground (arith, e))
]

-- On any line there are at most eight hits, no more hits than addresses that were scored, and
-- only a line of more than eight addresses has some that were dropped unscored.
scan_counts :
    (ex : Extras) (line : Option Bytes)
    → (length (marauder_scan_line ex line).hits ≤ 8)
      × (length (marauder_scan_line ex line).hits + (marauder_scan_line ex line).dropped
          ≤ (marauder_scan_line ex line).mac_count)
      × ((marauder_scan_line ex line).mac_count ≤ (marauder_scan_line ex line).dropped + 8)
      × (((marauder_scan_line ex line).dropped ≡ 0) ⊎ (8 < (marauder_scan_line ex line).mac_count))
unfolding marauder_scan_line scan_text
scan_counts ex none = (omega arith, omega arith, omega arith, inl refl)
scan_counts ex (some line) = elim (Bool-cases (ltb (length line) 17)) [
  | inl e ↦ rw e (omega arith, omega arith, omega arith, inl refl)
  | inr e ↦
      let w = walk_line line in
      let v =
        walk-WalkInv 0 line (record { cand = []; mac_count = 0; dropped = 0 })
          (record { total = refl; kept = omega arith; full = λ h. absurd (omega (arith, h)) }) in
      let le = score_all-le ex (line_conf ex line) (w.mac_count == 1) w.cand in
      rw e (
        omega (arith, le, v.kept),
        omega (arith, le, v.total),
        omega (arith, v.total, v.kept),
        dropped_none w v,
      )
]
