-- ===== src/Marauder/Hits.antt =====
-- What a hit rests on.
use flip_de_flock.Common.{
  Bool, Bool-cases, List, Option, [], arith, inl, inr, length, ltb, none, refl, some, true, ◌==◌,
  ◌∷◌, ◌≡◌, ◌≢◌, ◌⊎◌,
}
use flip_de_flock.Common.Bytes.{Bytes}
use flip_de_flock.Common.Mac.{Mac}
use flip_de_flock.Common.Search.{All}
use flip_de_flock.FlockDb.Types.{Extras, FlockConfidence, conf_none}
use flip_de_flock.FlockDb.Vendor.{flock_class_from_mac, flock_oui_match, soundthinking_oui_match}
use flip_de_flock.Marauder.{
  MarauderHit, add_hit, line_conf, marauder_scan_line, scan_text, score_all, score_candidate,
  walk_line,
}

-- A hit has the rung of the name on its line, which is one, and its address has a prefix of the
-- two vendors or is the only address of the line.
pub record Grounded (ex : Extras) (conf : FlockConfidence) (single : Bool) (h : MarauderHit)
    : Type 0 where
  pub named : conf ≢ conf_none
  pub same_rung : h.conf ≡ conf
  pub attributed :
      (flock_oui_match ex (some h.mac) ≡ true)
      ⊎ (soundthinking_oui_match (some h.mac) ≡ true)
      ⊎ (single ≡ true)
  pub by_prefix : h.dev_class ≡ flock_class_from_mac (some h.mac)

score_candidate-Grounded :
    (ex : Extras) (conf : FlockConfidence) (single : Bool) (m : Mac) (h : MarauderHit)
    → score_candidate ex conf single m ≡ some h
    → Grounded ex conf single h
unfolding score_candidate
score_candidate-Grounded ex conf single m h e = record {
  named = ground (arith, e);
  same_rung = ground (arith, e);
  attributed = ground (arith, e);
  by_prefix = ground (arith, e);
}

add_hit-Grounded :
    (ex : Extras) (conf : FlockConfidence) (single : Bool) (o : Option MarauderHit)
    (hits : List MarauderHit)
    → ((h : MarauderHit) → o ≡ some h → Grounded ex conf single h)
    → All (Grounded ex conf single) hits
    → All (Grounded ex conf single) (add_hit o hits)
add_hit-Grounded ex conf single none hits one rest = rest
add_hit-Grounded ex conf single (some h) hits one rest = (one h refl, rest)

score_all-Grounded :
    (ex : Extras) (conf : FlockConfidence) (single : Bool) (ms : List Mac)
    → All (Grounded ex conf single) (score_all ex conf single ms)
unfolding score_all
score_all-Grounded ex conf single [] = tt
score_all-Grounded ex conf single (m ∷ ms) =
    add_hit-Grounded ex conf single (score_candidate ex conf single m) (score_all ex conf single ms)
      (score_candidate-Grounded ex conf single m) (score_all-Grounded ex conf single ms)

-- Every hit of a line takes the rung of the text that names the network, which is not "none", and
-- is attributed by a vendor prefix or because the line has exactly one address. A prefix alone is
-- never a hit.
pub hits-Grounded :
    (ex : Extras) (line : Bytes)
    → All
        (Grounded ex (line_conf ex line) ((marauder_scan_line ex (some line)).mac_count == 1))
        (marauder_scan_line ex (some line)).hits
unfolding marauder_scan_line scan_text
hits-Grounded ex line = elim (Bool-cases (ltb (length line) 17)) [
  | inl e ↦ rw e tt
  | inr e ↦ rw e (
      score_all-Grounded ex (line_conf ex line) ((walk_line line).mac_count == 1)
        (walk_line line).cand)
]
