-- ===== src/EspParser/Trust.antt =====
-- What the parser takes a line's word for.
use flip_de_flock.Common.{
  Bool, List, Option-cases, [], ap, arith, inl, inr, refl, some, sym, true, ℕ, ◌∙◌, ◌≡◌, ◌≢◌, ◌≤◌,
  ◌⊎◌,
}
use flip_de_flock.Common.Bytes.{Bytes}
use flip_de_flock.Common.Mac.{Mac}
use flip_de_flock.EspParser.Detection.{
  apply_fp, apply_sig, cap_by_ssid, cap_probe, flock_msg, flock_trailers, parse_flock, score_flock,
  wire_conf, wire_ftype, wire_ssid,
}
use flip_de_flock.EspParser.Fields.{field, parse_mac_field}
use flip_de_flock.EspParser.Message.{FlockMsg, flock}
use flip_de_flock.FlockDb.Fingerprint.{flock_ie_fp_match}
use flip_de_flock.FlockDb.Fingerprint.Trust.{match-ne-builtin}
use flip_de_flock.FlockDb.Ssid.{flock_ssid_confidence}
use flip_de_flock.FlockDb.Types.{Extras, FlockConfidence, confirmed, fp_none, probe_fp, rung}

-- What the rung is worth before the fingerprint and the signature.

abbrev capped_conf : Extras → List Bytes → FlockConfidence
capped_conf ex f = cap_probe (wire_ftype f) (cap_by_ssid ex (wire_ssid f) (wire_conf f))

apply_fp-confirmed :
    (ex : Extras) (mac : Mac) (fp ftype : ℕ) (c : FlockConfidence)
    → (apply_fp ex mac fp (c, ftype)).0 ≡ confirmed
    → c ≡ confirmed
unfolding apply_fp
apply_fp-confirmed ex mac fp ftype c e = ground (arith, match-ne-builtin ex fp)

apply_sig-confirmed :
    (b : Bool) (v : FlockConfidence × ℕ) → (apply_sig b v).0 ≡ confirmed → v.0 ≡ confirmed
unfolding apply_sig
apply_sig-confirmed b v e = ground arith

cap_by_ssid-confirmed :
    (ex : Extras) (ssid : Bytes) (c : FlockConfidence)
    → cap_by_ssid ex ssid c ≡ confirmed
    → (c ≡ confirmed) × ((ssid ≡ []) ⊎ (flock_ssid_confidence ex (some ssid) ≡ confirmed))
unfolding cap_by_ssid
cap_by_ssid-confirmed ex ssid c e = ground arith

cap_probe-confirmed :
    (ftype : ℕ) (c : FlockConfidence)
    → cap_probe ftype c ≡ confirmed
    → (c ≡ confirmed) × (ftype ≢ b'P')
unfolding cap_probe
cap_probe-confirmed ftype c e = ground arith

score-confirmed :
    (ex : Extras) (mac : Mac) (f : List Bytes)
    → (score_flock ex mac f).0 ≡ confirmed
    → capped_conf ex f ≡ confirmed
unfolding score_flock
score-confirmed ex mac f e =
    apply_fp-confirmed ex mac (flock_trailers mac f).fp (wire_ftype f) (capped_conf ex f) (
      apply_sig-confirmed (flock_trailers mac f).sig_hit
        (apply_fp ex mac (flock_trailers mac f).fp (capped_conf ex f, wire_ftype f)) e)

parse_flock-flock :
    (ex : Extras) (f : List Bytes) (m : FlockMsg)
    → parse_flock ex f ≡ flock m
    → (mac : Mac) × (parse_mac_field (field f 1) ≡ some mac) × (flock_msg ex mac f ≡ m)
unfolding parse_flock
parse_flock-flock ex f m e = elim (Option-cases (parse_mac_field (field f 1))) [
  | inl h ↦ ground (arith, h)
  | inr (mac, h) ↦ (mac, h, ground (arith, h))
]

conf-flock_msg :
    (ex : Extras) (mac : Mac) (f : List Bytes)
    → (flock_msg ex mac f).conf ≡ (score_flock ex mac f).0
unfolding flock_msg
conf-flock_msg ex mac f = refl

-- A line whose detection comes out as confirmed said so itself, was not a probe request, and
-- either named no network or named one that this side's own matcher confirms. No fingerprint and
-- no signature raises a line to confirmed.
pub confirmed_needs_name :
    (ex : Extras) (f : List Bytes) (m : FlockMsg)
    → parse_flock ex f ≡ flock m
    → m.conf ≡ confirmed
    → (wire_conf f ≡ confirmed)
      × (wire_ftype f ≢ b'P')
      × ((wire_ssid f ≡ []) ⊎ (flock_ssid_confidence ex (some (wire_ssid f)) ≡ confirmed))
confirmed_needs_name ex f m e c =
    let (mac, h, k) = parse_flock-flock ex f m e in
    let score = sym (conf-flock_msg ex mac f) ∙ ap (λ n. n.conf) k ∙ c in
    let by_probe =
      cap_probe-confirmed (wire_ftype f) (cap_by_ssid ex (wire_ssid f) (wire_conf f))
        (score-confirmed ex mac f score) in
    let by_name = cap_by_ssid-confirmed ex (wire_ssid f) (wire_conf f) by_probe.0 in
    (by_name.0, by_probe.1, by_name.1)

apply_sig-probe_fp : (v : FlockConfidence × ℕ) → 3 ≤ rung (apply_sig true v).0
unfolding apply_sig
apply_sig-probe_fp v = ground arith

apply_sig-ge : (b : Bool) (v : FlockConfidence × ℕ) → rung v.0 ≤ rung (apply_sig b v).0
unfolding apply_sig
apply_sig-ge b v = ground arith

apply_fp-ge :
    (ex : Extras) (mac : Mac) (fp : ℕ) (v : FlockConfidence × ℕ)
    → flock_ie_fp_match ex fp ≢ fp_none
    → 3 ≤ rung (apply_fp ex mac fp v).0
unfolding apply_fp
apply_fp-ge ex mac fp v ne = ground (arith, ne)

-- A detection whose line carries the signature flag, or a fingerprint that a table knows, is
-- ranked at least as a fingerprint is, whatever rung the line named.
pub evidence_raises :
    (ex : Extras) (f : List Bytes) (mac : Mac)
    → ((flock_trailers mac f).sig_hit ≡ true)
      ⊎ (flock_ie_fp_match ex (flock_trailers mac f).fp ≢ fp_none)
    → rung probe_fp ≤ rung (flock_msg ex mac f).conf
unfolding flock_msg score_flock
evidence_raises ex f mac (inl h) = rw h (
    apply_sig-probe_fp (apply_fp ex mac (flock_trailers mac f).fp (capped_conf ex f, wire_ftype f)))
evidence_raises ex f mac (inr h) = omega (
  arith,
  apply_sig-ge (flock_trailers mac f).sig_hit
      (apply_fp ex mac (flock_trailers mac f).fp (capped_conf ex f, wire_ftype f)),
  apply_fp-ge ex mac (flock_trailers mac f).fp (capped_conf ex f, wire_ftype f) h,
)
