-- ===== src/FlockDb/Ssid/Shape.antt =====
-- What the SSID tests accept, said without the loops.
use flip_de_flock.Common.{
  Bool-cases, Option-cases, [], ap, ap₂, arith, inl, inr, length, map, refl, some, suc, true, zero,
  ℕ, ◌++◌, ◌↔◌, ◌∷◌, ◌≡◌, ◌≢◌,
}
use flip_de_flock.Common.Bytes.{Bytes, codes}
use flip_de_flock.Common.Search.{All}
use flip_de_flock.FlockDb.Ssid.{
  ascii_lower, ci_contains, contains_from, hex_to_end, is_flock_provisioning_ssid, is_hex,
  matches_here, strip_flock,
}

-- `mid` stands in `h` and equals the needle but for the case of letters.
abbrev pub Occurs : Bytes → Bytes → Type 0
Occurs needle h =
    (pre : Bytes) × (mid : Bytes) × (post : Bytes) × (h ≡ pre ++ (mid ++ post))
    × (map ascii_lower mid ≡ needle)

matches_here_sound :
    (h n : Bytes)
    → matches_here h n ≡ true
    → (mid : Bytes) × (post : Bytes) × (h ≡ mid ++ post) × (map ascii_lower mid ≡ n)
unfolding matches_here
matches_here_sound h [] e = ([], h, refl, refl)
matches_here_sound [] (n ∷ ns) e = cc
matches_here_sound (c ∷ h) (n ∷ ns) e =
    let (mid, post, p, q) = matches_here_sound h ns (ground arith) in
    (c ∷ mid, post, ap (λ t. c ∷ t) p, ap₂ ◌∷◌ (ground arith) q)

matches_here_complete : (mid post : Bytes) → matches_here (mid ++ post) (map ascii_lower mid) ≡ true
unfolding matches_here
matches_here_complete [] [] = refl
matches_here_complete [] (c ∷ post) = refl
matches_here_complete (c ∷ mid) post = ground (arith, matches_here_complete mid post)

contains_from_sound : (h n : Bytes) → contains_from h n ≡ true → Occurs n h
unfolding contains_from
contains_from_sound [] n e = cc
contains_from_sound (c ∷ h) n e = elim (Bool-cases (matches_here (c ∷ h) n)) [
  | inl hit ↦ let (mid, post, p, q) = matches_here_sound (c ∷ h) n hit in ([], mid, post, p, q)
  | inr miss ↦
      let (pre, mid, post, p, q) = contains_from_sound h n (ground arith) in
      (c ∷ pre, mid, post, ap (λ t. c ∷ t) p, q)
]

contains_from_complete :
    (pre mid post : Bytes) (m : ℕ) (ms : Bytes)
    → map ascii_lower mid ≡ m ∷ ms
    → contains_from (pre ++ (mid ++ post)) (m ∷ ms) ≡ true
unfolding contains_from
contains_from_complete [] [] post m ms e = cc
contains_from_complete [] (c ∷ mid) post m ms e =
    rw (← e) (ground (arith, matches_here_complete (c ∷ mid) post))
contains_from_complete (p ∷ pre) mid post m ms e =
    ground (arith, contains_from_complete pre mid post m ms e)

-- `ci_contains` finds a needle exactly if it is not empty and stands in the name but for the case
-- of the name's letters.
pub ci_contains_iff : (h n : Bytes) → (ci_contains h n ≡ true) ↔ ((n ≢ []) × Occurs n h)
unfolding ci_contains
ci_contains_iff h [] = (λ e. cc, λ p. absurd (p.0 refl))
ci_contains_iff h (n ∷ ns) =
    (λ e. (λ z. cc, contains_from_sound h (n ∷ ns) e), λ (_, o). complete o)
  where
    complete : Occurs (n ∷ ns) h → contains_from h (n ∷ ns) ≡ true
    complete (pre, mid, post, p, q) = rw p (contains_from_complete pre mid post n ns q)

strip_flock_sound :
    (s p rest : Bytes)
    → strip_flock s p ≡ some rest
    → (pre : Bytes) × (s ≡ pre ++ rest) × (map ascii_lower pre ≡ p)
unfolding strip_flock
strip_flock_sound s [] rest e = ([], ground arith, refl)
strip_flock_sound [] (p ∷ ps) rest e = cc
strip_flock_sound (c ∷ s) (p ∷ ps) rest e =
    let (pre, q, r) = strip_flock_sound s ps rest (ground arith) in
    (c ∷ pre, ap (λ t. c ∷ t) q, ap₂ ◌∷◌ (ground arith) r)

strip_flock_complete :
    (pre rest : Bytes) → strip_flock (pre ++ rest) (map ascii_lower pre) ≡ some rest
unfolding strip_flock
strip_flock_complete [] [] = refl
strip_flock_complete [] (c ∷ rest) = refl
strip_flock_complete (c ∷ pre) rest = ground (arith, strip_flock_complete pre rest)

hex_to_end_iff :
    (n : ℕ) (s : Bytes) → (hex_to_end n s ≡ true) ↔ ((length s ≡ n) × All (λ c. is_hex c ≡ true) s)
unfolding hex_to_end
hex_to_end_iff zero [] = (λ e. (refl, tt), λ p. refl)
hex_to_end_iff zero (c ∷ s) = (λ e. cc, λ p. absurd (omega (arith, p.0)))
hex_to_end_iff (suc n) [] = (λ e. cc, λ p. absurd (omega (arith, p.0)))
hex_to_end_iff (suc n) (c ∷ s) = ground (arith, hex_to_end_iff n s)

-- A provisioning name: "flock-" in any case, then exactly six hex digits and nothing more.
abbrev pub IsProvisioning : Bytes → Type 0
IsProvisioning s =
    (pre : Bytes) × (hex : Bytes) × (s ≡ pre ++ hex)
    × (map ascii_lower pre ≡ codes "flock-")
    × (length hex ≡ 6)
    × All (λ c. is_hex c ≡ true) hex

-- The anchored test accepts exactly the names of the provisioning shape, `IsProvisioning`.
pub IsProvisioning-iff : (s : Bytes) → (is_flock_provisioning_ssid s ≡ true) ↔ IsProvisioning s
unfolding is_flock_provisioning_ssid
IsProvisioning-iff s = (sound, complete)
  where
    sound : is_flock_provisioning_ssid s ≡ true → IsProvisioning s
    sound e = elim (Option-cases (strip_flock s (codes "flock-"))) [
      | inl gone ↦ cc (rw (gone, is_flock_provisioning_ssid) at e)
      | inr (rest, got) ↦
          let (pre, p, q) = strip_flock_sound s (codes "flock-") rest got in
          let (l, hs) = (hex_to_end_iff 6 rest).0 (ground arith) in (pre, rest, p, q, l, hs)
    ]

    complete : IsProvisioning s → is_flock_provisioning_ssid s ≡ true
    complete (pre, hex, p, q, l, hs) =
        let step = strip_flock_complete pre hex in
        ground (arith, step, (hex_to_end_iff 6 hex).1 (l, hs))
