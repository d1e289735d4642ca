-- ===== src/ReconApp/Counters.antt =====
-- What the link's counters and its liveness say.
use flip_de_flock.Common.{
  Bool, Bool-cases, ap₂, arith, false, if◌then◌else◌, inl, inr, leb, ltb, refl, true, ℕ, ◌&&◌, ◌+◌,
  ◌<◌, ◌==◌, ◌^◌, ◌↔◌, ◌∙◌, ◌≡◌, ◌≢◌, ◌≤◌, ◌⊎◌,
}
use flip_de_flock.DetectRules.{sub_u32}
use flip_de_flock.ReconApp.Link.{
  heard, is_keepalive, link_is_silent, link_tick, note_reboot, rebase_link, recon_app_liveness_tick,
  sample_rate, session_counts, set_esp_status,
}
use flip_de_flock.ReconApp.Types.{LinkState, ReconApp}

rebased_le :
    (frames hits : ℕ) (l : LinkState)
    → (note_reboot frames (rebase_link frames hits l)).frames_base ≤ frames
unfolding note_reboot rebase_link
rebased_le frames hits l = ground arith

sub_u32_exact : (a b : ℕ) → b ≤ a → a < 2 ^ 32 → sub_u32 a b + b ≡ a
sub_u32_exact a b h k = ground arith

pub record SameCounts (l l' : LinkState) : Type 0 where
  pub same_frames : l'.frames ≡ l.frames
  pub same_hits : l'.hits ≡ l.hits
  pub same_frames_base : l'.frames_base ≡ l.frames_base
  pub same_hits_base : l'.hits_base ≡ l.hits_base

sample_rate-SameCounts : (frames now : ℕ) (l : LinkState) → SameCounts l (sample_rate frames now l)
unfolding sample_rate
sample_rate-SameCounts frames now l = elim (Bool-cases (l.rate_tick == 0)) [
  | inl h ↦ rw h (record {
    same_frames = refl;
    same_hits = refl;
    same_frames_base = refl;
    same_hits_base = refl;
  })
  | inr h ↦ elim (Bool-cases (leb 500 (sub_u32 now l.rate_tick))) [
    | inl k ↦
        rw (h, k)
          (record {
            same_frames = refl;
            same_hits = refl;
            same_frames_base = refl;
            same_hits_base = refl;
          })
    | inr k ↦
        rw (h, k)
          (record {
            same_frames = refl;
            same_hits = refl;
            same_frames_base = refl;
            same_hits_base = refl;
          })
  ]
]

session_counts-exact :
    (frames hits channel : ℕ) (l : LinkState)
    → l.frames_base ≤ frames
    → frames < 2 ^ 32
    → hits < 2 ^ 32
    → ((session_counts frames hits channel l).frames
          + (session_counts frames hits channel l).frames_base
        ≡ frames)
      × ((session_counts frames hits channel l).hits
            + (session_counts frames hits channel l).hits_base
          ≡ hits)
unfolding session_counts
session_counts-exact frames hits channel l le f h = (
  sub_u32_exact frames l.frames_base le f,
  sub_u32_exact hits (if ltb hits l.hits_base then hits else l.hits_base) (ground arith) h,
)

-- After any status line that is not a keepalive, whatever came before it and even if the board was
-- restarted, the session's counts and their bases add up to the totals, which are `uint32_t`: the
-- unsigned subtractions never wrap.
pub status_adds_up :
    (frames hits channel : ℕ) (connected : Bool) (now : ℕ) (l : LinkState)
    → frames < 2 ^ 32
    → hits < 2 ^ 32
    → 0 < frames + hits + channel
    → ((set_esp_status frames hits channel connected now l).frames
          + (set_esp_status frames hits channel connected now l).frames_base
        ≡ frames)
      × ((set_esp_status frames hits channel connected now l).hits
            + (set_esp_status frames hits channel connected now l).hits_base
          ≡ hits)
unfolding set_esp_status
status_adds_up frames hits channel connected now l f h some_count =
    let real : is_keepalive frames hits channel ≡ false = ground arith in
    let l1 = note_reboot frames (rebase_link frames hits (heard connected now l)) in
    let l2 = session_counts frames hits channel l1 in
    let exact =
      session_counts-exact frames hits channel l1 (rebased_le frames hits (heard connected now l)) f
        h in
    let same = sample_rate-SameCounts frames now l2 in
    rw real (
      ap₂ (λ a b. a + b) same.same_frames same.same_frames_base ∙ exact.0,
      ap₂ (λ a b. a + b) same.same_hits same.same_hits_base ∙ exact.1,
    )

-- What the tick asks before it takes the link for lost.
abbrev pub WentSilent : ℕ → LinkState → Type 0
WentSilent now l =
    (l.present ≡ true) × (l.connected ≡ true) × (l.rx_tick ≢ 0) × (5000 ≤ sub_u32 now l.rx_tick)

silent-WentSilent : (now : ℕ) (l : LinkState) → (link_is_silent now l ≡ true) ↔ WentSilent now l
unfolding link_is_silent
silent-WentSilent now l = (
  (λ h. (ground arith, ground arith, (λ z. ground (arith, h, z)), ground arith)),
  (λ (p, c, r, o). ground (arith, p, c, r, o)),
)

-- If a companion is attached, stood as connected, was heard from at all and is silent for 5000 ms or
-- more, the tick pulses the motor and the link stands as lost and not connected; otherwise it does
-- not pulse and leaves the link as it was. A later tick, with no line in between, does not pulse
-- again.
pub loss_pulses_once :
    {F : Type 0} (now later : ℕ) (app : ReconApp F)
    → let (after, pulse) = recon_app_liveness_tick now app in
      ((WentSilent now app.link
          × (pulse ≡ true)
          × (after.link.connected ≡ false)
          × (after.link.lost ≡ true))
        ⊎ ((¬ WentSilent now app.link) × (pulse ≡ false) × (after.link ≡ app.link)))
      × ((pulse && (recon_app_liveness_tick later after).1) ≡ false)
unfolding recon_app_liveness_tick link_tick
loss_pulses_once now later app =
    let (to, back) = silent-WentSilent now app.link in
    (
      elim (Bool-cases (link_is_silent now app.link)) [
        | inl gone ↦ inl (to gone, rw gone refl, rw gone refl, rw gone refl)
        | inr here ↦ inr ((λ w. ground (arith, here, back w)), rw here refl, rw here refl)
      ],
      unfold link_is_silent in ground arith,
    )
