-- ===== src/ReconApp/Diagnostics.antt =====
-- The counters that diag.csv shows.
use flip_de_flock.Common.{
  Bool-cases, Option-cases, arith, inl, inr, some, subst, sym, ◌%◌, ◌+◌, ◌^◌, ◌≡◌, ◌⊎◌,
}
use flip_de_flock.DetectRules.{flock_is_excluded}
use flip_de_flock.FlockDb.Types.{conf_eq, conf_none}
use flip_de_flock.ReconApp.Report.{
  claim_row, count_message, recon_app_report_flock, record_sighting, store_sighting,
}
use flip_de_flock.ReconApp.Types.{Clock, DiagState, FloatOps, ReconApp, Sighting, inc_u32}

-- Every message is accounted for by exactly one of the four outcomes, modulo the width of the
-- counters.
abbrev pub Balanced : DiagState → Type 0
Balanced d = (d.accepted + d.rej_conf + d.rej_full + d.rej_ignored) % 2 ^ 32 ≡ d.flock_msgs

balance_accepted :
    (d : DiagState)
    → Balanced d
    → Balanced (record d { accepted = inc_u32 d.accepted; flock_msgs = inc_u32 d.flock_msgs })
balance_accepted d b = omega (arith, b)

balance_conf :
    (d : DiagState)
    → Balanced d
    → Balanced (record d { rej_conf = inc_u32 d.rej_conf; flock_msgs = inc_u32 d.flock_msgs })
balance_conf d b = omega (arith, b)

balance_full :
    (d : DiagState)
    → Balanced d
    → Balanced (record d { rej_full = inc_u32 d.rej_full; flock_msgs = inc_u32 d.flock_msgs })
balance_full d b = omega (arith, b)

balance_ignored :
    (d : DiagState)
    → Balanced d
    → Balanced (record d { rej_ignored = inc_u32 d.rej_ignored; flock_msgs = inc_u32 d.flock_msgs })
balance_ignored d b = omega (arith, b)

module _ {F : Type 0} where
  -- A stored sighting counts as accepted or as lost to a full table, and once.
  store-counts :
      (fo : FloatOps F) (t : Clock) (s : Sighting) (app : ReconApp F)
      → ((store_sighting fo t s app).diag
          ≡ record app.diag { accepted = inc_u32 app.diag.accepted })
        ⊎ ((store_sighting fo t s app).diag
            ≡ record app.diag { rej_full = inc_u32 app.diag.rej_full })
  unfolding store_sighting record_sighting
  store-counts fo t s app = elim (Option-cases (claim_row fo s.mac t.tick app.flock)) [
    | inl h ↦ inr (ground (arith, h))
    | inr ((table, i), h) ↦ inl (ground (arith, h))
  ]

  -- The four outcomes add up to the messages after any sighting, if they did before it.
  pub report-Balanced :
      (fo : FloatOps F) (t : Clock) (s : Sighting) (app : ReconApp F)
      → Balanced app.diag
      → Balanced (recon_app_report_flock fo t s app).diag
  unfolding recon_app_report_flock count_message
  report-Balanced fo t s app b = elim (Bool-cases (conf_eq s.confidence conf_none)) [
    | inl h ↦ rw h (balance_conf app.diag b)
    | inr h ↦
        elim (Bool-cases
          (flock_is_excluded (some s.mac) s.ie_fp (some app.ignore_macs) (some app.ignore_fps))) [
            | inl k ↦ rw (h, k) (balance_ignored app.diag b)
            | inr k ↦ elim (store-counts fo t s (count_message app)) [
              | inl q ↦ rw (h, k) (subst Balanced (sym q) (balance_accepted app.diag b))
              | inr q ↦ rw (h, k) (subst Balanced (sym q) (balance_full app.diag b))
            ]
          ]
  ]
