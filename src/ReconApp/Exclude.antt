-- ===== src/ReconApp/Exclude.antt =====
-- `recon_app_exclude_device` and `recon_app_clear_exclusions`: the card, the lists in memory and the
-- table.
use flip_de_flock.Common.{Bool, [], false, if◌then◌else◌, true, ℕ}
use flip_de_flock.Common.Mac.{Mac}
use flip_de_flock.ReconApp.Purge.{recon_app_purge_excluded}
use flip_de_flock.ReconApp.Types.{ReconApp}
use flip_de_flock.SigDb.Learn.{
  ignored_room, sig_db_forget_ignored, sig_db_ignore_add, sig_db_ignored_read,
}
use flip_de_flock.SigDb.Lines.{Kept}
use flip_de_flock.SigDb.Storage.{Storage}

module _ {F : Type 0} (S : Storage) where
  abbrev pub with_exclusions : Kept → ReconApp F → ReconApp F
  with_exclusions k app = record app { ignore_fps = k.fps; ignore_macs = k.macs }

  -- The result, `*out_by_fp`, the card, and the state.
  unfoldable pub recon_app_exclude_device :
      S.Card → ReconApp F → Mac → ℕ → Bool × Bool × S.Card × ReconApp F
  recon_app_exclude_device c app mac fp =
      let (ok, by_fp, c1) = sig_db_ignore_add S c mac fp in
      let k = sig_db_ignored_read S c1 ignored_room in
      let (app', removed) = recon_app_purge_excluded (with_exclusions k app) in
      if ok then (true, by_fp, c1, app') else (false, false, c1, app)

  unfoldable pub recon_app_clear_exclusions : S.Card → ReconApp F → S.Card × ReconApp F
  unfolding sig_db_forget_ignored
  recon_app_clear_exclusions c app =
      let (removed, c1) = sig_db_forget_ignored S c in
      (c1, record app { ignore_fps = []; ignore_macs = [] })
