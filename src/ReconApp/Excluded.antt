-- ===== src/ReconApp/Excluded.antt =====
-- Excluding a device, from the card to the rest of the session.
use flip_de_flock.Common.{
  Bool, Bool-cases, List, Option, ap, arith, inl, inr, length, refl, subst, sym, true, ℕ, ◌+◌, ◌<◌,
  ◌==◌, ◌^◌, ◌∙◌, ◌≡◌, ◌≤◌,
}
use flip_de_flock.Common.Bytes.{Bytes}
use flip_de_flock.Common.Mac.{Mac, mac_eq}
use flip_de_flock.Common.Search.{any_of}
use flip_de_flock.FlockStore.RoundTrip.{IsMac}
use flip_de_flock.ReconApp.Exclude.{recon_app_exclude_device, with_exclusions}
use flip_de_flock.ReconApp.Gates.{OnlyCounted, refused-OnlyCounted}
use flip_de_flock.ReconApp.Once.{report_all}
use flip_de_flock.ReconApp.Purge.{is_gone, purge_keeps, recon_app_purge_excluded}
use flip_de_flock.ReconApp.Quiet.{
  Absent, IsListed, IsSilent, kept-Absent, listed-excluded, listed_fp-excluded, report_all-IsSilent,
  rows_kept-All,
}
use flip_de_flock.ReconApp.Report.{recon_app_report_flock}
use flip_de_flock.ReconApp.Types.{Clock, FloatOps, ReconApp, Sighting}
use flip_de_flock.SigDb.Exclusion.{exclude_spec_promise, ignored_text}
use flip_de_flock.SigDb.Learn.{ignored_room, sig_db_ignore_add, sig_db_ignored_read}
use flip_de_flock.SigDb.Lines.{Kept, sig_max_file}
use flip_de_flock.SigDb.Refine.{ignore_add-refines}
use flip_de_flock.SigDb.Storage.{IsReliable, Storage}
use flip_de_flock.SigDb.Text.{IsWhole}

module _ {F : Type 0} (S : Storage) where
  -- After an exclusion and whatever sightings came since: no row has the address; a further sighting
  -- of it is only counted; so is one of the fingerprint, if the flag says that it was taken; and the
  -- card holds the lists that the gate reads.
  pub record IsQuiet (fo : FloatOps F) (mac : Mac) (fp : ℕ) (by_fp : Bool) (card : S.Card)
      (app now : ReconApp F) : Type 0 where
    pub absent : Absent mac now.flock
    pub unheard :
        (t : Clock) (s : Sighting)
        → s.mac ≡ mac
        → OnlyCounted now (recon_app_report_flock fo t s now)
    pub unheard_fp :
        by_fp ≡ true
        → (t : Clock) (s : Sighting) → s.ie_fp ≡ fp
        → OnlyCounted now (recon_app_report_flock fo t s now)
    pub on_card :
        sig_db_ignored_read S card ignored_room
        ≡ record { fps = app.ignore_fps; macs = app.ignore_macs }

module _ {F : Type 0} (S : Storage) (file : S.Card → Bytes → Option Bytes)
    (R : IsReliable S file) where
  purged-IsSilent :
      (fo : FloatOps F) (app : ReconApp F) (mac : Mac)
      → IsListed mac app
      → IsSilent fo mac app.ignore_fps (recon_app_purge_excluded app).0
  purged-IsSilent fo app mac h = record {
    listed = unfold recon_app_purge_excluded in h;
    same_fps = unfold recon_app_purge_excluded in refl;
    absent = subst (Absent mac) (sym (purge_keeps app).0) (
        kept-Absent mac app.ignore_macs app.ignore_fps _ h
          (rows_kept-All (is_gone app.ignore_macs app.ignore_fps) app.flock));
  }

  exclude-cases :
      (c : S.Card) (app : ReconApp F) (mac : Mac) (fp : ℕ)
      → (recon_app_exclude_device S c app mac fp).0 ≡ true
      → let a = sig_db_ignore_add S c mac fp in
        (a.0 ≡ true)
        × (recon_app_exclude_device S c app mac fp ≡ (
          true,
          a.1,
          a.2,
          (recon_app_purge_excluded
              (with_exclusions S (sig_db_ignored_read S a.2 ignored_room) app)).0,
        ))
  unfolding recon_app_exclude_device
  exclude-cases c app mac fp h = elim (Bool-cases (sig_db_ignore_add S c mac fp).0) [
    | inl ok ↦ (ok, ground (arith, ok))
    | inr refused ↦ absurd (ground (arith, refused))
  ]

  -- On a card whose calls succeed, with a file of exclusions that is empty or ends with a newline and
  -- has 700 bytes left to the reader's limit: once `recon_app_exclude_device` reports success for an
  -- address, then whatever sightings follow, no row of the table has that address, a further sighting
  -- of it is only counted, and so is one with the fingerprint if that was recorded too; and what a
  -- restart reads back from the card are the lists of the session.
  pub excluded_stays-IsQuiet :
      (fo : FloatOps F) (c : S.Card) (app : ReconApp F) (mac : Mac) (fp : ℕ)
      (ss : List (Clock × Sighting))
      → IsMac mac
      → fp < 2 ^ 32
      → IsWhole (ignored_text S file R c)
      → length (ignored_text S file R c) + 700 ≤ sig_max_file
      → (recon_app_exclude_device S c app mac fp).0 ≡ true
      → let r = recon_app_exclude_device S c app mac fp in
        IsQuiet S fo mac fp r.1 r.2 r.3 (report_all fo ss r.3)
  excluded_stays-IsQuiet fo c app mac fp ss v u w l ok =
      let (added, e) = exclude-cases c app mac fp ok in
      let a = sig_db_ignore_add S c mac fp in
      let k = sig_db_ignored_read S a.2 ignored_room in
      let (r0, r1, r2, whole) = ignore_add-refines S file R c mac fp v u w l in
      let promise =
        exclude_spec_promise (sig_db_ignored_read S c ignored_room) mac fp (sym r0 ∙ added) in
      let listed : any_of (λ x. mac_eq x mac) k.macs ≡ true =
        subst (λ (x : Kept). any_of (λ y. mac_eq y mac) x.macs ≡ true) (sym r2) promise.0 in
      let app' = (recon_app_purge_excluded (with_exclusions S k app)).0 in
      let silent =
        report_all-IsSilent fo mac k.fps ss app'
          (purged-IsSilent fo (with_exclusions S k app) mac listed) in
      let now = report_all fo ss app' in
      subst (λ x. IsQuiet S fo mac fp x.1 x.2 x.3 (report_all fo ss x.3)) (sym e)
        (record {
          absent = silent.absent;
          unheard = λ t s same. refused-OnlyCounted fo t s now (
              inr (
                listed-excluded s.mac s.ie_fp now
                  (subst (λ m. IsListed m now) (sym same) silent.listed)));
          unheard_fp = λ flag t s same.
              let (some_fp, there) = promise.1 (sym r1 ∙ flag) in
              let there_now : any_of (λ x. x == fp) now.ignore_fps ≡ true =
                subst (λ l. any_of (λ x. x == fp) l ≡ true)
                  (ap (λ (x : Kept). x.fps) (sym r2) ∙ sym silent.same_fps) there in
              refused-OnlyCounted fo t s now (
                inr (
                  listed_fp-excluded s.mac s.ie_fp now (λ z. some_fp (sym same ∙ z))
                    (subst (λ f. any_of (λ x. x == f) now.ignore_fps ≡ true) (sym same)
                      there_now)));
          on_card = unfold recon_app_purge_excluded in refl;
        })
