-- ===== src/SigDb/Learn.antt =====
-- helpers/sig_db.c: what the operator teaches the application and what the operator excludes.
use flip_de_flock.Common.{
  Bool, List, [], false, if◌then◌else◌, leb, length, ltb, not, ℕ, ◌&&◌, ◌++◌, ◌+◌, ◌==◌, ◌||◌, ◌∷◌,
}
use flip_de_flock.Common.Bytes.{Bytes, codes}
use flip_de_flock.Common.Mac.{Mac, mac_eq}
use flip_de_flock.Common.Search.{any_of}
use flip_de_flock.FlockDb.Fingerprint.{flock_ie_fp_is_generic}
use flip_de_flock.SigDb.{fp_line, is_no_device, mac_line}
use flip_de_flock.SigDb.Lines.{Kept, Room, sig_lines_append, sig_lines_read}
use flip_de_flock.SigDb.Storage.{Storage}

abbrev pub sig_learned_path : Bytes
sig_learned_path = codes "/ext/apps_data/flipdeflock/learned.txt"

abbrev pub sig_ignored_path : Bytes
sig_ignored_path = codes "/ext/apps_data/flipdeflock/ignored.txt"

abbrev pub line_end : Bytes
line_end = b'\n' ∷ []

unfoldable pub sig_learned_header : Bytes
sig_learned_header =
    codes "# FlipDeFlock learned signatures v2"
    ++ (line_end
        ++ (codes "# One value per line, written when you confirm a device you looked at with"
            ++ (line_end
                ++ (codes "# your own eyes:"
                    ++ (line_end
                        ++ (codes
                              "#   8 hex digits  = probe IE fingerprint (survives the MAC changing)"
                            ++ (line_end
                                ++ (codes "#   12 hex digits = a whole MAC address you pinned"
                                    ++ (line_end
                                        ++ (codes
                                              "# Both score \"Class?\" only -- never Confirmed. Delete this file to"
                                            ++ (line_end
                                                ++ (codes "# forget them all."
                                                    ++ line_end))))))))))))

unfoldable pub sig_ignored_header : Bytes
sig_ignored_header =
    codes "# FlipDeFlock exclusions v1"
    ++ (line_end
        ++ (codes "# Devices you told the app are YOURS. Nothing listed here is reported as"
            ++ (line_end
                ++ (codes "# a detection, whatever it scores:"
                    ++ (line_end
                        ++ (codes "#   12 hex digits = a whole MAC address"
                            ++ (line_end
                                ++ (codes
                                      "#   8 hex digits  = probe IE fingerprint (survives the MAC changing)"
                                    ++ (line_end
                                        ++ (codes
                                              "# Delete this file, or use Reports > Forget Ignored, to hear them again."
                                            ++ line_end))))))))))

abbrev pub sig_max_ie_fps : ℕ
sig_max_ie_fps = 32

abbrev pub sig_max_macs : ℕ
sig_max_macs = 32

-- `SIG_IGNORED_MAX_FPS` and `SIG_IGNORED_MAX_MACS`
abbrev pub ignored_room : Room
ignored_room = record { for_fps = 32; for_macs = 32 }

module _ (S : Storage) where
  unfoldable pub sig_learned_read : S.Card → Room → Kept
  sig_learned_read c room = sig_lines_read S c sig_learned_path room

  unfoldable pub sig_learned_append : S.Card → Bytes → Bool × S.Card
  sig_learned_append c line = sig_lines_append S c sig_learned_path sig_learned_header line

  unfoldable pub sig_db_learned_count : S.Card → ℕ
  unfolding sig_learned_read
  sig_db_learned_count c =
      let k = sig_learned_read c (record { for_fps = sig_max_ie_fps; for_macs = sig_max_macs }) in
      length k.fps + length k.macs

  unfoldable pub sig_db_learn_fp : S.Card → ℕ → Bool × S.Card
  sig_db_learn_fp c fp =
      if fp == 0 || flock_ie_fp_is_generic fp
      then (false, c)
      else let have =
          (sig_learned_read c (record { for_fps = sig_max_ie_fps; for_macs = 0 })).fps in
        if any_of (λ x. x == fp) have || leb sig_max_ie_fps (length have)
        then (false, c)
        else sig_learned_append c (fp_line fp)

  unfoldable pub sig_db_learn_mac : S.Card → Mac → Bool × S.Card
  sig_db_learn_mac c mac =
      if is_no_device mac
      then (false, c)
      else let have = (sig_learned_read c (record { for_fps = 0; for_macs = sig_max_macs })).macs in
        if any_of (λ x. mac_eq x mac) have || leb sig_max_macs (length have)
        then (false, c)
        else sig_learned_append c (mac_line mac)

  unfoldable pub sig_db_forget_learned : S.Card → Bool × S.Card
  sig_db_forget_learned c = S.remove c sig_learned_path

  unfoldable pub sig_db_ignored_read : S.Card → Room → Kept
  sig_db_ignored_read c room = sig_lines_read S c sig_ignored_path room

  unfoldable pub sig_db_ignored_count : S.Card → ℕ
  sig_db_ignored_count c =
      let k = sig_db_ignored_read c ignored_room in length k.fps + length k.macs

  unfoldable pub sig_db_forget_ignored : S.Card → Bool × S.Card
  sig_db_forget_ignored c = S.remove c sig_ignored_path

  unfoldable pub ignored_append : S.Card → Bytes → Bool × S.Card
  ignored_append c line = sig_lines_append S c sig_ignored_path sig_ignored_header line

  -- The part about the address: whether a line was written.
  unfoldable pub ignore_mac : S.Card → Bool → Mac → Bool × S.Card
  ignore_mac c dup_mac mac = if dup_mac then (false, c) else ignored_append c (mac_line mac)

  -- The part about the fingerprint: whether a line was written.
  unfoldable pub ignore_fp : S.Card → List ℕ → ℕ → Bool × S.Card
  ignore_fp c have_fps fp =
      if not (fp == 0)
        && (not (flock_ie_fp_is_generic fp)
            && (not (any_of (λ x. x == fp) have_fps) && ltb (length have_fps) ignored_room.for_fps))
      then ignored_append c (fp_line fp)
      else (false, c)

  -- The result, `*out_fp_written`, and the card.
  unfoldable pub sig_db_ignore_add : S.Card → Mac → ℕ → Bool × Bool × S.Card
  sig_db_ignore_add c mac fp =
      if is_no_device mac
      then (false, false, c)
      else let have = sig_db_ignored_read c ignored_room in
        let dup_mac = any_of (λ x. mac_eq x mac) have.macs in
        if not dup_mac && leb ignored_room.for_macs (length have.macs)
        then (false, false, c)
        else let (wrote_mac, c1) = ignore_mac c dup_mac mac in
          let (wrote_fp, c2) = ignore_fp c1 have.fps fp in
          ((wrote_mac || wrote_fp) || dup_mac, wrote_fp, c2)
