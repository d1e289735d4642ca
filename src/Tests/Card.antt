-- ===== src/Tests/Card.antt =====
-- A card in memory, and the files of the operator on it.
use flip_de_flock.Common.{
  Option, [], ap, arith, false, if◌then◌else◌, inl, length, none, refl, some, take, true, ◌++◌, ◌∙◌,
  ◌∷◌, ◌≡◌,
}
use flip_de_flock.Common.Bytes.{Bytes, bytes_eq, bytes_eq_iff}
use flip_de_flock.Common.Mac.{mac_eq}
use flip_de_flock.Common.Print.{hex_u32}
use flip_de_flock.Common.Search.{any_of}
use flip_de_flock.FlockDb.Fingerprint.{flock_ie_fp_is_generic, holds}
use flip_de_flock.FlockStore.RoundTrip.{IsMac}
use flip_de_flock.ReconApp.Exclude.{recon_app_exclude_device}
use flip_de_flock.ReconApp.Excluded.{IsQuiet, excluded_stays-IsQuiet}
use flip_de_flock.ReconApp.Once.{report_all}
use flip_de_flock.ReconApp.Purge.{recon_app_purge_excluded}
use flip_de_flock.SigDb.{fp_line, is_no_device, mac_line}
use flip_de_flock.SigDb.Exclusion.{exclude_spec, ignored_text}
use flip_de_flock.SigDb.Learn.{
  ignore_fp, ignore_mac, ignored_append, ignored_room, sig_db_ignore_add, sig_db_ignored_read,
  sig_ignored_header,
}
use flip_de_flock.SigDb.Lines.{read_whole, sig_lines_append, sig_lines_read}
use flip_de_flock.SigDb.Refine.{ignore_add-refines}
use flip_de_flock.SigDb.Storage.{IsReliable, Storage, text_of}
use flip_de_flock.SigDb.Text.{IsWhole}
use flip_de_flock.Tests.Table.{floats, later, mac_b, session, sighting_b}

abbrev Files : Type 0
Files = Bytes → Option Bytes

abbrev text_at : Files → Bytes → Bytes
text_at c p = text_of (c p)

store : Bytes → Bytes → Files → Files
store p t c q = if bytes_eq q p then some t else c q

abbrev memory : Storage
memory = record {
  Card = Files;
  open_read = λ c p. elim (c p) [ none ↦ false | some b ↦ true ];
  size = λ c p. length (text_at c p);
  read = λ c p n. take n (text_at c p);
  mkdir = λ c. c;
  open_append = λ c p. (true, store p (text_at c p) c);
  write = λ c p t. (length t, store p (text_at c p ++ t) c);
  remove = λ c p. (true, λ q. if bytes_eq q p then none else c q);
}

abbrev file : Files → Bytes → Option Bytes
file c p = c p

store_same : (p t : Bytes) (c : Files) → store p t c p ≡ some t
unfolding store
store_same p t c = rw ((bytes_eq_iff p p).1 refl)

take_whole : (b : Bytes) → take (length b) b ≡ b
take_whole [] = refl
take_whole (x ∷ b) = ap (λ t. x ∷ t) (take_whole b)

memory-IsReliable : IsReliable memory file
memory-IsReliable = record {
  missing = λ c p e. rw e;
  present = λ c p b e. rw e;
  sized = λ c p b e. ap (λ o. length (text_of o)) e;
  reads = λ c p b e. ap (λ o. take (length b) (text_of o)) e ∙ take_whole b;
  keeps = λ c p. refl;
  opens = λ c p. refl;
  made = λ c p. store_same p (text_at c p) c;
  writes = λ c p t. refl;
  written = λ c p b t e. store_same p (text_at c p ++ t) c ∙ ap (λ o. some (text_of o ++ t)) e;
}

abbrev no_files : Files
no_files p = none

excluded : (recon_app_exclude_device memory no_files session mac_b 77).0 ≡ true
unfolding recon_app_exclude_device sig_db_ignore_add sig_db_ignored_read sig_lines_read read_whole
    is_no_device mac_eq any_of ignore_mac ignore_fp ignored_append sig_lines_append store
    flock_ie_fp_is_generic holds fp_line mac_line hex_u32 sig_ignored_header
    recon_app_purge_excluded
excluded = refl

mac_b-IsMac : IsMac mac_b
mac_b-IsMac = record {
  byte0 = omega arith;
  byte1 = omega arith;
  byte2 = omega arith;
  byte3 = omega arith;
  byte4 = omega arith;
  byte5 = omega arith;
}

-- Excluding the stored device of a session by its address and its fingerprint.
excluded_stays-IsQuiet_example :
    let r = recon_app_exclude_device memory no_files session mac_b 77 in
    IsQuiet memory floats mac_b 77 r.1 r.2 r.3 (report_all floats ((later, sighting_b) ∷ []) r.3)
excluded_stays-IsQuiet_example =
    excluded_stays-IsQuiet memory file memory-IsReliable floats no_files session mac_b 77
      ((later, sighting_b) ∷ []) mac_b-IsMac (omega arith) (inl refl) (omega arith) excluded

-- The first exclusion on a card that has no file yet.
ignore_add-refines_example :
    let r = sig_db_ignore_add memory no_files mac_b 77 in
    let spec = exclude_spec (sig_db_ignored_read memory no_files ignored_room) mac_b 77 in
    (r.0 ≡ spec.0)
    × (r.1 ≡ spec.1)
    × (sig_db_ignored_read memory r.2 ignored_room ≡ spec.2)
    × IsWhole (ignored_text memory file memory-IsReliable r.2)
ignore_add-refines_example =
    ignore_add-refines memory file memory-IsReliable no_files mac_b 77 mac_b-IsMac (omega arith)
      (inl refl) (omega arith)
