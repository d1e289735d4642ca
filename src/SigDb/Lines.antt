-- ===== src/SigDb/Lines.antt =====
-- helpers/sig_db.c: reading and appending to learned.txt and ignored.txt.
use flip_de_flock.Common.{
  Bool, List, Option, [], false, if◌then◌else◌, leb, length, ltb, none, not, some, ℕ, ◌%◌, ◌&&◌,
  ◌++◌, ◌==◌, ◌^◌, ◌∷◌,
}
use flip_de_flock.Common.Bytes.{Bytes}
use flip_de_flock.Common.Mac.{Mac, mac_eq}
use flip_de_flock.Common.Search.{any_of}
use flip_de_flock.SigDb.{mac_of_value, sig_learned_parse_line}
use flip_de_flock.SigDb.Storage.{Storage}

-- The two arrays that a file is read into. An array that is NULL has no room.
pub record Kept : Type 0 where
  pub fps : List ℕ
  pub macs : List Mac

abbrev pub none_kept : Kept
none_kept = record { fps = []; macs = [] }

pub record Room : Type 0 where
  pub for_fps : ℕ
  pub for_macs : ℕ

unfoldable pub keep_fp : ℕ → ℕ → Kept → Kept
keep_fp room fp k =
    if ltb (length k.fps) room && not (any_of (λ x. x == fp) k.fps)
    then record k { fps = k.fps ++ fp ∷ [] }
    else k

unfoldable pub keep_mac : ℕ → Mac → Kept → Kept
keep_mac room m k =
    if ltb (length k.macs) room && not (any_of (λ x. mac_eq x m) k.macs)
    then record k { macs = k.macs ++ m ∷ [] }
    else k

-- What a line that was read adds.
abbrev pub keep_parsed : Room → Kept → Option (ℕ × ℕ) → Kept
keep_parsed room k none = k
keep_parsed room k (some (digits, v)) =
    if digits == 8
    then keep_fp room.for_fps (v % 2 ^ 32) k
    else if digits == 12
    then keep_mac room.for_macs (mac_of_value v) k
    else k

-- The body of the loop, for a line that is done.
unfoldable pub keep_line : Room → Kept → Bytes → Kept
keep_line room k line = keep_parsed room k (sig_learned_parse_line line)

abbrev pub onto_first : ℕ → List Bytes → List Bytes
onto_first c [] = (c ∷ []) ∷ []
onto_first c (l ∷ ls) = (c ∷ l) ∷ ls

-- The lines that the loop over the buffer cuts out; what follows the last newline is one too.
unfoldable pub lines_of : Bytes → List Bytes
lines_of [] = [] ∷ []
lines_of (c ∷ s) = let rest = lines_of s in if c == b'\n' then [] ∷ rest else onto_first c rest

unfoldable pub keep_lines : Room → Kept → List Bytes → Kept
keep_lines room k [] = k
keep_lines room k (l ∷ ls) = keep_lines room (keep_line room k l) ls

abbrev pub sig_max_file : ℕ
sig_max_file = 8192

-- The whole text of a file, if it is neither empty nor too long and is read in full.
unfoldable pub read_whole : (S : Storage) → S.Card → Bytes → Option Bytes
read_whole S c path =
    let size = S.size c path in
    let buf = S.read c path (size % 2 ^ 16) in
    if S.open_read c path && (ltb 0 size && (leb size sig_max_file && length buf == size))
    then some buf
    else none

abbrev pub kept_in : Room → Option Bytes → Kept
kept_in room none = none_kept
kept_in room (some buf) = keep_lines room none_kept (lines_of buf)

unfoldable pub sig_lines_read : (S : Storage) → S.Card → Bytes → Room → Kept
sig_lines_read S c path room = kept_in room (read_whole S c path)

abbrev pub write_header : (S : Storage) → S.Card → Bytes → Bytes → S.Card
write_header S c path header = if S.size c path == 0 then (S.write c path header).1 else c

unfoldable pub sig_lines_append : (S : Storage) → S.Card → Bytes → Bytes → Bytes → Bool × S.Card
sig_lines_append S c path header line =
    let (opened, c1) = S.open_append (S.mkdir c) path in
    if opened
    then (let (n, c2) = S.write (write_header S c1 path header) path line in (n == length line, c2))
    else (false, c1)
