-- ===== src/EspLink/Segments.antt =====
-- What the worker hears, and what it should make of it.
use flip_de_flock.Common.{
  Bool, List, Option, [], if◌then◌else◌, length, ltb, none, not, some, ℕ, ◌&&◌, ◌++◌, ◌+◌, ◌==◌,
  ◌∷◌,
}
use flip_de_flock.Common.Bytes.{Bytes, is_empty}
use flip_de_flock.EspLink.{EspLink, esp_line_max, is_line_end, lose_byte, worker_byte}

-- A byte that came, or one that was lost before the worker looked again.
pub data Rx : Type 0 where
  came : ℕ → Rx
  missed : Rx

abbrev pub or_nothing : Option Bytes → List Bytes → List Bytes
or_nothing none ls = ls
or_nothing (some l) ls = l ∷ ls

abbrev pub hear : Rx → EspLink → EspLink × Option Bytes
hear (came c) esp = worker_byte c esp
hear missed esp = (lose_byte esp, none)

-- The lines that reach the parser.
unfoldable pub delivered : List Rx → EspLink → List Bytes
delivered [] esp = []
delivered (e ∷ es) esp = or_nothing (hear e esp).1 (delivered es (hear e esp).0)

-- The lines between line ends, without a buffer and without counters: a line counts if it is not
-- empty, fits 383 bytes, and nothing of it was lost. `seg` is what came since the last line end,
-- `gaps` how much was lost.
abbrev pub is_sound : Bytes → ℕ → Bool
is_sound seg gaps = gaps == 0 && (not (is_empty seg) && ltb (length seg) esp_line_max)

abbrev pub if_sound : Bytes → ℕ → Option Bytes
if_sound seg gaps = if is_sound seg gaps then some seg else none

unfoldable pub sound_lines : Bytes → ℕ → List Rx → List Bytes
sound_lines seg gaps [] = []
sound_lines seg gaps (missed ∷ es) = sound_lines seg (gaps + 1) es
sound_lines seg gaps (came c ∷ es) =
    let next = sound_lines [] 0 es in
    let on = sound_lines (seg ++ c ∷ []) gaps es in
    if is_line_end c then or_nothing (if_sound seg gaps) next else on
