-- ===== src/ReportEscape/Markup.antt =====
-- What the Markdown and XML outputs never hold.
use flip_de_flock.Common.{[], arith, some, subst, suc, sym, take, ℕ, ◌∷◌, ◌≡◌, ◌≢◌, ◌≤◌, ◌⊎◌}
use flip_de_flock.Common.Bytes.{Bytes}
use flip_de_flock.Common.Search.{All, All-append}
use flip_de_flock.ReportEscape.{md_escape, md_seq, quote, xml_escape, xml_seq}
use flip_de_flock.ReportEscape.Loop.{escape_with_cuts, spelled}

-- The bytes that XML text and attribute values may hold as they are: not the five that are
-- written as entities, but for the ampersand of an entity, and no control character but tab, line
-- feed and carriage return.
abbrev pub XmlByte : ℕ → Type 0
XmlByte c =
    (c ≢ b'<')
    × (c ≢ b'>')
    × (c ≢ quote)
    × (c ≢ b'\'')
    × ((0x20 ≤ c) ⊎ ((c ≡ b'\t') ⊎ ((c ≡ b'\n') ⊎ (c ≡ b'\r'))))

-- A byte of a Markdown cell: no control character, so no line break, and no backtick.
abbrev pub MdByte : ℕ → Type 0
MdByte c = (0x20 ≤ c) × (c ≢ b'`')

All-spelled :
    (P : ℕ → Type 0) (seq : ℕ → Bytes) (s : Bytes)
    → ((c : ℕ) → All P (seq c))
    → All P (spelled seq s)
All-spelled P seq [] each = tt
All-spelled P seq (c ∷ s) each =
    All-append P (seq c) (spelled seq s) (each c) (All-spelled P seq s each)

xml_seq-XmlByte : (c : ℕ) → All XmlByte (xml_seq c)
unfolding xml_seq
xml_seq-XmlByte c = ground arith

md_seq-MdByte : (c : ℕ) → All MdByte (md_seq c)
unfolding md_seq
md_seq-MdByte c = ground arith

-- Whatever a name holds and wherever it is cut, the XML output has none of < > " ' and no control
-- character that XML forbids.
xml_escape-XmlByte :
    (s : Bytes) (n : ℕ) → (out : Bytes) × (xml_escape s (suc n) ≡ some out) × All XmlByte out
unfolding xml_escape
xml_escape-XmlByte s n =
    let (out, k, written, is_spelled, len, full) = escape_with_cuts xml_seq s n in
    (
      out,
      written,
      subst (All XmlByte) (sym is_spelled) (All-spelled XmlByte xml_seq (take k s) xml_seq-XmlByte),
    )

-- The Markdown output has no line break or other control character and no backtick, so that it
-- stays on its row and opens no code span.
pub md_escape-MdByte :
    (s : Bytes) (n : ℕ) → (out : Bytes) × (md_escape s (suc n) ≡ some out) × All MdByte out
unfolding md_escape
md_escape-MdByte s n =
    let (out, k, written, is_spelled, len, full) = escape_with_cuts md_seq s n in
    (
      out,
      written,
      subst (All MdByte) (sym is_spelled) (All-spelled MdByte md_seq (take k s) md_seq-MdByte),
    )
