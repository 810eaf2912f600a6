-- ===== src/Chunk.antt =====
-- crates/skeg-rigging-ingest/src/chunk.rs: splitting a text into chunks with their line ranges.
pub mod Source
pub mod Rounds
pub mod Paragraphs
pub mod Windows
use skeg_rigging.Base.{
  ℕ, zero, suc, ◌+◌, ◌-◌, Bool, true, false, not, ◌||◌, Option, none, some, List, [], ◌∷◌, ◌++◌,
  length, take, drop, min, max, ltb, ◌==◌, if◌then◌else◌,
}
use skeg_rigging.Text.{Str, codes, text_eq}
use skeg_rigging.Text.Lines.{lines as text_lines, join, is_blank}
use skeg_rigging.Text.Words.{split_whitespace}

-- Lines are counted from 1, both ends included.
pub record Chunk : Type 0 where
  pub text : Str
  pub line_lo : ℕ
  pub line_hi : ℕ

pub data ChunkMode : Type 0 where
  paragraph : ChunkMode
  lines : (win step : ℕ) → ChunkMode

unfoldable pub for_ext : Str → ChunkMode
unfolding text_eq
for_ext ext =
    if text_eq ext (codes "md")
      || text_eq ext (codes "mdx")
      || text_eq ext (codes "txt")
      || text_eq ext (codes "rst")
    then paragraph
    else ChunkMode.lines 40 30

unfoldable pub word_count : Str → ℕ
unfolding split_whitespace
word_count s = length (split_whitespace s)

-- `&lines[lo..hi]`
abbrev pub slice : ℕ → ℕ → List Str → List Str
slice lo hi ls = take (hi - lo) (drop lo ls)

unfoldable pub push_para : List Chunk → List Str → ℕ → ℕ → List Chunk
unfolding join is_blank
push_para out ls lo hi =
    if is_blank (join ls)
    then out
    else out ++ record { text = join ls; line_lo = lo; line_hi = hi } ∷ []

-- The variables of the loop of `paragraphs`.
pub record Para : Type 0 where
  pub out : List Chunk
  pub buf : List Str
  pub start : ℕ

abbrev pub is_empty : List Str → Bool
is_empty [] = true
is_empty (x ∷ xs) = false

-- One round, at the line with index `i`.
unfoldable pub para_round : ℕ → Str → Para → Para
unfolding push_para
para_round i line p =
    if is_blank line
    then (if is_empty p.buf
        then record p { start = i + 2 }
        else record { out = push_para p.out p.buf p.start i; buf = []; start = i + 2 })
    else record p { start = if is_empty p.buf then i + 1 else p.start; buf = p.buf ++ line ∷ [] }

unfoldable pub para_loop : ℕ → List Str → Para → Para
unfolding para_round
para_loop i [] p = p
para_loop i (line ∷ ls) p = para_loop (i + 1) ls (para_round i line p)

unfoldable pub paragraphs : Str → List Chunk
unfolding para_loop text_lines
paragraphs text =
    let p = para_loop 0 (text_lines text) (record { out = []; buf = []; start = 1 }) in
    if is_empty p.buf then p.out else push_para p.out p.buf p.start (length (text_lines text))

-- The loop of `line_windows` from the index `i`; `none` means that the fuel ran out.
abbrev pub body : List Str → ℕ → ℕ → List Chunk
body ls i end =
    if is_blank (join (slice i end ls))
    then []
    else record { text = join (slice i end ls); line_lo = i + 1; line_hi = end } ∷ []

unfoldable pub windows_from : ℕ → List Str → ℕ → ℕ → ℕ → List Chunk → Option (List Chunk)
unfolding join is_blank
windows_from zero ls win step i out = none
windows_from (suc fuel) ls win step i out =
    let end = min (i + win) (length ls) in
    let out' = out ++ body ls i end in
    let rest = windows_from fuel ls win step (i + step) out' in
    if ltb i (length ls) then (if end == length ls then some out' else rest) else some out

-- The vector at the end; with enough fuel there is one.
abbrev pub collected : Option (List Chunk) → List Chunk
collected (some out) = out
collected none = []

-- One round for each line and one more.
unfoldable pub line_windows : Str → ℕ → ℕ → List Chunk
unfolding windows_from text_lines
line_windows text win step =
    collected (windows_from (length (text_lines text) + 1) (text_lines text) win step 0 [])

unfoldable pub chunk : Str → ChunkMode → List Chunk
unfolding paragraphs line_windows
chunk text paragraph = paragraphs text
chunk text (ChunkMode.lines win step) = line_windows text (max win 1) (max step 1)
