-- ===== src/Tests/Chunks.antt =====
-- Chunks of a small text.
use skeg_rigging.Base.{◌+◌, ◌≤◌, ◌≡◌, refl, true, some, [], ◌∷◌, length, All, arith}
use skeg_rigging.Text.{Str, codes, is_whitespace}
use skeg_rigging.Text.Lines.{lines, is_blank}
use skeg_rigging.Chunk.{paragraphs, windows_from, line_windows}
use skeg_rigging.Chunk.Source.{IsFrom, source_lines}
use skeg_rigging.Chunk.Rounds.{filled_lines}
use skeg_rigging.Chunk.Paragraphs.{paragraphs-source_lines}
use skeg_rigging.Chunk.Windows.{covered, line_windows-IsFrom, line_windows-covered}

abbrev note : Str
note = codes "ab\nc\n\n d\ne\n"

paragraphs_of_note :
    paragraphs note
    ≡ record { text = codes "ab\nc"; line_lo = 1; line_hi = 2 }
      ∷ record { text = codes " d\ne"; line_lo = 4; line_hi = 5 }
      ∷ []
unfolding paragraphs is_whitespace
paragraphs_of_note = refl

windows_of_note :
    line_windows note 3 2
    ≡ record { text = codes "ab\nc\n"; line_lo = 1; line_hi = 3 }
      ∷ record { text = codes "\n d\ne"; line_lo = 3; line_hi = 5 }
      ∷ []
unfolding line_windows is_whitespace
windows_of_note = refl

paragraphs-source_lines_example :
    (source_lines (lines note) (paragraphs note) ≡ filled_lines (lines note))
    × All (IsFrom (lines note)) (paragraphs note)
paragraphs-source_lines_example = paragraphs-source_lines note

line_windows-IsFrom_example :
    (windows_from (length (lines note) + 1) (lines note) 3 2 0 [] ≡ some (line_windows note 3 2))
    × All (λ c. IsFrom (lines note) c × (c.line_hi + 1 ≤ c.line_lo + 3)) (line_windows note 3 2)
line_windows-IsFrom_example = line_windows-IsFrom note 3 2 (omega arith) (omega arith)

line_windows-covered_example : covered 3 (line_windows note 3 2) ≡ true
unfolding lines is_blank is_whitespace
line_windows-covered_example =
    line_windows-covered note 3 2 3 (codes " d") (omega arith) (omega arith) refl refl
