-- ===== src/Chunk/Source.antt =====
-- Where a chunk of crates/skeg-rigging-ingest/src/chunk.rs comes from in its text.
use skeg_rigging.Base.{
  ℕ, suc, ◌+◌, ◌-◌, ◌≤◌, ◌≡◌, refl, sym, ap, ◌∙◌, false, List, [], ◌∷◌, ◌++◌, length, length-take,
  length-drop, take, drop, take_next, drop-drop, arith,
}
use mathlib.Core.List.{append_assoc}
use skeg_rigging.Text.{Str}
use skeg_rigging.Text.Lines.{join, is_blank}
use skeg_rigging.Chunk.{Chunk, slice}

-- The chunk is the joined lines of its range, which lies in the source, and it is not blank.
pub record IsFrom (ls : List Str) (c : Chunk) : Type 0 where
  pub lo_pos : 1 ≤ c.line_lo
  pub lo_le_hi : c.line_lo ≤ c.line_hi
  pub hi_le : c.line_hi ≤ length ls
  pub text : c.text ≡ join (slice (c.line_lo - 1) c.line_hi ls)
  pub not_blank : is_blank c.text ≡ false

-- The lines of the ranges of some chunks, one chunk after another.
abbrev pub source_lines : List Str → List Chunk → List Str
source_lines ls [] = []
source_lines ls (c ∷ out) = slice (c.line_lo - 1) c.line_hi ls ++ source_lines ls out

pub source_lines-append :
    (ls : List Str) (out more : List Chunk)
    → source_lines ls (out ++ more) ≡ source_lines ls out ++ source_lines ls more
source_lines-append ls [] more = refl
source_lines-append ls (c ∷ out) more =
    ap (λ r. slice (c.line_lo - 1) c.line_hi ls ++ r) (source_lines-append ls out more)
    ∙ sym (append_assoc _ (source_lines ls out) (source_lines ls more))

pub length-slice : (lo hi : ℕ) (ls : List Str) → hi ≤ length ls → length (slice lo hi ls) ≡ hi - lo
length-slice lo hi ls h = omega (arith, length-take (hi - lo) (drop lo ls), length-drop lo ls)

-- A range that grows by one line.
pub slice_next :
    (lo i : ℕ) (ls : List Str) (x : Str) (rest : List Str)
    → lo ≤ i
    → drop i ls ≡ x ∷ rest
    → slice lo (i + 1) ls ≡ slice lo i ls ++ x ∷ []
slice_next lo i ls x rest h e =
    let more : i + 1 - lo ≡ suc (i - lo) = omega arith in
    let whole : lo + (i - lo) ≡ i = omega arith in
    ap (λ n. take n (drop lo ls)) more
    ∙ (take_next (i - lo) (drop lo ls) x rest
        (drop-drop (i - lo) lo ls ∙ ap (λ n. drop n ls) whole ∙ e)).0
