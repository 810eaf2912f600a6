-- ===== src/Chunk/Paragraphs.antt =====
-- The paragraphs of crates/skeg-rigging-ingest/src/chunk.rs.
use mathlib.Core.Path.{subst}
use mathlib.Core.List.{append-nil}
use skeg_rigging.Base.{
  ℕ, suc, ◌+◌, ◌≤◌, ◌<◌, ◌≡◌, refl, sym, ap, ◌∙◌, List, [], ◌∷◌, ◌++◌, All, length, length-drop,
  take-length, drop, take_next, arith, Bool-cases, inl, inr,
}
use skeg_rigging.Text.{Str}
use skeg_rigging.Text.Lines.{lines, is_blank}
use skeg_rigging.Chunk.{Para, is_empty, para_round, para_loop, paragraphs}
use skeg_rigging.Chunk.Source.{IsFrom, source_lines}
use skeg_rigging.Chunk.Rounds.{
  filled_lines, length-zero, Invariant, push_para-Pushed, blank_round, empty_round, filled_round,
}

module _ (ls : List Str) where
  round-Invariant :
      (i : ℕ) (x : Str) (rest : List Str) (p : Para)
      → i < length ls
      → drop i ls ≡ x ∷ rest
      → Invariant ls i p
      → Invariant ls (i + 1) (para_round i x p)
  unfolding para_round
  round-Invariant i x rest p h e inv = elim (Bool-cases (is_blank x)) [
    | inl b ↦ elim (Bool-cases (is_empty p.buf)) [
      | inl none_yet ↦ rw (b, none_yet) (empty_round ls i x rest p h e b none_yet inv)
      | inr full ↦
          rw (b, full)
            (let pushed = push_para-Pushed ls i p (omega arith) full inv in
              blank_round ls i x rest _ h e b pushed.from pushed.held)
    ]
    | inr b ↦ rw b (filled_round ls i x rest p h e b inv)
  ]

  loop-Invariant :
      (i : ℕ) (rest : List Str) (p : Para)
      → i ≤ length ls
      → drop i ls ≡ rest
      → Invariant ls i p
      → Invariant ls (length ls) (para_loop i rest p)
  unfolding para_loop
  loop-Invariant i [] p h e inv =
      let last : i ≡ length ls = omega (arith, length-drop i ls, ap length e) in
      subst (λ n. Invariant ls n p) last inv
  loop-Invariant i (x ∷ rest) p h e inv =
      let more : i < length ls = omega (arith, length-drop i ls, ap length e) in
      let behind : drop (i + 1) ls ≡ rest =
        let next : i + 1 ≡ suc i = omega arith in
        ap (λ n. drop n ls) next ∙ (take_next i ls x rest e).1 in
      loop-Invariant (i + 1) rest (para_round i x p) (omega arith) behind
        (round-Invariant i x rest p more e inv)

  start-Invariant : Invariant ls 0 (record { out = []; buf = []; start = 1 })
  start-Invariant = record {
    from = tt;
    held = refl;
    buf = refl;
    start_pos = omega arith;
    start_le = omega arith;
    not_blank = tt;
  }

-- The paragraphs of a text, put one behind the other, are exactly its lines that are not blank, in
-- their order; each is the joined lines of its range, which lies in the text, and is not blank.
pub paragraphs-source_lines :
    (text : Str)
    → (source_lines (lines text) (paragraphs text) ≡ filled_lines (lines text))
      × All (IsFrom (lines text)) (paragraphs text)
unfolding paragraphs
paragraphs-source_lines text =
    let ls = lines text in
    let first : Para = record { out = []; buf = []; start = 1 } in
    let p = para_loop 0 ls first in
    let inv = loop-Invariant ls 0 ls first (omega arith) refl (start-Invariant ls) in
    let whole = ap filled_lines (take-length ls) in
    elim (Bool-cases (is_empty p.buf)) [
      | inl done ↦ rw done (
        sym (append-nil _)
            ∙ ap (λ b. source_lines ls p.out ++ b) (sym (length-zero p.buf done))
            ∙ inv.held
            ∙ whole,
        inv.from,
      )
      | inr full ↦
          let pushed = push_para-Pushed ls (length ls) p (omega arith) full inv in
          rw full (pushed.held ∙ whole, pushed.from)
    ]
