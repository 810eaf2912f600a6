-- ===== src/Chunk/Windows.antt =====
-- The sliding window of `line_windows` (crates/skeg-rigging-ingest/src/chunk.rs).
use mathlib.Core.Path.{subst}
use skeg_rigging.Base.{
  ℕ, zero, suc, ◌+◌, ◌-◌, ◌≤◌, ◌<◌, ◌≡◌, sym, ap, ◌∙◌, Bool, true, false, ◌&&◌, some, List, [], ◌∷◌,
  ◌++◌, All, All-append, any, any-append, length, lt_of_get_elem?, drop, get_elem?, get_elem?-take,
  get_elem?-drop, min, arith, ltb, leb, ◌==◌, Bool-cases, inl, inr, if_elim,
}
use skeg_rigging.Text.{Str}
use skeg_rigging.Text.Lines.{lines, join, is_blank, is_blank-append}
use skeg_rigging.Chunk.Source.{IsFrom}
use skeg_rigging.Chunk.{Chunk, slice, body, collected, windows_from, line_windows}

-- The line with index `j` is in the range of a chunk.
abbrev pub covered : ℕ → List Chunk → Bool
covered j = any (λ c. leb c.line_lo (j + 1) && leb (j + 1) c.line_hi)

is_blank-join_elem :
    (xs : List Str) (k : ℕ) (x : Str)
    → get_elem? xs k ≡ some x
    → is_blank x ≡ false
    → is_blank (join xs) ≡ false
unfolding join is_blank
is_blank-join_elem [] k x h b = cc
is_blank-join_elem (y ∷ []) zero x h b = ground arith
is_blank-join_elem (y ∷ []) (suc k) x h b = cc
is_blank-join_elem (y ∷ z ∷ ys) zero x h b = ground (arith, is_blank-append y (0xA ∷ join (z ∷ ys)))
is_blank-join_elem (y ∷ z ∷ ys) (suc k) x h b =
    ground (arith, is_blank-append y (0xA ∷ join (z ∷ ys)), is_blank-join_elem (z ∷ ys) k x h b)

module _ (ls : List Str) (win step : ℕ) where
  abbrev end : ℕ → ℕ
  end i = min (i + win) (length ls)

  -- Every line before `m` that is not blank is in a chunk.
  abbrev Covers : List Chunk → ℕ → Type 0
  Covers out m =
      (j : ℕ) (x : Str)
      → j < m
      → get_elem? ls j ≡ some x
      → is_blank x ≡ false
      → covered j out ≡ true

  body-IsFrom :
      (i : ℕ)
      → i < length ls
      → 0 < win
      → All (λ c. IsFrom ls c × (c.line_hi + 1 ≤ c.line_lo + win)) (body ls i (end i))
  body-IsFrom i h w =
      if_elim (All (λ c. IsFrom ls c × (c.line_hi + 1 ≤ c.line_lo + win)))
        (is_blank (join (slice i (end i) ls))) (λ _. tt)
        (λ filled. (
          (
            record {
              lo_pos = omega arith;
              lo_le_hi = omega arith;
              hi_le = omega arith;
              text = ap (λ k. join (slice k (end i) ls)) (omega arith);
              not_blank = filled;
            },
            omega arith,
          ),
          tt,
        ))

  slice_elem :
      (i j : ℕ) (x : Str)
      → i ≤ j
      → j < end i
      → get_elem? ls j ≡ some x
      → get_elem? (slice i (end i) ls) (j - i) ≡ some x
  slice_elem i j x lo hi e =
      get_elem?-take (end i - i) (j - i) (drop i ls) (omega arith) ∙ get_elem?-drop i j ls lo ∙ e

  body-covered :
      (i j : ℕ) (x : Str)
      → i ≤ j
      → j < end i
      → get_elem? ls j ≡ some x
      → is_blank x ≡ false
      → covered j (body ls i (end i)) ≡ true
  body-covered i j x lo hi e b =
      rw (is_blank-join_elem (slice i (end i) ls) (j - i) x (slice_elem i j x lo hi e) b)
        (ground arith)

  round-Covers :
      (i : ℕ) (out : List Chunk) → Covers out i → Covers (out ++ body ls i (end i)) (end i)
  round-Covers i out c j x h e b = elim (Bool-cases (ltb j i)) [
    | inl before ↦ any-append _ out (body ls i (end i)) ∙ rw (c j x (ground arith) e b)
    | inr here ↦
        any-append _ out (body ls i (end i))
        ∙ ground (arith, body-covered i j x (ground arith) h e b)
  ]

  record Invariant (out : List Chunk) (m : ℕ) : Type 0 where
    from : All (λ c. IsFrom ls c × (c.line_hi + 1 ≤ c.line_lo + win)) out
    covers : step ≤ win → Covers out m

  weaken : (out : List Chunk) (m k : ℕ) → (step ≤ win → k ≤ m) → Invariant out m → Invariant out k
  weaken out m k h inv = record {
    from = inv.from;
    covers = λ s j x lt. inv.covers s j x (omega (arith, h s));
  }

  round-Invariant :
      (i : ℕ) (out : List Chunk)
      → i < length ls
      → 0 < win
      → Invariant out i
      → Invariant (out ++ body ls i (end i)) (end i)
  round-Invariant i out h w inv = record {
    from = All-append _ out (body ls i (end i)) inv.from (body-IsFrom i h w);
    covers = λ s. round-Covers i out (inv.covers s);
  }

  -- With a step, and a round more than there are lines left, the loop ends.
  windows_from-Invariant :
      (fuel i : ℕ) (out : List Chunk)
      → length ls - i < fuel
      → 0 < step
      → 0 < win
      → Invariant out i
      → (out' : List Chunk) × (windows_from fuel ls win step i out ≡ some out')
        × Invariant out' (length ls)
  unfolding windows_from
  windows_from-Invariant zero i out h s w inv = absurd (omega arith)
  windows_from-Invariant (suc fuel) i out h s w inv = elim (Bool-cases (ltb i (length ls))) [
    | inl more ↦ elim (Bool-cases (end i == length ls)) [
      | inl last ↦ (
        out ++ body ls i (end i),
        rw (more, last),
        weaken (out ++ body ls i (end i)) (end i) (length ls) (λ _. ground arith)
            (round-Invariant i out (ground arith) w inv),
      )
      | inr goes_on ↦
          let (out', e, inv') =
            windows_from-Invariant fuel (i + step) (out ++ body ls i (end i)) (ground arith) s w (
              weaken (out ++ body ls i (end i)) (end i) (i + step) (λ fits. ground arith)
                (round-Invariant i out (ground arith) w inv)) in
          (out', rw (more, goes_on) e, inv')
    ]
    | inr done ↦ (out, rw done, weaken out i (length ls) (λ _. ground arith) inv)
  ]

line_windows-Invariant :
    (text : Str) (win step : ℕ)
    → 0 < win
    → 0 < step
    → (windows_from (length (lines text) + 1) (lines text) win step 0 []
        ≡ some (line_windows text win step))
      × Invariant (lines text) win step (line_windows text win step) (length (lines text))
unfolding line_windows
line_windows-Invariant text win step w s =
    let (out, e, inv) =
      windows_from-Invariant (lines text) win step (length (lines text) + 1) 0 [] (omega arith) s w
        (record { from = tt; covers = λ _ j x lt. absurd (omega arith) }) in
    let same : out ≡ line_windows text win step = ap collected (sym e) in
    (
      e ∙ ap some same,
      subst (λ o. Invariant (lines text) win step o (length (lines text))) same inv,
    )

-- For every positive window and step the loop ends. Each chunk is the joined lines of its range,
-- which lies in the text, spans at most `win` lines and is not blank.
pub line_windows-IsFrom :
    (text : Str) (win step : ℕ)
    → 0 < win
    → 0 < step
    → (windows_from (length (lines text) + 1) (lines text) win step 0 []
        ≡ some (line_windows text win step))
      × All
          (λ c. IsFrom (lines text) c × (c.line_hi + 1 ≤ c.line_lo + win))
          (line_windows text win step)
line_windows-IsFrom text win step w s =
    let (ends, inv) = line_windows-Invariant text win step w s in (ends, inv.from)

-- If the step is no wider than the window, every line that is not blank is in the range of a chunk.
pub line_windows-covered :
    (text : Str) (win step j : ℕ) (x : Str)
    → 0 < step
    → step ≤ win
    → get_elem? (lines text) j ≡ some x
    → is_blank x ≡ false
    → covered j (line_windows text win step) ≡ true
line_windows-covered text win step j x s fits here b =
    let (_, inv) = line_windows-Invariant text win step (omega arith) s in
    inv.covers fits j x (lt_of_get_elem? (lines text) j x here) here b
