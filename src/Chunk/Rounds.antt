-- ===== src/Chunk/Rounds.antt =====
-- One round of the loop of `paragraphs` in crates/skeg-rigging-ingest/src/chunk.rs.
use mathlib.Core.Path.{subst}
use mathlib.Core.List.{append_assoc, append-nil}
use skeg_rigging.Base.{
  ℕ, suc, ◌+◌, ◌-◌, ◌≤◌, ◌<◌, ◌≡◌, refl, sym, ap, ◌∙◌, Bool, true, false, not, List, [], ◌∷◌, ◌++◌,
  All, All-append, filter, filter-append, length, take, drop, take_next, arith, Bool-cases, inl,
  inr, if◌then◌else◌,
}
use skeg_rigging.Text.{Str}
use skeg_rigging.Text.Lines.{join, is_blank, is_blank-join}
use skeg_rigging.Chunk.{Chunk, slice, push_para, Para, is_empty}
use skeg_rigging.Chunk.Source.{IsFrom, source_lines, source_lines-append, length-slice, slice_next}

abbrev pub filled : Str → Bool
filled line = not (is_blank line)

-- The lines that are not blank, in their order.
abbrev pub filled_lines : List Str → List Str
filled_lines = filter filled

is_blank-join_filled :
    (buf : List Str)
    → is_empty buf ≡ false
    → All (λ line. is_blank line ≡ false) buf
    → is_blank (join buf) ≡ false
is_blank-join_filled [] h b = cc
is_blank-join_filled (x ∷ xs) h b = is_blank-join x xs b.0

length-pos : (buf : List Str) → is_empty buf ≡ false → 0 < length buf
length-pos [] h = cc
length-pos (x ∷ xs) h = omega arith

pub length-zero : (buf : List Str) → is_empty buf ≡ true → buf ≡ []
length-zero [] h = refl
length-zero (x ∷ xs) h = cc

module _ (ls : List Str) where
  -- The loop at the index `i`: the chunks and the buffer hold the lines so far that are not blank,
  -- and the buffer is the range from `start` up to here.
  pub record Invariant (i : ℕ) (p : Para) : Type 0 where
    pub from : All (IsFrom ls) p.out
    pub held : source_lines ls p.out ++ p.buf ≡ filled_lines (take i ls)
    pub buf : p.buf ≡ slice (p.start - 1) i ls
    pub start_pos : 1 ≤ p.start
    pub start_le : p.start ≤ i + 1
    pub not_blank : All (λ line. is_blank line ≡ false) p.buf

  length-buf : (i : ℕ) (p : Para) → i ≤ length ls → Invariant i p → length p.buf + p.start ≡ i + 1
  length-buf i p h inv =
      omega (arith, ap length inv.buf, length-slice (p.start - 1) i ls h, inv.start_le)

  -- A buffer that is not empty becomes a chunk.
  pub record Pushed (i : ℕ) (p : Para) (out : List Chunk) : Type 0 where
    pub from : All (IsFrom ls) out
    pub held : source_lines ls out ≡ filled_lines (take i ls)

  pub push_para-Pushed :
      (i : ℕ) (p : Para)
      → i ≤ length ls
      → is_empty p.buf ≡ false
      → Invariant i p
      → Pushed i p (push_para p.out p.buf p.start i)
  unfolding push_para
  push_para-Pushed i p h full inv =
      let dense = is_blank-join_filled p.buf full inv.not_blank in
      let some_line = length-pos p.buf full in
      let size = length-buf i p h inv in
      rw dense (record {
        from = All-append (IsFrom ls) p.out _ inv.from (
          record {
            lo_pos = inv.start_pos;
            lo_le_hi = omega arith;
            hi_le = h;
            text = ap join inv.buf;
            not_blank = dense;
          },
          tt,
        );
        held =
            source_lines-append ls p.out _
            ∙ ap (λ r. source_lines ls p.out ++ r) (append-nil _ ∙ sym inv.buf)
            ∙ inv.held;
      })

  -- A line more, which is blank or not.
  filled_next :
      (i : ℕ) (x : Str) (rest : List Str)
      → drop i ls ≡ x ∷ rest
      → filled_lines (take (i + 1) ls) ≡ filled_lines (take i ls) ++ filled_lines (x ∷ [])
  filled_next i x rest e =
      let more : i + 1 ≡ suc i = omega arith in
      ap (λ n. filled_lines (take n ls)) more
      ∙ ap filled_lines (take_next i ls x rest e).0
      ∙ filter-append filled (take i ls) (x ∷ [])

  -- Behind a blank line the buffer is empty and starts at the next line.
  pub blank_round :
      (i : ℕ) (x : Str) (rest : List Str) (out : List Chunk)
      → i < length ls
      → drop i ls ≡ x ∷ rest
      → is_blank x ≡ true
      → All (IsFrom ls) out
      → source_lines ls out ≡ filled_lines (take i ls)
      → Invariant (i + 1) (record { out = out; buf = []; start = i + 2 })
  blank_round i x rest out h e b from held = record {
    from = from;
    held = append-nil _ ∙ held ∙ sym (filled_next i x rest e ∙ rw b (append-nil _));
    buf =
        let none_left : i + 1 - (i + 2 - 1) ≡ 0 = omega arith in
        ap (λ n. take n (drop (i + 2 - 1) ls)) (sym none_left);
    start_pos = omega arith;
    start_le = omega arith;
    not_blank = tt;
  }

  pub empty_round :
      (i : ℕ) (x : Str) (rest : List Str) (p : Para)
      → i < length ls
      → drop i ls ≡ x ∷ rest
      → is_blank x ≡ true
      → is_empty p.buf ≡ true
      → Invariant i p
      → Invariant (i + 1) (record p { start = i + 2 })
  empty_round i x rest p h e b none_yet inv =
      let z : p.buf ≡ [] = length-zero p.buf none_yet in
      subst (λ buf. Invariant (i + 1) (record { out = p.out; buf = buf; start = i + 2 })) (sym z)
        (blank_round i x rest p.out h e b inv.from
          (sym (append-nil _) ∙ ap (λ buf. source_lines ls p.out ++ buf) (sym z) ∙ inv.held))

  start_same :
      (i : ℕ) (p : Para)
      → i ≤ length ls
      → Invariant i p
      → (if is_empty p.buf then i + 1 else p.start) ≡ p.start
  start_same i p h inv = elim (Bool-cases (is_empty p.buf)) [
    | inl none_yet ↦
        rw none_yet (omega (arith, length-buf i p h inv, ap length (length-zero p.buf none_yet)))
    | inr full ↦ rw full
  ]

  pub filled_round :
      (i : ℕ) (x : Str) (rest : List Str) (p : Para)
      → i < length ls
      → drop i ls ≡ x ∷ rest
      → is_blank x ≡ false
      → Invariant i p
      → Invariant
          (i + 1)
          (record p { start = if is_empty p.buf then i + 1 else p.start; buf = p.buf ++ x ∷ [] })
  filled_round i x rest p h e b inv =
      let size = length-buf i p (omega arith) inv in
      rw (start_same i p (omega arith) inv) (record {
        from = inv.from;
        held =
            sym (append_assoc (source_lines ls p.out) p.buf (x ∷ []))
            ∙ ap (λ l. l ++ x ∷ []) inv.held
            ∙ sym (filled_next i x rest e ∙ rw b refl);
        buf =
            ap (λ l. l ++ x ∷ []) inv.buf
            ∙ sym (slice_next (p.start - 1) i ls x rest (omega (arith, inv.start_le)) e);
        start_pos = inv.start_pos;
        start_le = omega (arith, inv.start_le);
        not_blank = All-append _ p.buf (x ∷ []) inv.not_blank (b, tt);
      })
