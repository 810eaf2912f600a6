-- ===== src/StubEmbed/Buckets.antt =====
-- The vector of `StubEmbed` (crates/skeg-rigging-ingest/src/embed.rs) by the counts of its buckets.
use native.Mathlib.Nat.{mod-lt, ℕ_set}
use mathlib.Core.Logic.{∥∥₁_elim}
use mathlib.Core.List.{Perm}
use mathlib.Core.List.{Permᴰ}
use skeg_rigging.Base.{
  ℕ, zero, suc, ◌+◌, ◌<◌, ◌≡◌, refl, sym, ap, ◌∙◌, List, [], ◌∷◌, map, returned, length, length-map,
  max, ◌==◌, ==_iff, arith, if◌then◌else◌,
}
use skeg_rigging.Float.{Float, float_gt}
use skeg_rigging.Text.{Str}
use skeg_rigging.Text.Words.{split_whitespace}
use skeg_rigging.StubEmbed.{
  new, bucket, replicate, bump, bump_all, norm, normalised, passage, sum_from,
}

-- How many of some words have a bucket.
abbrev pub count_in : ℕ → List ℕ → ℕ
count_in k [] = 0
count_in k (b ∷ buckets) = if b == k then suc (count_in k buckets) else count_in k buckets

abbrev pub buckets_of : (Str → Str) → ℕ → List Str → List ℕ
buckets_of to_lowercase n words = map (bucket to_lowercase n) words

bucket-lt : (to_lowercase : Str → Str) (n : ℕ) (word : Str) → 0 < n → bucket to_lowercase n word < n
unfolding bucket
bucket-lt to_lowercase n word h = mod-lt _ h

zero_add : (n : ℕ) → 0 + n ≡ n
zero_add n = omega arith

add_suc : (a b : ℕ) → suc a + b ≡ a + suc b
add_suc a b = omega arith

module _ {F : Type 0} ⦃f : Float F⦄ where
  -- 1.0 added to a value so many times.
  abbrev pub add_ones : ℕ → F → F
  add_ones zero x = x
  add_ones (suc n) x = add_ones n (f.add x f.one)

  -- Each component from `k` on gets its bucket's count.
  abbrev pub add_counts : List ℕ → ℕ → List F → List F
  add_counts buckets k [] = []
  add_counts buckets k (x ∷ v) = add_ones (count_in k buckets) x ∷ add_counts buckets (suc k) v

  add_counts_none : (k : ℕ) (v : List F) → add_counts [] k v ≡ v
  add_counts_none k [] = refl
  add_counts_none k (x ∷ v) = ap (◌∷◌ x) (add_counts_none (suc k) v)

  add_counts_before :
      (b : ℕ) (buckets : List ℕ) (k : ℕ) (v : List F)
      → b < k
      → add_counts (b ∷ buckets) k v ≡ add_counts buckets k v
  add_counts_before b buckets k [] h = refl
  add_counts_before b buckets k (x ∷ v) h =
      ground (arith, ==_iff b k, add_counts_before b buckets (suc k) v)

  -- One word more.
  add_counts-bump :
      (k offset : ℕ) (buckets : List ℕ) (v : List F)
      → k < length v
      → (v' : List F) × (bump k v ≡ returned v')
        × (length v' ≡ length v)
        × (add_counts buckets offset v' ≡ add_counts ((offset + k) ∷ buckets) offset v)
  unfolding bump
  add_counts-bump k offset buckets [] h = absurd (omega arith)
  add_counts-bump zero offset buckets (x ∷ v) h = (
    f.add x f.one ∷ v,
    refl,
    refl,
    ground
        (arith, ==_iff (offset + 0) offset, add_counts_before (offset + 0) buckets (suc offset) v),
  )
  add_counts-bump (suc k) offset buckets (x ∷ v) h =
      let (v', bumped, same, counted) = add_counts-bump k (suc offset) buckets v (omega arith) in
      (
        x ∷ v',
        rw bumped refl,
        ap suc same,
        ground (
          arith,
          ==_iff (offset + suc k) offset,
          ap (λ b. add_counts (b ∷ buckets) (suc offset) v) (add_suc offset k),
        ),
      )

  -- The loop never panics on a vector that is not empty, and leaves the counts in it.
  bump_all-counts :
      (to_lowercase : Str → Str) (n : ℕ) (words : List Str) (v : List F)
      → 0 < n
      → length v ≡ n
      → (bump_all to_lowercase n words v
          ≡ returned (add_counts (buckets_of to_lowercase n words) 0 v))
  unfolding bump_all
  bump_all-counts to_lowercase n [] v h size = ap returned (sym (add_counts_none 0 v))
  bump_all-counts to_lowercase n (word ∷ words) v h size =
      let b = bucket to_lowercase n word in
      let (v', bumped, same, counted) =
        add_counts-bump b 0 (buckets_of to_lowercase n words) v
          (ground (arith, bucket-lt to_lowercase n word h)) in
      rw (bump_all, bumped)
        (bump_all-counts to_lowercase n words v' h (same ∙ size)
          ∙ ap returned counted
          ∙ ap (λ k. returned (add_counts (k ∷ buckets_of to_lowercase n words) 0 v)) (zero_add b))

  -- The counts of the buckets from `k` on, as floats.
  abbrev pub histogram : List ℕ → ℕ → ℕ → List F
  histogram buckets k zero = []
  histogram buckets k (suc n) = add_ones (count_in k buckets) f.zero ∷ histogram buckets (suc k) n

  add_counts-replicate :
      (buckets : List ℕ) (k n : ℕ)
      → add_counts buckets k (replicate n f.zero) ≡ histogram buckets k n
  add_counts-replicate buckets k zero = refl
  add_counts-replicate buckets k (suc n) =
      ap (◌∷◌ (add_ones (count_in k buckets) f.zero)) (add_counts-replicate buckets (suc k) n)

  length-replicate : (n : ℕ) (x : F) → length (replicate n x) ≡ n
  length-replicate zero x = refl
  length-replicate (suc n) x = ap suc (length-replicate n x)

length-histogram :
    (F : Type 0) ⦃f : Float F⦄ (buckets : List ℕ) (k n : ℕ)
    → length (histogram {F = F} buckets k n) ≡ n
length-histogram F buckets k zero = refl
length-histogram F buckets k (suc n) = ap suc (length-histogram F buckets (suc k) n)

module _ {F : Type 0} ⦃f : Float F⦄ where
  -- Numbers over the root of the sum of their squares, where that root is positive.
  abbrev pub scaled : F → List F → List F
  scaled start counts =
      let root = f.sqrt (sum_from start (map (λ x. f.mul x x) counts)) in
      if float_gt root f.zero then map (λ x. f.div x root) counts else counts

  normalised-scaled : (start : F) (v : List F) → normalised start v ≡ scaled start v
  unfolding normalised norm
  normalised-scaled start v = refl

  length-scaled : (start : F) (v : List F) → length (scaled start v) ≡ length v
  length-scaled start v =
      ground (arith, length-map (λ x. f.div x (f.sqrt (sum_from start (map (λ x. f.mul x x) v)))) v)

  -- A new stub of whatever dimension never panics: the passage has a component for each bucket, the
  -- number of the words that hash to it, divided by the root of the sum of the squares of these
  -- numbers where that root is positive, and undivided where it is not.
  pub passage-histogram :
      (to_lowercase : Str → Str) (start : F) (dim : ℕ) (text : Str)
      → let e = new dim in
        let counts =
          histogram {F = F} (buckets_of to_lowercase e.dim (split_whitespace text)) 0 e.dim in
        (passage to_lowercase start e text ≡ returned (scaled start counts))
        × (length (scaled start counts) ≡ max dim 1)
  unfolding passage new
  passage-histogram to_lowercase start dim text =
      let n = max dim 1 in
      let buckets = buckets_of to_lowercase n (split_whitespace text) in
      (
        rw
            (
              passage,
              new,
              bump_all-counts to_lowercase n (split_whitespace text) (replicate n f.zero)
                  (omega arith) (length-replicate n f.zero),
              add_counts-replicate buckets 0 n,
            )
            (ap returned (normalised-scaled start (histogram {F = F} buckets 0 n))),
        length-scaled start (histogram {F = F} buckets 0 n) ∙ length-histogram F buckets 0 n,
      )

count_in-Permᴰ :
    {A : Type 0} (key : A → ℕ) (k : ℕ) (xs ys : List A)
    → Permᴰ xs ys
    → count_in k (map key xs) ≡ count_in k (map key ys)
count_in-Permᴰ key k _ _ Permᴰ.nil = refl
count_in-Permᴰ key k (x ∷ xs) (y ∷ ys) (Permᴰ.cons e p) = rw (e, count_in-Permᴰ key k xs ys p) refl
count_in-Permᴰ key k _ _ (Permᴰ.swap e e') = rw (e, e') (ground arith)
count_in-Permᴰ key k xs zs (Permᴰ.trans {l₂ = ys} p q) =
    count_in-Permᴰ key k xs ys p ∙ count_in-Permᴰ key k ys zs q

buckets_of_lowered :
    (to_lowercase : Str → Str) (n : ℕ) (words : List Str)
    → buckets_of to_lowercase n words ≡ map (bucket (λ s. s) n) (map to_lowercase words)
unfolding bucket
buckets_of_lowered to_lowercase n [] = refl
buckets_of_lowered to_lowercase n (w ∷ words) =
    ap (◌∷◌ (bucket to_lowercase n w)) (buckets_of_lowered to_lowercase n words)

count_in-lowered :
    (to_lowercase : Str → Str) (n k : ℕ) (words words' : List Str)
    → Perm (map to_lowercase words) (map to_lowercase words')
    → count_in k (buckets_of to_lowercase n words) ≡ count_in k (buckets_of to_lowercase n words')
count_in-lowered to_lowercase n k words words' p =
    ap (count_in k) (buckets_of_lowered to_lowercase n words)
    ∙ ∥∥₁_elim p (ℕ_set _ _) (λ d.
      count_in-Permᴰ (bucket (λ s. s) n) k (map to_lowercase words) (map to_lowercase words') d)
    ∙ ap (count_in k) (sym (buckets_of_lowered to_lowercase n words'))

module _ {F : Type 0} ⦃f : Float F⦄ where
  histogram_counts :
      (xs ys : List ℕ) (k n : ℕ)
      → ((j : ℕ) → count_in j xs ≡ count_in j ys)
      → histogram {F = F} xs k n ≡ histogram ys k n
  histogram_counts xs ys k zero same = refl
  histogram_counts xs ys k (suc n) same = rw (same k, histogram_counts xs ys (suc k) n same) refl

  -- Texts whose words, in lower case, are a permutation of each other get the same passage.
  passage-Perm :
      (to_lowercase : Str → Str) (start : F) (dim : ℕ) (text text' : Str)
      → Perm (map to_lowercase (split_whitespace text)) (map to_lowercase (split_whitespace text'))
      → passage to_lowercase start (new dim) text ≡ passage to_lowercase start (new dim) text'
  unfolding new
  passage-Perm to_lowercase start dim text text' p =
      let n = max dim 1 in
      let one = passage-histogram to_lowercase start dim text in
      let two = passage-histogram to_lowercase start dim text' in
      one.0
      ∙ ap (λ v. returned (scaled start v))
          (histogram_counts (buckets_of to_lowercase n (split_whitespace text))
            (buckets_of to_lowercase n (split_whitespace text')) 0 n
            (λ k.
              count_in-lowered to_lowercase n k (split_whitespace text) (split_whitespace text') p))
      ∙ sym two.0
