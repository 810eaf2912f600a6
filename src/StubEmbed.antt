-- ===== src/StubEmbed.antt =====
-- `StubEmbed` of crates/skeg-rigging-ingest/src/embed.rs: words hashed into buckets, and the counts
-- divided by their Euclidean norm. `str::to_lowercase`, with its Unicode tables, and the value from
-- which std sums `f32`s are parameters.
pub mod Buckets
use Prim.Native.Nat.{bit_xor}
use skeg_rigging.Base.{
  ℕ, zero, suc, ◌*◌, ◌%◌, ◌^◌, max, List, [], ◌∷◌, map, Outcome, returned, panicked, if◌then◌else◌,
}
use skeg_rigging.Float.{Float, float_gt}
use skeg_rigging.Text.{Str, as_bytes}
use skeg_rigging.Text.Words.{split_whitespace}

pub record StubEmbed : Type 0 where
  pub dim : ℕ

unfoldable pub new : ℕ → StubEmbed
new dim = record { dim = max dim 1 }

unfoldable pub default_stub : StubEmbed
unfolding new
default_stub = new 64

-- FNV-1a on from `h`.
unfoldable pub fnv1a : ℕ → List ℕ → ℕ
fnv1a h [] = h
fnv1a h (b ∷ bytes) = fnv1a (bit_xor h b * 0x100000001b3 % 2 ^ 64) bytes

unfoldable pub bucket : (Str → Str) → ℕ → Str → ℕ
bucket to_lowercase n word = fnv1a 0xcbf29ce484222325 (as_bytes (to_lowercase word)) % n

abbrev pub then_push : {F : Type 0} → F → Outcome (List F) → Outcome (List F)
then_push x panicked = panicked
then_push x (returned v) = returned (x ∷ v)

module _ {F : Type 0} ⦃f : Float F⦄ where
  abbrev pub replicate : ℕ → F → List F
  replicate zero x = []
  replicate (suc n) x = x ∷ replicate n x

  -- `v[k] += 1.0`, which panics past the end.
  unfoldable pub bump : ℕ → List F → Outcome (List F)
  bump k [] = panicked
  bump zero (x ∷ v) = returned (f.add x f.one ∷ v)
  bump (suc k) (x ∷ v) = then_push x (bump k v)

  -- The loop over the words.
  unfoldable pub bump_all : (Str → Str) → ℕ → List Str → List F → Outcome (List F)
  unfolding bump bucket
  bump_all to_lowercase n [] v = returned v
  bump_all to_lowercase n (word ∷ words) v = elim (bump (bucket to_lowercase n word) v) [
    | panicked ↦ panicked
    | returned v' ↦ bump_all to_lowercase n words v'
  ]

  abbrev pub sum_from : F → List F → F
  sum_from total [] = total
  sum_from total (x ∷ xs) = sum_from (f.add total x) xs

  -- The norm, and the division by it where it is positive.
  unfoldable pub norm : F → List F → F
  norm start v = f.sqrt (sum_from start (map (λ x. f.mul x x) v))

  unfoldable pub normalised : F → List F → List F
  unfolding norm
  normalised start v =
      if float_gt (norm start v) f.zero then map (λ x. f.div x (norm start v)) v else v

  unfoldable pub passage : (Str → Str) → F → StubEmbed → Str → Outcome (List F)
  unfolding bump_all normalised
  passage to_lowercase start e text =
      elim (bump_all to_lowercase e.dim (split_whitespace text) (replicate e.dim f.zero)) [
        | panicked ↦ panicked
        | returned v ↦ returned (normalised start v)
      ]
