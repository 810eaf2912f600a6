-- ===== src/Tests/Embeds.antt =====
-- Passages of a stub with four buckets, and the text of an id.
use skeg_rigging.Base.{ℕ, ◌^◌, ◌≡◌, refl, [], ◌∷◌, length, returned}
use skeg_rigging.Ids.{TenantId, tenant_text}
use skeg_rigging.Text.{Str, codes, as_bytes}
use skeg_rigging.Text.Words.{split_whitespace}
use skeg_rigging.StubEmbed.{new, passage, bucket, fnv1a}
use skeg_rigging.StubEmbed.Buckets.{scaled, histogram, buckets_of, passage-histogram}
use skeg_rigging.Tests.Floats.{Float-ℕ}

abbrev same_case : Str → Str
same_case s = s

passage-histogram_example :
    (passage {F = ℕ} same_case 0 (new 4) (codes "a b a")
      ≡ returned
          (scaled 0 (histogram (buckets_of same_case 4 (split_whitespace (codes "a b a"))) 0 4)))
    × (length (
          scaled 0
            (histogram {F = ℕ} (buckets_of same_case 4 (split_whitespace (codes "a b a"))) 0 4))
        ≡ 4)
unfolding new
passage-histogram_example = passage-histogram same_case 0 4 (codes "a b a")

-- The hash of "a" is the published test vector of FNV-1a.
hash_a : bucket same_case (2 ^ 64) (codes "a") ≡ 0xaf63dc4c8601ec8c
unfolding bucket fnv1a as_bytes
hash_a = refl

abbrev id : TenantId
id = record { bytes = 0xab ∷ 1 ∷ 2 ∷ 3 ∷ 4 ∷ 5 ∷ 6 ∷ 7 ∷ 8 ∷ 9 ∷ 10 ∷ 11 ∷ 12 ∷ 13 ∷ 14 ∷ 255 ∷ [] }

id_text : tenant_text id ≡ codes "ab0102030405060708090a0b0c0d0eff"
unfolding tenant_text
id_text = refl
