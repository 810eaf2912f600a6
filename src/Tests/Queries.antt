-- ===== src/Tests/Queries.antt =====
-- A query of the tenant of `Tenants`, with whole numbers for `f32`.
use mathlib.Core.List.{Perm}
use skeg_rigging.Base.{
  ℕ, ◌≡◌, refl, true, false, List, [], ◌∷◌, ◌++◌, ok, returned, length, All, arith,
}
use skeg_rigging.Base.Sort.{Sorted}
use skeg_rigging.Filter.{Filter, Hit}
use skeg_rigging.Mock.Query.{cosine, after, hit, iter_vectors, query_filtered}
use skeg_rigging.Mock.Hits.{all_hits, query_filtered-top_k}
use skeg_rigging.Iter.{IsIterated, IsYielded}
use skeg_rigging.Mock.{record_count}
use skeg_rigging.Mock.Yielded.{IsOf, query_filtered-IsYielded}
use skeg_rigging.Tests.Floats.{Float-ℕ, FloatLaws-ℕ}
use skeg_rigging.Tests.Tenants.{two_channels, one, tenant}
use skeg_rigging.Tests.MockRuns.{tenant-IsValid}

abbrev anything : Filter
anything _ = true

query_filtered-top_k_example :
    (hits : List (Hit ℕ)) × (others : List (Hit ℕ)) × (query_filtered (6 ∷ 8 ∷ []) 1 anything tenant
      ≡ returned (ok hits))
    × Perm (hits ++ others) (all_hits (6 ∷ 8 ∷ []) anything tenant.records)
    × (length hits ≡ 1)
    × Sorted after hits
    × All (λ h. All (λ other. after h other ≡ false) others) hits
unfolding cosine
query_filtered-top_k_example =
    query_filtered-top_k FloatLaws-ℕ (6 ∷ 8 ∷ []) 1 anything tenant two_channels tenant-IsValid refl
      (omega arith) (omega arith, (omega arith, tt)) (refl, (refl, tt))

nearest : query_filtered (6 ∷ 8 ∷ []) 1 anything tenant ≡ returned (ok (hit one 0 ∷ []))
unfolding query_filtered cosine
nearest = refl

query_filtered-IsYielded_example :
    IsIterated (iter_vectors tenant) (record_count tenant) 2
    × All (IsYielded (iter_vectors tenant)) (hit one 0 ∷ [])
    × All (IsOf anything tenant.records) (hit one 0 ∷ [])
query_filtered-IsYielded_example =
    query_filtered-IsYielded (6 ∷ 8 ∷ []) 1 anything tenant two_channels (hit one 0 ∷ [])
      tenant-IsValid nearest
