-- ===== src/Tests/Bridges.antt =====
-- A `MockTenant` behind the bridge, on a runtime whose tasks end at once.
use skeg_rigging.Base.{ℕ, ◌≡◌, refl, [], ◌∷◌, Result, ok, err, Outcome, returned, panicked}
use skeg_rigging.Filter.{Filter}
use skeg_rigging.Async.{Runtime, RuntimeLaws, new, query_filtered_async}
use skeg_rigging.Async.Views.{mock_view}
use skeg_rigging.Tests.Floats.{Float-ℕ}
use skeg_rigging.Mock.Query.{hit, query_filtered, cosine}
use skeg_rigging.Tests.Tenants.{tenant, one}

abbrev joined : {A : Type 0} → Outcome A → Result ℕ A
joined (returned a) = ok a
joined panicked = err 0

abbrev runtime : Runtime ℕ
runtime = record { spawn_blocking = joined }

RuntimeLaws-joined : RuntimeLaws ℕ runtime
RuntimeLaws-joined = record {
  spawn_blocking-returned = λ a. refl;
  panic = 0;
  spawn_blocking-panicked = refl;
}

abbrev shared : Filter
shared meta = meta.shareable

-- A query through the bridge.
nearest_shared :
    query_filtered_async runtime mock_view (3 ∷ 4 ∷ []) 1 shared (new tenant)
    ≡ returned (ok (hit one 0 ∷ []))
unfolding query_filtered_async new query_filtered cosine
nearest_shared = refl
