-- ===== src/Async/Bridge.antt =====
-- The bridge `SyncToAsync` of crates/skeg-rigging/src/asyncs.rs against the tenant that it wraps.
use skeg_rigging.Base.{ℕ, ◌≡◌, refl, List, Outcome, returned, panicked}
use skeg_rigging.Filter.{Filter}
use skeg_rigging.Async.{
  ReadOnlyView, Runtime, RuntimeLaws, new, expect, iter_vectors_async, record_count_async,
  embedding_dim_async, query_filtered_async, tenant_id_async,
}

pub expect-spawn_blocking :
    {J A : Type 0} (runtime : Runtime J) (laws : RuntimeLaws J runtime) (x : Outcome A)
    → expect (runtime.spawn_blocking x) ≡ x
expect-spawn_blocking runtime laws (returned a) = rw (laws.spawn_blocking-returned a) refl
expect-spawn_blocking {A = A} runtime laws panicked = rw (laws.spawn_blocking-panicked {A = A}) refl

-- On a runtime that joins its tasks, each method of the bridge does what the method of the wrapped
-- tenant does: it returns the same value, or panics where that panics.
bridge-inner :
    {J T F : Type 0} (runtime : Runtime J) (laws : RuntimeLaws J runtime) (view : ReadOnlyView T F)
    (tenant : T) (embedding : List F) (top_k : ℕ) (accept : Filter)
    → (iter_vectors_async runtime view (new tenant) ≡ view.iter.iter_vectors tenant)
      × (record_count_async runtime view (new tenant) ≡ view.iter.record_count tenant)
      × (embedding_dim_async runtime view (new tenant) ≡ view.iter.embedding_dim tenant)
      × (query_filtered_async runtime view embedding top_k accept (new tenant)
          ≡ view.query.query_filtered embedding top_k accept tenant)
      × (tenant_id_async runtime view (new tenant) ≡ view.tenant_id tenant)
unfolding new iter_vectors_async record_count_async embedding_dim_async query_filtered_async
    tenant_id_async
bridge-inner runtime laws view tenant embedding top_k accept = (
  expect-spawn_blocking runtime laws (view.iter.iter_vectors tenant),
  expect-spawn_blocking runtime laws (view.iter.record_count tenant),
  expect-spawn_blocking runtime laws (view.iter.embedding_dim tenant),
  expect-spawn_blocking runtime laws (view.query.query_filtered embedding top_k accept tenant),
  refl,
)
