-- ===== src/Async/Views.antt =====
-- The in-memory tenant (crates/skeg-rigging/src/mock.rs) and the adapter
-- (crates/skeg-rigging-skeg/src/tenant.rs) as read-only views.
use skeg_rigging.Base.{returned, ok}
use skeg_rigging.Float.{Float}
use skeg_rigging.Mock
use skeg_rigging.Mock.{MockTenant}
use skeg_rigging.Mock.Query
use skeg_rigging.Tenant
use skeg_rigging.Tenant.{Tenant}
use skeg_rigging.Tenant.Engine.{Index}
use skeg_rigging.Async.{ReadOnlyView}

abbrev pub mock_view : {F : Type 0} ⦃f : Float F⦄ → ReadOnlyView (MockTenant F) F
mock_view = record {
  iter = record {
    iter_vectors = λ t. returned (Query.iter_vectors t);
    record_count = λ t. returned (Mock.record_count t);
    embedding_dim = λ t. returned t.dim;
  };
  query = record { query_filtered = Query.query_filtered };
  tenant_id = λ t. t.tenant_id;
  close = λ t. ok tt;
}

abbrev pub tenant_view : {I F : Type 0} ⦃e : Index I F⦄ ⦃f : Float F⦄ → ReadOnlyView (Tenant I) F
tenant_view = record {
  iter = record {
    iter_vectors = λ t. returned (Tenant.iter_vectors t);
    record_count = λ t. returned (Tenant.record_count t);
    embedding_dim = λ t. returned t.embedding_dim;
  };
  query = record { query_filtered = λ v k accept t. returned (Tenant.query_filtered v k accept t) };
  tenant_id = λ t. t.tenant_id;
  close = λ t. ok tt;
}
