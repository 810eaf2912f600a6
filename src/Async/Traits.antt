-- ===== src/Async/Traits.antt =====
-- The traits of crates/skeg-rigging/src/asyncs.rs as records, which `SyncToAsync` fills.
use skeg_rigging.Base.{ℕ, List, Result, Outcome}
use skeg_rigging.Ids.{RecordId, TenantId}
use skeg_rigging.Error.{QueryError, OpenError}
use skeg_rigging.Filter.{Filter, Hit}
use skeg_rigging.Async
use skeg_rigging.Async.{ReadOnlyView, Runtime, SyncToAsync}

pub record AsyncIterVectors (T F : Type 0) : Type 0 where
  pub iter_vectors_async : T → Outcome (List (RecordId × List F))
  pub record_count_async : T → Outcome ℕ
  pub embedding_dim_async : T → Outcome ℕ

pub record AsyncQueryFiltered (T F : Type 0) : Type 0 where
  pub query_filtered_async : List F → ℕ → Filter → T → Outcome (Result QueryError (List (Hit F)))

pub record AsyncReadOnlyView (T F : Type 0) : Type 0 where
  pub iter : AsyncIterVectors T F
  pub query : AsyncQueryFiltered T F
  pub tenant_id_async : T → TenantId
  pub close_async : T → Result OpenError (Unit {0})

-- Any view, behind the bridge.
abbrev pub bridge :
    {J T F : Type 0} → Runtime J → ReadOnlyView T F → AsyncReadOnlyView (SyncToAsync T) F
bridge runtime view = record {
  iter = record {
    iter_vectors_async = Async.iter_vectors_async runtime view;
    record_count_async = Async.record_count_async runtime view;
    embedding_dim_async = Async.embedding_dim_async runtime view;
  };
  query = record { query_filtered_async = Async.query_filtered_async runtime view };
  tenant_id_async = Async.tenant_id_async runtime view;
  close_async = Async.close_async;
}
