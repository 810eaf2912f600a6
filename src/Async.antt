-- ===== src/Async.antt =====
-- The read side as traits, IterVectors, QueryFiltered and ReadOnlyView of crates/skeg-rigging/src,
-- and the bridge `SyncToAsync` of its asyncs.rs, which runs a call on another thread. Awaiting is
-- written as the call: no method here shares state with what runs in between.
pub mod Bridge
pub mod Views
pub mod Traits
use skeg_rigging.Base.{ℕ, ◌≡◌, List, Result, ok, err, Outcome, returned, panicked}
use skeg_rigging.Ids.{RecordId, TenantId}
use skeg_rigging.Error
use skeg_rigging.Error.{QueryError, OpenError}
use skeg_rigging.Iter.{IterVectors}
use skeg_rigging.Filter.{Filter, Hit, QueryFiltered}
use skeg_rigging.Text.Paths.{FilePath}

-- A tenant that is read: its own methods, and those of the traits that it builds on.
pub record ReadOnlyView (T F : Type 0) : Type 0 where
  pub iter : IterVectors T F
  pub query : QueryFiltered T F
  pub tenant_id : T → TenantId
  pub close : T → Result OpenError (Unit {0})

-- `open_readonly`, of which this crate has a placeholder only.
unfoldable pub open_readonly : {V : Type 0} → FilePath → Result OpenError V
open_readonly path = err OpenError.not_found

unfoldable pub open_readonly_async : {V : Type 0} → FilePath → Result OpenError V
open_readonly_async path = err OpenError.not_found

-- `tokio::task::spawn_blocking(f).await`, as a parameter: what `f` returned, or a `JoinError`.
pub record Runtime (J : Type 0) : Type 1 where
  pub spawn_blocking : {A : Type 0} → Outcome A → Result J A

-- A task that returns is joined with its value, and one that panics with an error.
pub record RuntimeLaws (J : Type 0) (runtime : Runtime J) : Type 1 where
  pub spawn_blocking-returned : {A : Type 0} (a : A) → runtime.spawn_blocking (returned a) ≡ ok a
  pub panic : J
  pub spawn_blocking-panicked : {A : Type 0} → runtime.spawn_blocking {A = A} panicked ≡ err panic

abbrev pub expect : {J A : Type 0} → Result J A → Outcome A
expect (err e) = panicked
expect (ok a) = returned a

-- An `Arc` is the value that it shares.
pub record SyncToAsync (T : Type 0) : Type 0 where
  pub inner : T

unfoldable pub new : {T : Type 0} → T → SyncToAsync T
new inner = record { inner = inner }

unfoldable pub from_arc : {T : Type 0} → T → SyncToAsync T
from_arc inner = record { inner = inner }

unfoldable pub close_async : {T : Type 0} → SyncToAsync T → Result OpenError (Unit {0})
close_async a = ok tt

module _ {J T F : Type 0} (runtime : Runtime J) (view : ReadOnlyView T F) where
  unfoldable pub iter_vectors_async : SyncToAsync T → Outcome (List (RecordId × List F))
  iter_vectors_async a = expect (runtime.spawn_blocking (view.iter.iter_vectors a.inner))

  unfoldable pub record_count_async : SyncToAsync T → Outcome ℕ
  record_count_async a = expect (runtime.spawn_blocking (view.iter.record_count a.inner))

  unfoldable pub embedding_dim_async : SyncToAsync T → Outcome ℕ
  embedding_dim_async a = expect (runtime.spawn_blocking (view.iter.embedding_dim a.inner))

  unfoldable pub query_filtered_async :
      List F → ℕ → Filter → SyncToAsync T → Outcome (Result QueryError (List (Hit F)))
  query_filtered_async embedding top_k accept a =
      expect (runtime.spawn_blocking (view.query.query_filtered embedding top_k accept a.inner))

  unfoldable pub tenant_id_async : SyncToAsync T → TenantId
  tenant_id_async a = view.tenant_id a.inner
