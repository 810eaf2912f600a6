-- ===== src/Tenant.antt =====
-- crates/skeg-rigging-skeg/src/tenant.rs: `Tenant`, over an index of vectors and the sidecar. A
-- method takes and returns the tenant and the store of channels; a locked mutex is a field.
pub mod Sidecar
pub mod Engine
pub mod Writes
pub mod Hits
pub mod Complete
pub mod Yielded
pub mod Lifecycle
pub mod Reopen
pub mod Stored
pub mod Restore
pub mod Destroyed
pub mod Opened
pub mod Writer
pub mod Flushed
pub mod Ingested
pub mod Managed
pub mod Threads
pub mod Heard
pub mod Locks
pub mod Interleaved
pub mod Steps
pub mod Durable
pub mod Recovered
use skeg_rigging.Base.{
  ℕ, ◌+◌, ◌*◌, max, Bool, true, false, not, Option, none, some, List, [], ◌∷◌, ◌++◌, Result, ok,
  err, length, map, leb, ◌==◌, as_u32, as_u64, if◌then◌else◌,
}
use skeg_rigging.Base.Keyed
use skeg_rigging.Ids.{RecordId, TenantId}
use skeg_rigging.Text.Paths.{FilePath}
use skeg_rigging.Error
use skeg_rigging.Error.{
  ErrorKind, IoError, TenantError, QueryError, dim_mismatch, embedding_dim_mismatch,
}
use skeg_rigging.Event.{Event, EventFilter, record_inserted, record_deleted}
use skeg_rigging.Event.Channel.{Channels, open_channel, broadcast}
use skeg_rigging.Event.Stream.{EventStream}
use skeg_rigging.Filter.{RecordMeta, Filter, Hit}
use skeg_rigging.Write.{NewRecord}
use skeg_rigging.Tenant.Engine.{Index}
use skeg_rigging.Tenant.Sidecar.{RecordEntry, MetadataSidecar, entry_key}

pub record Tenant (I : Type 0) : Type 0 where
  pub index : I
  pub sidecar : MetadataSidecar
  pub tenant_id : TenantId
  pub embedding_dim : ℕ
  pub dir : FilePath
  pub subscribers : List ℕ
  pub read_only : Bool

abbrev pub denied : TenantError
denied = TenantError.io (record { kind = ErrorKind.permission_denied })

abbrev pub with_records : {I : Type 0} → List RecordEntry → Tenant I → Tenant I
with_records records t = record t { sidecar = record t.sidecar { records = records } }

module _ {I : Type 0} where
  unfoldable pub emit : Event → Tenant I → Channels → Tenant I × Channels
  emit event t cs =
      let (kept, cs') = broadcast event t.subscribers cs in (record t { subscribers = kept }, cs')

  unfoldable pub subscribe : EventFilter → Tenant I → Channels → EventStream × Tenant I × Channels
  subscribe filter t cs = (
    record { rx = cs.next; filter = filter },
    record t { subscribers = t.subscribers ++ cs.next ∷ [] },
    open_channel cs,
  )

  unfoldable pub record_count : Tenant I → ℕ
  record_count t = as_u64 (length t.sidecar.records)

  abbrev pub announce : Bool → RecordId → Tenant I → Channels → Tenant I × Channels
  announce true id t cs = emit (record_deleted id) t cs
  announce false id t cs = (t, cs)

  -- The index is not told: only the sidecar forgets the record.
  unfoldable pub delete :
      RecordId → Tenant I → Channels → Result TenantError Bool × Tenant I × Channels
  delete id t cs =
      let kept = Keyed.remove entry_key id t.sidecar.records in
      let removed = not (length kept == length t.sidecar.records) in
      let (t', cs') = announce removed id (with_records kept t) cs in
      if t.read_only then (err denied, t, cs) else (ok removed, t', cs')

abbrev pub entry : {F : Type 0} → NewRecord F → RecordEntry
entry rec = record {
  record_id = rec.record_id;
  shareable = rec.shareable;
  tags = rec.tags;
  payload = rec.payload;
}

-- `.ok().flatten()`
abbrev pub or_none : {F : Type 0} → Result IoError (Option (List F)) → Option (List F)
or_none (ok v) = v
or_none (err _) = none

-- A missing vector and an I/O error are both skipped.
abbrev push_vector :
    {F : Type 0} → RecordId → Option (List F) → List (RecordId × List F) → List (RecordId × List F)
push_vector id (some v) rest = (id, v) ∷ rest
push_vector id none rest = rest

abbrev pub meta : ℕ → RecordEntry → RecordMeta
meta id rec = record { record_id = id; shareable = rec.shareable; tags = rec.tags }

unfoldable pub oversample : ℕ → ℕ
oversample top_k = max (as_u64 (top_k * 4)) 64

-- `inner.index.consolidate()?`
abbrev io_result : Result IoError (Unit {0}) → Result TenantError (Unit {0})
io_result (ok _) = ok tt
io_result (err x) = err (TenantError.io x)

unfoldable pub consolidate :
    {I : Type 0} (F : Type 0) ⦃e : Index I F⦄ → Tenant I → Result TenantError (Unit {0}) × Tenant I
consolidate F ⦃e = e⦄ t =
    let (done, index) = e.consolidate t.index in
    if t.read_only then (ok tt, t) else (io_result done, record t { index = index })

module _ {I F : Type 0} ⦃e : Index I F⦄ where
  -- What follows the insertion into the index, on the tenant that has the new index.
  unfoldable pub store_entry :
      Result IoError (Unit {0})
      → NewRecord F
      → Tenant I
      → Channels
      → Result TenantError (Unit {0}) × Tenant I × Channels
  store_entry (err x) rec t cs = (err (TenantError.io x), t, cs)
  store_entry (ok _) rec t cs =
      let t' = with_records (Keyed.store entry_key (entry rec) t.sidecar.records) t in
      let (t'', cs') = emit (record_inserted rec.record_id rec.shareable) t' cs in (ok tt, t'', cs')

  unfoldable pub insert :
      NewRecord F → Tenant I → Channels → Result TenantError (Unit {0}) × Tenant I × Channels
  unfolding store_entry
  insert rec t cs =
      let requested = as_u32 (length rec.embedding) in
      let (done, index) = e.insert rec.record_id rec.embedding t.index in
      if t.read_only
      then (err denied, t, cs)
      else if requested == t.embedding_dim
      then store_entry done rec (record t { index = index }) cs
      else (err (dim_mismatch t.embedding_dim requested), t, cs)

  unfoldable pub vectors_of : I → List RecordEntry → List (RecordId × List F)
  vectors_of index [] = []
  vectors_of index (rec ∷ records) =
      push_vector rec.record_id (or_none (e.get rec.record_id index)) (vectors_of index records)

  unfoldable pub iter_vectors : Tenant I → List (RecordId × List F)
  unfolding vectors_of
  iter_vectors t = vectors_of t.index t.sidecar.records

  abbrev pub hit : I → ℕ → F → RecordEntry → Hit F
  hit index id sim rec = record {
    record_id = id;
    similarity = sim;
    payload = rec.payload;
    embedding = or_none (e.get id index);
  }

  -- The loop over what the search gave, with `out.len()`.
  pub take_hits : Filter → ℕ → Tenant I → ℕ → List (ℕ × F) → List (Hit F)
  take_hits accept top_k t n [] = []
  take_hits accept top_k t n ((id, sim) ∷ raw) =
      elim (Keyed.lookup entry_key id t.sidecar.records) [
        | none ↦ take_hits accept top_k t n raw
        | some rec ↦ elim (accept (meta id rec)) [
          | false ↦ take_hits accept top_k t n raw
          | true ↦ hit t.index id sim rec ∷ elim (leb top_k (n + 1)) [
            | true ↦ []
            | false ↦ take_hits accept top_k t (n + 1) raw
          ]
        ]
      ]

  abbrev pub hits_result :
      Filter → ℕ → Tenant I → Result IoError (List (ℕ × F)) → Result QueryError (List (Hit F))
  hits_result accept top_k t (err x) = err (QueryError.io x)
  hits_result accept top_k t (ok raw) = ok (take_hits accept top_k t 0 raw)

  unfoldable pub query_filtered : List F → ℕ → Filter → Tenant I → Result QueryError (List (Hit F))
  unfolding take_hits oversample
  query_filtered embedding top_k accept t =
      if as_u32 (length embedding) == t.embedding_dim
      then hits_result accept top_k t (e.search embedding (oversample top_k) t.index)
      else err (embedding_dim_mismatch t.embedding_dim (as_u32 (length embedding)))
