-- ===== src/Tenant/Writes.antt =====
-- What `insert`, `delete` and `consolidate` of crates/skeg-rigging-skeg/src/tenant.rs do to the
-- records, the vectors and the channels.
use skeg_rigging.Base.{◌≡◌, Bool, true, none, some, ok, err, arith, ◌==◌, ==_iff, if◌then◌else◌}
use skeg_rigging.Base.Keyed
use skeg_rigging.Ids.{RecordId}
use skeg_rigging.Error.{TenantError}
use skeg_rigging.Event.Channel.{Channels}
use skeg_rigging.Write.{NewRecord}
use skeg_rigging.Tenant.{Tenant, entry, insert, delete, emit, consolidate, denied}
use skeg_rigging.Tenant.Engine.{Index, IndexLaws}
use skeg_rigging.Tenant.Sidecar.{entry_key, get}

module _ {I F : Type 0} ⦃e : Index I F⦄ where
  -- Where the index reads back what was inserted, a write that is accepted puts the record's
  -- metadata under its id and its vector into the index, and leaves the metadata and the vector of
  -- every other id as they were.
  pub insert-get :
      (laws : IndexLaws I F) (rec : NewRecord F) (t t' : Tenant I) (cs cs' : Channels)
      (id : RecordId)
      → insert rec t cs ≡ (ok tt, t', cs')
      → (get id t'.sidecar ≡ (if rec.record_id == id then some (entry rec) else get id t.sidecar))
        × (e.get id t'.index
            ≡ (if rec.record_id == id then ok (some rec.embedding) else e.get id t.index))
        × (t'.embedding_dim ≡ t.embedding_dim)
  unfolding insert emit get
  insert-get laws rec t t' cs cs' id h = ground (
    arith,
    Keyed.lookup-store entry_key (entry rec) t.sidecar.records id,
    ==_iff rec.record_id id,
    laws.get-insert rec.record_id rec.embedding t.index t'.index,
    laws.get-insert_ne rec.record_id id rec.embedding t.index t'.index,
  )

  -- A write that fails announces nothing and leaves the sidecar and the subscribers alone.
  insert-err_sidecar :
      (rec : NewRecord F) (t t' : Tenant I) (cs cs' : Channels) (x : TenantError)
      → insert rec t cs ≡ (err x, t', cs')
      → (t'.sidecar ≡ t.sidecar) × (t'.subscribers ≡ t.subscribers) × (cs' ≡ cs)
  unfolding insert emit
  insert-err_sidecar rec t t' cs cs' x h = ground arith

  -- A tenant that is open for reading only changes in no write.
  writes-read_only :
      (rec : NewRecord F) (id : RecordId) (t : Tenant I) (cs : Channels)
      → t.read_only ≡ true
      → (insert rec t cs ≡ (err denied, t, cs))
        × (delete id t cs ≡ (err denied, t, cs))
        × (consolidate F t ≡ (ok tt, t))
  unfolding insert delete consolidate
  writes-read_only rec id t cs h = ground arith

module _ {I : Type 0} where
  -- With no id twice, `delete` answers whether the id was there, and removes that record's
  -- metadata and no other; the index keeps the vector.
  pub delete-get :
      (id j : RecordId) (t t' : Tenant I) (cs cs' : Channels) (removed : Bool)
      → Keyed.Distinct entry_key t.sidecar.records
      → delete id t cs ≡ (ok removed, t', cs')
      → (removed ≡ Keyed.contains entry_key id t.sidecar.records)
        × (get j t'.sidecar ≡ (if id == j then none else get j t.sidecar))
        × (t'.index ≡ t.index)
  unfolding delete emit get
  delete-get id j t t' cs cs' removed d h = ground (
    arith,
    Keyed.lookup-remove entry_key id j t.sidecar.records,
    Keyed.length-remove entry_key id t.sidecar.records d,
  )
