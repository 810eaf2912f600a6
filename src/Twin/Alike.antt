-- ===== src/Twin/Alike.antt =====
-- When a tenant of the adapter (crates/skeg-rigging-skeg/src/tenant.rs) holds what an in-memory
-- tenant (crates/skeg-rigging/src/mock.rs) holds.
use skeg_rigging.Base.{
  ◌≡◌, ◌≢◌, refl, sym, ap, ◌∙◌, false, some, List, [], ◌∷◌, ok, map, length, length-map, All,
  All-mono, as_u64,
}
use skeg_rigging.Base.Keyed
use skeg_rigging.Base.Keyed.Maps.{All-store_ne}
use skeg_rigging.Quota.{unlimited}
use skeg_rigging.Mock
use skeg_rigging.Mock.{MockRecord, MockTenant, key}
use skeg_rigging.Mock.Query
use skeg_rigging.Tenant
use skeg_rigging.Tenant.{Tenant, entry}
use skeg_rigging.Tenant.Engine.{Index, IndexLaws}
use skeg_rigging.Tenant.Sidecar.{RecordEntry}
use skeg_rigging.Twin.{arguments}

abbrev pub entry_of : {F : Type 0} → MockRecord F → RecordEntry
entry_of r = entry (arguments r)

module _ {I F : Type 0} ⦃e : Index I F⦄ where
  -- The index reads a record's vector.
  abbrev pub Holds : I → MockRecord F → Type 0
  Holds index r = e.get r.record_id index ≡ ok (some r.embedding)

  -- The same records with the same vectors, in one order and with no id twice, and the same
  -- subscribers; no cap on the one side, and leave to write on the other.
  pub record IsAlike (m : MockTenant F) (t : Tenant I) : Type 0 where
    pub dim : m.dim ≡ t.embedding_dim
    pub ids : Keyed.Distinct key m.records
    pub entries : map entry_of m.records ≡ t.sidecar.records
    pub vectors : All (Holds t.index) m.records
    pub senders : m.subscribers ≡ t.subscribers
    pub uncapped : m.quota ≡ unlimited
    pub writable : t.read_only ≡ false

  pub Holds-insert :
      (laws : IndexLaws I F) (rec : MockRecord F) (index index' : I) (records : List (MockRecord F))
      → e.insert rec.record_id rec.embedding index ≡ (ok tt, index')
      → Keyed.Distinct key records
      → All (Holds index) records
      → All (Holds index') (Keyed.store key rec records)
  Holds-insert laws rec index index' records done d h =
      All-store_ne key (Holds index') rec records d
        (laws.get-insert rec.record_id rec.embedding index index' done)
        (All-mono (Holds index) (λ r. key r ≢ key rec → Holds index' r) records
          (λ r held other.
            laws.get-insert_ne rec.record_id r.record_id rec.embedding index index' done
              (λ same. other (sym same))
            ∙ held)
          h)

  vectors_of-Holds :
      (index : I) (records : List (MockRecord F))
      → All (Holds index) records
      → Tenant.vectors_of index (map entry_of records)
        ≡ map (λ r. (r.record_id, r.embedding)) records
  unfolding Tenant.vectors_of
  vectors_of-Holds index [] h = refl
  vectors_of-Holds index (r ∷ records) (held, h) =
      rw held (ap (◌∷◌ (r.record_id, r.embedding)) (vectors_of-Holds index records h))

  -- Two such tenants are read alike.
  pub reads-IsAlike :
      (m : MockTenant F) (t : Tenant I)
      → IsAlike m t
      → (Query.iter_vectors m ≡ Tenant.iter_vectors t)
        × (Mock.record_count m ≡ Tenant.record_count t)
        × (m.dim ≡ t.embedding_dim)
  unfolding Query.iter_vectors Tenant.iter_vectors Mock.record_count Tenant.record_count
  reads-IsAlike m t a = (
    sym (vectors_of-Holds t.index m.records a.vectors) ∙ ap (Tenant.vectors_of t.index) a.entries,
    ap as_u64 (sym (length-map entry_of m.records) ∙ ap length a.entries),
    a.dim,
  )
