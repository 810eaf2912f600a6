-- ===== src/Tenant/Complete.antt =====
-- The vectors that `iter_vectors` of crates/skeg-rigging-skeg/src/tenant.rs finds for the records
-- of the sidecar.
use mathlib.Core.Path.{subst}
use skeg_rigging.Base.{
  ℕ, ◌≡◌, refl, sym, ap, ◌∙◌, Bool, some, List, [], ◌∷◌, ok, map, All, All-filter, arith, not, ◌==◌,
  ==_iff, Bool-cases, inl, inr, length, length-map, as_u32, as_u64,
}
use skeg_rigging.Base.Keyed
use skeg_rigging.Base.Keyed.Maps.{Distinct-alike}
use skeg_rigging.Ids.{RecordId}
use skeg_rigging.Iter.{IsVector, pair_id, IsIterated}
use skeg_rigging.Event.Channel.{Channels}
use skeg_rigging.Write.{NewRecord}
use skeg_rigging.Tenant.{
  Tenant, entry, insert, delete, emit, record_count, iter_vectors, vectors_of,
}
use skeg_rigging.Tenant.Engine.{Index, IndexLaws}
use skeg_rigging.Tenant.Sidecar.{RecordEntry, entry_key}

delete-inv :
    {I : Type 0} (id : RecordId) (t t' : Tenant I) (cs cs' : Channels) (removed : Bool)
    → delete id t cs ≡ (ok removed, t', cs')
    → (t'.index ≡ t.index)
      × (t'.sidecar.records ≡ Keyed.remove entry_key id t.sidecar.records)
      × (t'.embedding_dim ≡ t.embedding_dim)
unfolding delete emit
delete-inv id t t' cs cs' removed h = ground arith

module _ {I : Type 0} (F : Type 0) ⦃e : Index I F⦄ where
  abbrev pub HasVector : ℕ → I → RecordEntry → Type 0
  HasVector dim index r =
      (v : List F) × (e.get r.record_id index ≡ ok (some v)) × (as_u32 (length v) ≡ dim)

  -- No id twice in the sidecar, and a vector of the tenant's dimension in the index for every
  -- record.
  pub record IsComplete (t : Tenant I) : Type 0 where
    pub ids : Keyed.Distinct entry_key t.sidecar.records
    pub vectors : All (HasVector t.embedding_dim t.index) t.sidecar.records

  HasVector-insert :
      (laws : IndexLaws I F) (id : ℕ) (v : List F) (dim : ℕ) (index index' : I) (r : RecordEntry)
      → e.insert id v index ≡ (ok tt, index')
      → as_u32 (length v) ≡ dim
      → HasVector dim index r
      → HasVector dim index' r
  HasVector-insert laws id v dim index index' r done fits (old, found, fitted) =
      elim (Bool-cases (id == r.record_id)) [
        | inl same ↦ (
          v,
          ap (λ j. e.get j index') (sym ((==_iff id r.record_id).0 same))
              ∙ laws.get-insert id v index index' done,
          fits,
        )
        | inr other ↦ (
          old,
          laws.get-insert_ne id r.record_id v index index' done
                (ground (arith, ==_iff id r.record_id))
              ∙ found,
          fitted,
        )
      ]

  All-HasVector :
      (laws : IndexLaws I F) (id : ℕ) (v : List F) (dim : ℕ) (index index' : I)
      (records : List RecordEntry)
      → e.insert id v index ≡ (ok tt, index')
      → as_u32 (length v) ≡ dim
      → All (HasVector dim index) records
      → All (HasVector dim index') records
  All-HasVector laws id v dim index index' [] done fits h = tt
  All-HasVector laws id v dim index index' (r ∷ records) done fits h = (
    HasVector-insert laws id v dim index index' r done fits h.0,
    All-HasVector laws id v dim index index' records done fits h.1,
  )

  pub insert-inv :
      (rec : NewRecord F) (t t' : Tenant I) (cs cs' : Channels)
      → insert rec t cs ≡ (ok tt, t', cs')
      → (e.insert rec.record_id rec.embedding t.index ≡ (ok tt, t'.index))
        × (t'.sidecar.records ≡ Keyed.store entry_key (entry rec) t.sidecar.records)
        × (as_u32 (length rec.embedding) ≡ t.embedding_dim)
        × (t'.embedding_dim ≡ t.embedding_dim)
  unfolding insert emit
  insert-inv rec t t' cs cs' h =
      ground (arith, ==_iff (as_u32 (length rec.embedding)) t.embedding_dim)

  -- Where the index reads back what was inserted, an accepted write keeps the sidecar's ids
  -- distinct and every record with a vector of the tenant's dimension.
  pub insert-IsComplete :
      (laws : IndexLaws I F) (rec : NewRecord F) (t t' : Tenant I) (cs cs' : Channels)
      → IsComplete t
      → insert rec t cs ≡ (ok tt, t', cs')
      → IsComplete t'
  insert-IsComplete laws rec t t' cs cs' c h =
      let (done, stored, fits, dim) = insert-inv rec t t' cs cs' h in
      let Vector : RecordEntry → Type 0 = HasVector t.embedding_dim t'.index in
      record {
        ids =
            subst (Keyed.Distinct entry_key) (sym stored)
              (Keyed.Distinct-store entry_key (entry rec) t.sidecar.records c.ids);
        vectors =
            rw (stored, dim)
              (Keyed.All-store entry_key Vector (entry rec) t.sidecar.records
                (
                  rec.embedding,
                  laws.get-insert rec.record_id rec.embedding t.index t'.index done,
                  fits,
                )
                (All-HasVector laws rec.record_id rec.embedding t.embedding_dim t.index t'.index
                  t.sidecar.records done fits c.vectors));
      }

  -- A delete keeps the sidecar's ids distinct and every record with a vector.
  pub delete-IsComplete :
      (id : RecordId) (t t' : Tenant I) (cs cs' : Channels) (removed : Bool)
      → IsComplete t
      → delete id t cs ≡ (ok removed, t', cs')
      → IsComplete t'
  delete-IsComplete id t t' cs cs' removed c h =
      let (same, kept, dim) = delete-inv id t t' cs cs' removed h in
      record {
        ids =
            subst (Keyed.Distinct entry_key) (sym kept)
              (Keyed.Distinct-remove entry_key id t.sidecar.records c.ids);
        vectors =
            rw (kept, same, dim)
              (All-filter _ (λ (r : RecordEntry). not (r.record_id == id)) t.sidecar.records
                c.vectors);
      }

  vectors_of-ids :
      (dim : ℕ) (index : I) (records : List RecordEntry)
      → All (HasVector dim index) records
      → (map (pair_id {F = F}) (vectors_of index records) ≡ map entry_key records)
        × All (IsVector {F = F} dim) (vectors_of index records)
  unfolding vectors_of
  vectors_of-ids dim index [] h = (refl, tt)
  vectors_of-ids dim index (r ∷ records) ((v, found, fits), h) =
      let (ids, rest) = vectors_of-ids dim index records h in
      rw found (ap (◌∷◌ r.record_id) ids, (fits, rest))

  -- In such a tenant, the iteration yields one vector for each record of the sidecar, in its order,
  -- with no id twice and as many as are counted, and each is of the tenant's dimension.
  pub iter_vectors-ids :
      (t : Tenant I)
      → IsComplete t
      → (map (pair_id {F = F}) (iter_vectors t) ≡ map entry_key t.sidecar.records)
        × IsIterated {F = F} (iter_vectors t) (record_count t) t.embedding_dim
  unfolding iter_vectors record_count
  iter_vectors-ids t c =
      let (same, dims) = vectors_of-ids t.embedding_dim t.index t.sidecar.records c.vectors in
      (
        same,
        record {
          ids =
              Distinct-alike entry_key pair_id t.sidecar.records
                (vectors_of t.index t.sidecar.records) (sym same) c.ids;
          counted = ap as_u64 (
              sym (length-map entry_key t.sidecar.records)
              ∙ ap length (sym same)
              ∙ length-map pair_id (vectors_of t.index t.sidecar.records));
          dims = dims;
        },
      )
