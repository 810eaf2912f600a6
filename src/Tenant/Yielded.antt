-- ===== src/Tenant/Yielded.antt =====
-- `query_filtered` of crates/skeg-rigging-skeg/src/tenant.rs against its `iter_vectors`.
use skeg_rigging.Base.{
  ℕ, ◌≡◌, sym, ap, ◌∙◌, some, List, [], ◌∷◌, ok, All, All-mono, arith, ◌==◌, ==_iff, Bool-cases,
  inl, inr,
}
use skeg_rigging.Base.Keyed
use skeg_rigging.Ids.{RecordId}
use skeg_rigging.Iter.{pair_id, IsIterated, IsYielded}
use skeg_rigging.Filter.{Filter, Hit}
use skeg_rigging.Tenant.{Tenant, iter_vectors, vectors_of, record_count, query_filtered, or_none}
use skeg_rigging.Tenant.Engine.{Index}
use skeg_rigging.Tenant.Sidecar.{RecordEntry, entry_key, get}
use skeg_rigging.Tenant.Complete.{HasVector, IsComplete, iter_vectors-ids}
use skeg_rigging.Tenant.Hits.{IsBacked, query_filtered-IsBacked}

module _ {I : Type 0} (F : Type 0) ⦃e : Index I F⦄ where
  lookup_vector :
      (dim : ℕ) (index : I) (records : List RecordEntry) (id : RecordId) (rec : RecordEntry)
      → All (HasVector F dim index) records
      → Keyed.lookup entry_key id records ≡ some rec
      → (v : List F) × (e.get id index ≡ ok (some v))
        × (Keyed.lookup pair_id id (vectors_of index records) ≡ some (id, v))
  unfolding vectors_of
  lookup_vector dim index [] id rec h found = absurd (cc)
  lookup_vector dim index (r ∷ records) id rec ((v, stored, fits), h) found =
      elim (Bool-cases (r.record_id == id)) [
        | inl same ↦
            let here : r.record_id ≡ id = (==_iff r.record_id id).0 same in
            (
              v,
              ap (λ j. e.get j index) (sym here) ∙ stored,
              rw (stored, same) (ap (λ j. some (j, v)) here),
            )
        | inr other ↦
            let (w, got, yielded) =
              lookup_vector dim index records id rec h (ground (arith, other, found)) in
            (w, got, rw (stored, other) yielded)
      ]

  hit-IsYielded :
      (accept : Filter) (t : Tenant I)
      → IsComplete F t
      → (h : Hit F) → IsBacked accept t h
      → IsYielded (iter_vectors t) h
  unfolding iter_vectors get
  hit-IsYielded accept t c h (rec, found, accepted, payload, vector) =
      let (v, got, yielded) =
        lookup_vector t.embedding_dim t.index t.sidecar.records h.record_id rec c.vectors found in
      (v, yielded, vector ∙ ap or_none got)

  -- Where the ids of the sidecar are distinct and every record has a vector of the tenant's
  -- dimension in the index: the iteration yields one vector for each record that is counted, with no
  -- id twice and all of that dimension; and every hit of a query is of a record that the iteration
  -- yields, with the vector that it yields.
  pub query_filtered-iter_vectors :
      (embedding : List F) (top_k : ℕ) (accept : Filter) (t : Tenant I) (hits : List (Hit F))
      → IsComplete F t
      → query_filtered embedding top_k accept t ≡ ok hits
      → IsIterated {F = F} (iter_vectors t) (record_count t) t.embedding_dim
        × All (IsYielded (iter_vectors t)) hits
  query_filtered-iter_vectors embedding top_k accept t hits c h = (
    (iter_vectors-ids F t c).1,
    All-mono (IsBacked accept t) (IsYielded (iter_vectors t)) hits (hit-IsYielded accept t c)
        (query_filtered-IsBacked embedding top_k accept t hits h).0,
  )
