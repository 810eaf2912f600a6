-- ===== src/Mock/Yielded.antt =====
-- `query_filtered` of crates/skeg-rigging/src/mock.rs against its `iter_vectors`.
use mathlib.Core.Path.{subst}
use skeg_rigging.Error.{QueryError}
use skeg_rigging.Base.{
  take, Result, ℕ, ◌≡◌, refl, sym, ap, true, false, some, List, [], ◌∷◌, ok, Outcome, returned,
  panicked, All, All-mono, All-take, arith, ==_iff, Bool-cases, inl, inr, length-map, map, as_u64,
}
use skeg_rigging.Base.Keyed
use skeg_rigging.Base.Keyed.Maps.{Distinct-alike}
use skeg_rigging.Base.Sort.{sort, All-sort}
use skeg_rigging.Ids.{RecordId}
use skeg_rigging.Iter.{pair_id, IsVector, IsIterated, IsYielded}
use skeg_rigging.Event.Channel.{Channels}
use skeg_rigging.Filter.{Filter, Hit}
use skeg_rigging.Float.{Float}
use skeg_rigging.Mock.{MockRecord, MockTenant, key, record_count}
use skeg_rigging.Mock.Query.{
  iter_vectors, hit, cosine, prepend, map_outcome, candidates, after, query_filtered, meta,
}
use skeg_rigging.Mock.Valid.{IsValid, Fits}

module _ {F : Type 0} where
  abbrev pair : MockRecord F → RecordId × List F
  pair r = (r.record_id, r.embedding)

  pairs_alike : (records : List (MockRecord F)) → map key records ≡ map pair_id (map pair records)
  pairs_alike [] = refl
  pairs_alike (r ∷ records) = ap (◌∷◌ r.record_id) (pairs_alike records)

  pairs_dims :
      (dim : ℕ) (records : List (MockRecord F))
      → All (Fits dim) records
      → All (IsVector dim) (map pair records)
  pairs_dims dim [] h = tt
  pairs_dims dim (r ∷ records) h = (h.0, pairs_dims dim records h.1)

  iter_vectors-IsIterated :
      (t : MockTenant F) (cs : Channels)
      → IsValid t cs
      → IsIterated (iter_vectors t) (record_count t) t.dim
  unfolding iter_vectors record_count
  iter_vectors-IsIterated t cs v = record {
    ids = Distinct-alike key pair_id t.records (map pair t.records) (pairs_alike t.records) v.ids;
    counted = ap as_u64 (sym (length-map pair t.records));
    dims = pairs_dims t.dim t.records v.dims;
  }

  -- What a hit says of its record: the tenant has it, the filter accepts it, and payload and vector
  -- are its own.
  abbrev pub IsOf : Filter → List (MockRecord F) → Hit F → Type 0
  IsOf accept records h =
      (r : MockRecord F) × (Keyed.lookup key h.record_id records ≡ some r)
      × (accept (meta r) ≡ true)
      × (h.payload ≡ r.payload)
      × (h.embedding ≡ some r.embedding)

  IsOf-behind :
      (accept : Filter) (x : MockRecord F) (records : List (MockRecord F))
      → Keyed.contains key (key x) records ≡ false
      → (h : Hit F) → IsOf accept records h
      → IsOf accept (x ∷ records) h
  IsOf-behind accept x records fresh h (r, found, accepted, payload, vector) =
      (r, Keyed.lookup_behind key x r records h.record_id fresh found, accepted, payload, vector)

  lookup-pair :
      (records : List (MockRecord F)) (id : RecordId) (r : MockRecord F)
      → Keyed.lookup key id records ≡ some r
      → Keyed.lookup pair_id id (map pair records) ≡ some (id, r.embedding)
  lookup-pair [] id r found = absurd (cc)
  lookup-pair (x ∷ records) id r found =
      ground (arith, lookup-pair records id r, ==_iff x.record_id id)

  IsOf-IsYielded :
      (accept : Filter) (records : List (MockRecord F)) (h : Hit F)
      → IsOf accept records h
      → IsYielded (map pair records) h
  IsOf-IsYielded accept records h (r, found, accepted, payload, vector) =
      (r.embedding, lookup-pair records h.record_id r found, vector)

-- A collection that returns did not panic at its first element.
prepend-inv :
    {A : Type 0} (first : Outcome A) (rest : Outcome (List A)) (xs : List A)
    → prepend first rest ≡ returned xs
    → (x : A) × (ys : List A) × (first ≡ returned x) × (rest ≡ returned ys) × (x ∷ ys ≡ xs)
prepend-inv (returned x) (returned ys) xs h = (x, ys, refl, refl, cc)
prepend-inv (returned x) panicked xs h = absurd (cc)
prepend-inv panicked rest xs h = absurd (cc)

map_outcome-inv :
    {A B : Type 0} (g : A → B) (o : Outcome A) (y : B)
    → map_outcome g o ≡ returned y
    → (x : A) × (o ≡ returned x) × (g x ≡ y)
map_outcome-inv g (returned x) y h = (x, refl, cc)
map_outcome-inv g panicked y h = absurd (cc)

module _ {F : Type 0} ⦃f : Float F⦄ where
  candidates-IsOf :
      (embedding : List F) (accept : Filter) (records : List (MockRecord F)) (hits : List (Hit F))
      → Keyed.Distinct key records
      → candidates embedding accept records ≡ returned hits
      → All (IsOf accept records) hits
  unfolding candidates
  candidates-IsOf embedding accept [] hits d h =
      let nothing_found : [] ≡ hits = cc in subst (All (IsOf accept [])) nothing_found tt
  candidates-IsOf embedding accept (r ∷ records) hits d h =
      let behind = λ (hs : List (Hit F)) (rest : candidates embedding accept records ≡ returned hs).
        All-mono (IsOf accept records) (IsOf accept (r ∷ records)) hs
          (IsOf-behind accept r records d.0)
          (candidates-IsOf embedding accept records hs d.1 rest) in
      elim (Bool-cases (accept (meta r))) [
        | inl taken ↦
            let pushed : prepend (map_outcome (hit r) (cosine embedding r.embedding))
                  (candidates embedding accept records)
                ≡ returned hits =
              ground (arith, taken, h) in
            let (x, ys, first, rest, whole) =
              prepend-inv (map_outcome (hit r) (cosine embedding r.embedding))
                (candidates embedding accept records) hits pushed in
            let (s, similar, made) =
              map_outcome-inv (hit r) (cosine embedding r.embedding) x first in
            let here : Keyed.lookup key (key r) (r ∷ records) ≡ some r =
              ground (arith, ==_iff (key r) (key r)) in
            subst (All (IsOf accept (r ∷ records))) whole
              (subst (IsOf accept (r ∷ records)) made (r, here, taken, refl, refl), behind ys rest)
        | inr dropped ↦ behind hits (ground (arith, dropped, h))
      ]

  abbrev cut : ℕ → List (Hit F) → Result QueryError (List (Hit F))
  cut top_k hs = ok (take top_k (sort after hs))

  -- A query of a valid in-memory tenant that returns hits: the iteration yields one vector for each
  -- record that is counted, with no id twice and all of the tenant's dimension; and every hit is of
  -- a record that the filter accepts and that the iteration yields, with its payload and its vector.
  pub query_filtered-IsYielded :
      (embedding : List F) (top_k : ℕ) (accept : Filter) (t : MockTenant F) (cs : Channels)
      (hits : List (Hit F))
      → IsValid t cs
      → query_filtered embedding top_k accept t ≡ returned (ok hits)
      → IsIterated (iter_vectors t) (record_count t) t.dim
        × All (IsYielded (iter_vectors t)) hits
        × All (IsOf accept t.records) hits
  unfolding query_filtered iter_vectors
  query_filtered-IsYielded embedding top_k accept t cs hits v h =
      let found : map_outcome (cut top_k) (candidates embedding accept t.records)
          ≡ returned (ok hits) =
        ground (arith, h) in
      let (cands, all, same) =
        map_outcome-inv (cut top_k) (candidates embedding accept t.records) (ok hits) found in
      let first : take top_k (sort after cands) ≡ hits = cc in
      let backed : All (IsOf accept t.records) hits = subst (All (IsOf accept t.records)) first (
        All-take (IsOf accept t.records) top_k (sort after cands) (
          All-sort after (IsOf accept t.records) cands
            (candidates-IsOf embedding accept t.records cands v.ids all))) in
      (
        iter_vectors-IsIterated t cs v,
        All-mono (IsOf accept t.records) (IsYielded (map pair t.records)) hits
            (IsOf-IsYielded accept t.records) backed,
        backed,
      )
