-- ===== src/Tenant/Hits.antt =====
-- `query_filtered` of crates/skeg-rigging-skeg/src/tenant.rs against the list of what the search
-- gave.
use mathlib.Core.Path.{subst}
use skeg_rigging.Base.{
  ℕ, zero, suc, ◌+◌, ◌-◌, ◌≤◌, max, ◌≡◌, refl, true, Option, none, some, List, [], ◌∷◌, Result, ok,
  err, length, take, arith, ◌==◌, as_u32, if◌then◌else◌, All, All-take, length-take, ap, ◌∙◌,
  if_elim,
}
use skeg_rigging.Base.Keyed
use skeg_rigging.Error.{IoError, QueryError, embedding_dim_mismatch}
use skeg_rigging.Filter.{Filter, Hit}
use skeg_rigging.Tenant.{
  Tenant, hit, meta, take_hits, hits_result, query_filtered, oversample, or_none,
}
use skeg_rigging.Tenant.Engine.{Index}
use skeg_rigging.Tenant.Sidecar.{RecordEntry, entry_key, get}

module _ {I F : Type 0} ⦃e : Index I F⦄ where
  -- The hit of a neighbour, if the sidecar has its record and the filter accepts it.
  abbrev pub hit_of : Filter → Tenant I → ℕ → F → Option RecordEntry → List (Hit F) → List (Hit F)
  hit_of accept t id sim none rest = rest
  hit_of accept t id sim (some rec) rest =
      if accept (meta id rec) then hit t.index id sim rec ∷ rest else rest

  abbrev pub eligible : Filter → Tenant I → List (ℕ × F) → List (Hit F)
  eligible accept t [] = []
  eligible accept t ((id, sim) ∷ raw) =
      hit_of accept t id sim (Keyed.lookup entry_key id t.sidecar.records) (eligible accept t raw)

  take_hits_lem :
      (accept : Filter) (top_k : ℕ) (t : Tenant I) (n k : ℕ) (raw : List (ℕ × F))
      → n + suc k ≡ max top_k 1
      → take_hits accept top_k t n raw ≡ take (suc k) (eligible accept t raw)
  unfolding take_hits
  take_hits_lem accept top_k t n k [] h = refl
  take_hits_lem accept top_k t n zero ((id, sim) ∷ raw) h =
      ground (arith, take_hits_lem accept top_k t n zero raw)
  take_hits_lem accept top_k t n (suc k) ((id, sim) ∷ raw) h = ground (
    arith,
    take_hits_lem accept top_k t n (suc k) raw,
    take_hits_lem accept top_k t (n + 1) k raw,
  )

  abbrev pub expected_hits :
      Filter → ℕ → Tenant I → Result IoError (List (ℕ × F)) → Result QueryError (List (Hit F))
  expected_hits accept top_k t (ok raw) = ok (take (max top_k 1) (eligible accept t raw))
  expected_hits accept top_k t (err x) = err (QueryError.io x)

  hits_result_lem :
      (accept : Filter) (top_k : ℕ) (t : Tenant I) (r : Result IoError (List (ℕ × F)))
      → hits_result accept top_k t r ≡ expected_hits accept top_k t r
  hits_result_lem accept top_k t (err x) = refl
  hits_result_lem accept top_k t (ok raw) =
      let whole : suc (max top_k 1 - 1) ≡ max top_k 1 = omega arith in
      let taken : take_hits accept top_k t 0 raw
          ≡ take (suc (max top_k 1 - 1)) (eligible accept t raw) =
        take_hits_lem accept top_k t 0 (max top_k 1 - 1) raw (omega arith) in
      ap ok (taken ∙ ap (λ n. take n (eligible accept t raw)) whole)

  -- The hits are the first of the neighbours found that have a record the filter accepts, in the
  -- order of the search: `top_k` of them, and one where `top_k` is 0. An error of the search is
  -- passed on, and a query of another dimension is an error.
  pub query_filtered-eligible :
      (embedding : List F) (top_k : ℕ) (accept : Filter) (t : Tenant I)
      → query_filtered embedding top_k accept t ≡ (
          if as_u32 (length embedding) == t.embedding_dim
          then expected_hits accept top_k t (e.search embedding (oversample top_k) t.index)
          else err (embedding_dim_mismatch t.embedding_dim (as_u32 (length embedding))))
  unfolding query_filtered
  query_filtered-eligible embedding top_k accept t =
      ap
        (λ found.
          if as_u32 (length embedding) == t.embedding_dim
          then found
          else err (embedding_dim_mismatch t.embedding_dim (as_u32 (length embedding))))
        (hits_result_lem accept top_k t (e.search embedding (oversample top_k) t.index))

  -- What a hit says of its record: the sidecar has it, the filter accepted it, and the payload is
  -- its own.
  abbrev pub IsBacked : Filter → Tenant I → Hit F → Type 0
  IsBacked accept t h =
      (rec : RecordEntry) × (get h.record_id t.sidecar ≡ some rec)
      × (accept (meta h.record_id rec) ≡ true)
      × (h.payload ≡ rec.payload)
      × (h.embedding ≡ or_none (e.get h.record_id t.index))

  hit_of-IsBacked :
      (accept : Filter) (t : Tenant I) (id : ℕ) (sim : F) (rest : List (Hit F))
      (found : Option RecordEntry)
      → get id t.sidecar ≡ found
      → All (IsBacked accept t) rest
      → All (IsBacked accept t) (hit_of accept t id sim found rest)
  hit_of-IsBacked accept t id sim rest none found_eq h = h
  hit_of-IsBacked accept t id sim rest (some rec) found_eq h =
      if_elim (All (IsBacked accept t)) (accept (meta id rec))
        (λ accepted. ((rec, found_eq, accepted, refl, refl), h)) (λ _. h)

  eligible-IsBacked :
      (accept : Filter) (t : Tenant I) (raw : List (ℕ × F))
      → All (IsBacked accept t) (eligible accept t raw)
  unfolding get
  eligible-IsBacked accept t [] = tt
  eligible-IsBacked accept t ((id, sim) ∷ raw) =
      hit_of-IsBacked accept t id sim _ (Keyed.lookup entry_key id t.sidecar.records) refl
        (eligible-IsBacked accept t raw)

  expected_hits-inv :
      (accept : Filter) (top_k : ℕ) (t : Tenant I) (r : Result IoError (List (ℕ × F)))
      (hits : List (Hit F))
      → expected_hits accept top_k t r ≡ ok hits
      → (raw : List (ℕ × F)) × (take (max top_k 1) (eligible accept t raw) ≡ hits)
  expected_hits-inv accept top_k t (ok raw) hits h = (raw, cc)
  expected_hits-inv accept top_k t (err x) hits h = absurd (cc)

  query_filtered-inv :
      (embedding : List F) (top_k : ℕ) (accept : Filter) (t : Tenant I) (hits : List (Hit F))
      → query_filtered embedding top_k accept t ≡ ok hits
      → (raw : List (ℕ × F)) × (take (max top_k 1) (eligible accept t raw) ≡ hits)
  query_filtered-inv embedding top_k accept t hits h =
      expected_hits-inv accept top_k t (e.search embedding (oversample top_k) t.index) hits
        (ground (arith, query_filtered-eligible embedding top_k accept t))

  -- Every hit is of a record that the sidecar has and the filter accepts, with that record's
  -- payload and the index's vector; and there are at most `top_k` of them, or one where `top_k` is
  -- 0.
  pub query_filtered-IsBacked :
      (embedding : List F) (top_k : ℕ) (accept : Filter) (t : Tenant I) (hits : List (Hit F))
      → query_filtered embedding top_k accept t ≡ ok hits
      → All (IsBacked accept t) hits × (length hits ≤ max top_k 1)
  query_filtered-IsBacked embedding top_k accept t hits h =
      let inv = query_filtered-inv embedding top_k accept t hits h in
      let n = max top_k 1 in
      (
        subst (All (IsBacked accept t)) inv.1
            (All-take _ n (eligible accept t inv.0) (eligible-IsBacked accept t inv.0)),
        omega (arith, length-take n (eligible accept t inv.0), ap length inv.1),
      )
