-- ===== src/Mock/Query.antt =====
-- The reads of crates/skeg-rigging/src/mock.rs: `iter_vectors`, and `query_filtered` with its
-- cosine similarity. Indexing past the end of a vector panics.
use skeg_rigging.Base.{
  ℕ, Bool, ◌||◌, some, List, [], ◌∷◌, Result, ok, err, Outcome, returned, panicked, length, map,
  take, ◌==◌, as_u32, if◌then◌else◌,
}
use skeg_rigging.Base.Sort.{sort}
use skeg_rigging.Ids.{RecordId}
use skeg_rigging.Error.{QueryError, embedding_dim_mismatch}
use skeg_rigging.Filter.{RecordMeta, Filter, Hit}
use skeg_rigging.Float.{Float, float_eq, float_gt}
use skeg_rigging.Mock.{MockRecord, MockTenant}

unfoldable pub iter_vectors : {F : Type 0} → MockTenant F → List (RecordId × List F)
iter_vectors t = map (λ r. (r.record_id, r.embedding)) t.records

abbrev pub meta : {F : Type 0} → MockRecord F → RecordMeta
meta r = record { record_id = r.record_id; shareable = r.shareable; tags = r.tags }

module _ {F : Type 0} ⦃f : Float F⦄ where
  -- The loop over the indices of `a`, with `dot`, `na` and `nb`.
  unfoldable pub sums : F → F → F → List F → List F → Outcome (F × F × F)
  sums dot na nb [] b = returned (dot, na, nb)
  sums dot na nb (x ∷ a) [] = panicked
  sums dot na nb (x ∷ a) (y ∷ b) =
      sums (f.add dot (f.mul x y)) (f.add na (f.mul x x)) (f.add nb (f.mul y y)) a b

  unfoldable pub quotient : F × F × F → F
  quotient (dot, na, nb) =
      if float_eq na f.zero || float_eq nb f.zero
      then f.zero
      else f.div dot (f.mul (f.sqrt na) (f.sqrt nb))

  unfoldable pub cosine : List F → List F → Outcome F
  unfolding sums quotient
  cosine a b = elim (sums f.zero f.zero f.zero a b) [
    | returned s ↦ returned (quotient s)
    | panicked ↦ panicked
  ]

  abbrev pub hit : MockRecord F → F → Hit F
  hit r similarity = record {
    record_id = r.record_id;
    similarity = similarity;
    payload = r.payload;
    embedding = some r.embedding;
  }

-- One more element of a collection that a panic may stop.
abbrev pub prepend : {A : Type 0} → Outcome A → Outcome (List A) → Outcome (List A)
prepend panicked rest = panicked
prepend (returned x) panicked = panicked
prepend (returned x) (returned xs) = returned (x ∷ xs)

abbrev pub map_outcome : {A B : Type 0} → (A → B) → Outcome A → Outcome B
map_outcome g panicked = panicked
map_outcome g (returned x) = returned (g x)

module _ {F : Type 0} ⦃f : Float F⦄ where
  -- `filter_map(…).collect()`
  unfoldable pub candidates : List F → Filter → List (MockRecord F) → Outcome (List (Hit F))
  candidates embedding accept [] = returned []
  candidates embedding accept (r ∷ records) =
      let rest = candidates embedding accept records in
      if accept (meta r)
      then prepend (map_outcome (hit r) (cosine embedding r.embedding)) rest
      else rest

  -- `b.similarity.partial_cmp(&a.similarity)` is `Greater`: `b` is nearer than `a`.
  abbrev pub after : Hit F → Hit F → Bool
  after a b = float_gt b.similarity a.similarity

  unfoldable pub query_filtered :
      List F → ℕ → Filter → MockTenant F → Outcome (Result QueryError (List (Hit F)))
  unfolding candidates sort
  query_filtered embedding top_k accept t =
      if as_u32 (length embedding) == t.dim
      then map_outcome (λ hits. ok (take top_k (sort after hits)))
          (candidates embedding accept t.records)
      else returned (err (embedding_dim_mismatch t.dim (as_u32 (length embedding))))
