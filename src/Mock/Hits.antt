-- ===== src/Mock/Hits.antt =====
-- What `query_filtered` of crates/skeg-rigging/src/mock.rs returns.
use mathlib.Core.List.{Perm}
use skeg_rigging.Base.{
  ℕ, ◌<◌, ◌^◌, ◌≡◌, ◌≢◌, refl, ap, ◌∙◌, false, List, [], ◌∷◌, ◌++◌, ok, err, Outcome, returned,
  panicked, length, map, filter, take, drop, All, arith, ==_iff, as_u32, min, Bool-cases, inl, inr,
  length-take, take-append-drop,
}
use skeg_rigging.Base.Sort.{sort, Sorted, Sorted-take, sort-Sorted, sort-perm, length-sort}
use skeg_rigging.Error.{embedding_dim_mismatch}
use skeg_rigging.Event.Channel.{Channels}
use skeg_rigging.Filter.{Filter, Hit}
use skeg_rigging.Float.{Float, FloatLaws, IsNumber}
use skeg_rigging.Mock.{MockRecord, MockTenant}
use skeg_rigging.Mock.Query.{meta, hit, sums, cosine, candidates, after, query_filtered}
use skeg_rigging.Mock.Valid.{IsValid, Fits}

module _ {F : Type 0} ⦃f : Float F⦄ where
  abbrev pub outcome_or : F → Outcome F → F
  outcome_or d (returned x) = x
  outcome_or d panicked = d

  -- The cosine of two vectors of one length.
  abbrev pub similarity : List F → MockRecord F → F
  similarity embedding r = outcome_or f.zero (cosine embedding r.embedding)

  sums_total :
      (dot na nb : F) (a b : List F)
      → length a ≡ length b
      → (s : F × F × F) × (sums dot na nb a b ≡ returned s)
  unfolding sums
  sums_total dot na nb [] b h = ((dot, na, nb), refl)
  sums_total dot na nb (x ∷ a) [] h = absurd (omega arith)
  sums_total dot na nb (x ∷ a) (y ∷ b) h =
      sums_total (f.add dot (f.mul x y)) (f.add na (f.mul x x)) (f.add nb (f.mul y y)) a b
        (omega arith)

  cosine-similarity :
      (embedding : List F) (r : MockRecord F)
      → length embedding ≡ length r.embedding
      → cosine embedding r.embedding ≡ returned (similarity embedding r)
  unfolding cosine
  cosine-similarity embedding r h =
      let (s, e) = sums_total f.zero f.zero f.zero embedding r.embedding h in rw (e, cosine)

  -- The hit of every record that the filter accepts, in the order of the records.
  abbrev pub all_hits : List F → Filter → List (MockRecord F) → List (Hit F)
  all_hits embedding accept records =
      map (λ r. hit r (similarity embedding r)) (filter (λ r. accept (meta r)) records)

  abbrev pub SameLength : List F → MockRecord F → Type 0
  SameLength embedding r = length embedding ≡ length r.embedding

  candidates-all_hits :
      (embedding : List F) (accept : Filter) (records : List (MockRecord F))
      → All (SameLength embedding) records
      → candidates embedding accept records ≡ returned (all_hits embedding accept records)
  unfolding candidates
  candidates-all_hits embedding accept [] h = refl
  candidates-all_hits embedding accept (r ∷ records) h = elim (Bool-cases (accept (meta r))) [
    | inl taken ↦
        rw (
          taken,
          cosine-similarity embedding r h.0,
          candidates-all_hits embedding accept records h.1,
        )
    | inr dropped ↦ rw dropped (candidates-all_hits embedding accept records h.1)
  ]

  SameLength-Fits :
      (embedding : List F) (dim : ℕ) (records : List (MockRecord F))
      → as_u32 (length embedding) ≡ dim
      → length embedding < 2 ^ 32
      → All (Fits dim) records
      → All (λ r. length r.embedding < 2 ^ 32) records
      → All (SameLength embedding) records
  SameLength-Fits embedding dim [] e small fits smalls = tt
  SameLength-Fits embedding dim (r ∷ records) e small fits smalls =
      (omega arith, SameLength-Fits embedding dim records e small fits.1 smalls.1)

  pub query_filtered-take :
      (embedding : List F) (k : ℕ) (accept : Filter) (t : MockTenant F)
      → as_u32 (length embedding) ≡ t.dim
      → All (SameLength embedding) t.records
      → query_filtered embedding k accept t
        ≡ returned (ok (take k (sort after (all_hits embedding accept t.records))))
  unfolding query_filtered
  query_filtered-take embedding k accept t e same = rw (
    (==_iff (as_u32 (length embedding)) t.dim).1 e,
    candidates-all_hits embedding accept t.records same,
  )

  -- A query of another dimension is refused with the two dimensions.
  query_filtered_mismatch :
      (embedding : List F) (k : ℕ) (accept : Filter) (t : MockTenant F)
      → as_u32 (length embedding) ≢ t.dim
      → query_filtered embedding k accept t
        ≡ returned (err (embedding_dim_mismatch t.dim (as_u32 (length embedding))))
  unfolding query_filtered
  query_filtered_mismatch embedding k accept t other = ground arith

  -- On a valid tenant with vectors of fewer than 2 ^ 32 components, a query of its dimension
  -- returns. The hits, with some others, are exactly the hits of the records that the filter
  -- accepts; there are `top_k` of them, or all if there are fewer. Where the similarities are
  -- numbers, the hits come nearest first, and none of the others is nearer than a hit.
  pub query_filtered-top_k :
      (laws : FloatLaws F) (embedding : List F) (k : ℕ) (accept : Filter) (t : MockTenant F)
      (cs : Channels)
      → IsValid t cs
      → as_u32 (length embedding) ≡ t.dim
      → length embedding < 2 ^ 32
      → All (λ r. length r.embedding < 2 ^ 32) t.records
      → All (λ (h : Hit F). IsNumber h.similarity) (all_hits embedding accept t.records)
      → (hits : List (Hit F)) × (others : List (Hit F)) × (query_filtered embedding k accept t
          ≡ returned (ok hits))
        × Perm (hits ++ others) (all_hits embedding accept t.records)
        × (length hits ≡ min k (length (all_hits embedding accept t.records)))
        × Sorted after hits
        × All (λ h. All (λ other. after h other ≡ false) others) hits
  query_filtered-top_k laws embedding k accept t cs v e small smalls numbers =
      let all = all_hits embedding accept t.records in
      let sorted = sort after all in
      let same = SameLength-Fits embedding t.dim t.records e small v.dims smalls in
      let (front, behind) = Sorted-take after k sorted (
        sort-Sorted after (λ (h : Hit F). IsNumber h.similarity)
          (λ a b. laws.gt_asymm b.similarity a.similarity)
          (λ a b c pa pb pc ab bc.
            laws.not_gt_trans c.similarity b.similarity a.similarity pc pb pa bc ab)
          all numbers) in
      (
        take k sorted,
        drop k sorted,
        query_filtered-take embedding k accept t e same,
        rw take-append-drop (sort-perm after all),
        length-take k sorted ∙ ap (min k) (length-sort after all),
        front,
        behind,
      )
