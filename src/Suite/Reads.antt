-- ===== src/Suite/Reads.antt =====
-- The tests of the reads and of the delete in crates/skeg-rigging/src/mock.rs.
use skeg_rigging.Base.{
  ◌≡◌, refl, Bool, true, false, not, List, [], ◌∷◌, Outcome, returned, panicked, length, ◌==◌,
}
use skeg_rigging.Base.Keyed
use skeg_rigging.Ids.{RecordId, TenantId, anonymous}
use skeg_rigging.Text.{codes, len}
use skeg_rigging.Error.{QueryError, embedding_dim_mismatch}
use skeg_rigging.Event.Channel.{broadcast}
use skeg_rigging.Filter.{Filter, Hit}
use skeg_rigging.Float.{Float}
use skeg_rigging.Mock
use skeg_rigging.Mock.Query
use skeg_rigging.Suite.{
  ◌>>=◌, assert, passed, unwrap, unwrap_err, World, fresh, vector, rec, insert, delete,
}

abbrev is_mismatch : QueryError → Bool
is_mismatch (embedding_dim_mismatch expected got) = true
is_mismatch _ = false

-- `hits[0].record_id`
abbrev pub first_id : {F : Type 0} → List (Hit F) → Outcome RecordId
first_id [] = panicked
first_id (h ∷ hits) = returned h.record_id

abbrev pub shareable_only : Filter
shareable_only m = m.shareable

abbrev pub any_record : Filter
any_record m = true

-- `[1; 16]`
abbrev ones : TenantId
ones = record { bytes = 1 ∷ 1 ∷ 1 ∷ 1 ∷ 1 ∷ 1 ∷ 1 ∷ 1 ∷ 1 ∷ 1 ∷ 1 ∷ 1 ∷ 1 ∷ 1 ∷ 1 ∷ 1 ∷ [] }

module _ (F : Type 0) ⦃f : Float F⦄ where
  abbrev empty_mock_tenant_has_zero_count : Outcome (Unit {0})
  empty_mock_tenant_has_zero_count =
      let w : World F = fresh anonymous 3 in
      do _ ← assert (Mock.record_count w.tenant == 0); assert (w.tenant.dim == 3)

  abbrev insert_and_query : Outcome (Unit {0})
  insert_and_query = do
    w ←
        insert {F = F} (rec 1 (true ∷ false ∷ false ∷ []) true (codes "a" ∷ []) (codes "x"))
          (fresh ones 3)
    w1 ← insert (rec 2 (false ∷ true ∷ false ∷ []) false (codes "b" ∷ []) (codes "y")) w
    found ← Query.query_filtered (vector (true ∷ false ∷ false ∷ [])) 5 shareable_only w1.tenant
    hits ← unwrap found
    _ ← assert (length hits == 1)
    id ← first_id hits
    assert (id == 1)

  abbrev dim_mismatch_errors : Outcome (Unit {0})
  dim_mismatch_errors =
      let w : World F = fresh anonymous 4 in
      do
        found ← Query.query_filtered (vector (true ∷ false ∷ [])) 5 any_record w.tenant
        e ← unwrap_err found
        assert (is_mismatch e)

  abbrev delete_round_trip : Outcome (Unit {0})
  delete_round_trip = do
    w ← insert {F = F} (rec 7 (true ∷ false ∷ []) true [] []) (fresh anonymous 2)
    _ ← assert (Mock.record_count w.tenant == 1)
    _ ← assert (delete 7 w).0
    _ ← assert (Mock.record_count (delete 7 w).1.tenant == 0)
    assert (not (delete 7 (delete 7 w).1).0)

  reads_pass :
      (empty_mock_tenant_has_zero_count ≡ passed)
      × (insert_and_query ≡ passed)
      × (dim_mismatch_errors ≡ passed)
      × (delete_round_trip ≡ passed)
  unfolding Mock.new Mock.insert Mock.check_quota Mock.write Mock.emit Keyed.store
      Mock.estimate_size len Mock.record_count broadcast Query.query_filtered Query.cosine
      Mock.delete
  reads_pass = (refl, refl, refl, refl)
