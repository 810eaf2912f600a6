-- ===== src/Suite/Bridges.antt =====
-- The tests of crates/skeg-rigging/src/asyncs.rs, on any runtime that joins its tasks; the tenant
-- `StubAsync` of the tests answers with a fixed hit, whose similarity is a parameter.
use skeg_rigging.Base.{
  ℕ, ◌≡◌, refl, Bool, true, false, none, List, [], ◌∷◌, Outcome, returned, length, ◌==◌, Result, ok,
}
use skeg_rigging.Base.Keyed
use skeg_rigging.Ids.{RecordId, TenantId, anonymous, bytes_eq, is_zero}
use skeg_rigging.Text.{codes, len}
use skeg_rigging.Text.Paths.{FilePath}
use skeg_rigging.Error.{OpenError, QueryError}
use skeg_rigging.Event.Channel.{broadcast}
use skeg_rigging.Filter.{Hit}
use skeg_rigging.Float.{Float}
use skeg_rigging.Mock
use skeg_rigging.Mock.Query
use skeg_rigging.Async
use skeg_rigging.Async.{ReadOnlyView, Runtime, RuntimeLaws, SyncToAsync}
use skeg_rigging.Async.Bridge.{expect-spawn_blocking}
use skeg_rigging.Async.Views.{mock_view}
use skeg_rigging.Async.Traits.{AsyncReadOnlyView, bridge}
use skeg_rigging.Suite.{
  ◌>>=◌, assert, passed, unwrap, unwrap_err, World, fresh, vector, rec, insert,
}
use skeg_rigging.Suite.Reads.{first_id, shareable_only, any_record}

abbrev is_not_found : OpenError → Bool
is_not_found OpenError.not_found = true
is_not_found _ = false

-- `[0x42; 16]`
abbrev pub sixteen : ℕ → TenantId
sixteen b = record { bytes = b ∷ b ∷ b ∷ b ∷ b ∷ b ∷ b ∷ b ∷ b ∷ b ∷ b ∷ b ∷ b ∷ b ∷ b ∷ b ∷ [] }

module _ (F : Type 0) ⦃f : Float F⦄ (score : F) where
  abbrev stub_hit : Hit F
  stub_hit = record { record_id = 1; similarity = score; payload = codes "stub"; embedding = none }

  -- `StubAsync` has no state.
  abbrev pub stub : AsyncReadOnlyView (Unit {0}) F
  stub = record {
    iter = record {
      iter_vectors_async = λ t. returned [];
      record_count_async = λ t. returned 0;
      embedding_dim_async = λ t. returned 4;
    };
    query = record {
      query_filtered_async = λ embedding top_k filter t. returned (ok (stub_hit ∷ []));
    };
    tenant_id_async = λ t. anonymous;
    close_async = λ t. ok tt;
  }

  abbrev stub_returns_one_hit : Outcome (Unit {0})
  stub_returns_one_hit = do
    found ←
        stub.query.query_filtered_async (vector (true ∷ true ∷ true ∷ true ∷ [])) 5 any_record tt
    hits ← unwrap found
    assert (length hits == 1)

  abbrev boxed_trait_object_is_usable : Outcome (Unit {0})
  boxed_trait_object_is_usable = do
    _ ← assert (is_zero (stub.tenant_id_async tt))
    unwrap (stub.close_async tt)

  stubs_pass : (stub_returns_one_hit ≡ passed) × (boxed_trait_object_is_usable ≡ passed)
  unfolding is_zero
  stubs_pass = (refl, refl)

-- For any reader `V`.
abbrev open_readonly_async_placeholder : (V : Type 0) → FilePath → Outcome (Unit {0})
open_readonly_async_placeholder V path = do
  e ← unwrap_err (Async.open_readonly_async {V = V} path)
  assert (is_not_found e)

placeholder_passes :
    (V : Type 0) (path : FilePath) → open_readonly_async_placeholder V path ≡ passed
unfolding Async.open_readonly_async
placeholder_passes V path = refl

module _ {J : Type 0} (F : Type 0) ⦃f : Float F⦄ (runtime : Runtime J) where
  abbrev pub view : AsyncReadOnlyView (SyncToAsync (Mock.MockTenant F)) F
  view = bridge runtime mock_view

  abbrev sync_to_async_bridges_mock_tenant : Outcome (Unit {0})
  sync_to_async_bridges_mock_tenant = do
    w ←
        insert {F = F} (rec 1 (true ∷ false ∷ false ∷ []) true (codes "a" ∷ []) (codes "hello"))
          (fresh anonymous 3)
    w1 ← insert (rec 2 (false ∷ true ∷ false ∷ []) false [] (codes "world")) w
    let v = Async.new w1.tenant in
        do
          count ← view.iter.record_count_async v
          _ ← assert (count == 2)
          dim ← view.iter.embedding_dim_async v
          _ ← assert (dim == 3)
          vecs ← view.iter.iter_vectors_async v
          _ ← assert (length vecs == 2)
          found ←
              view.query.query_filtered_async (vector (true ∷ false ∷ false ∷ [])) 5 shareable_only
                v
          hits ← unwrap found
          _ ← assert (length hits == 1)
          id ← first_id hits
          assert (id == 1)

  abbrev sync_to_async_as_readonly_trait_object : Outcome (Unit {0})
  sync_to_async_as_readonly_trait_object =
      let w : World F = fresh (sixteen 0x42) 2 in
      let v = Async.new w.tenant in
      do
        _ ← assert (bytes_eq (view.tenant_id_async v).bytes (sixteen 0x42).bytes)
        unwrap (view.close_async v)

  bridges_pass :
      (laws : RuntimeLaws J runtime)
      → (sync_to_async_bridges_mock_tenant ≡ passed)
        × (sync_to_async_as_readonly_trait_object ≡ passed)
  unfolding Mock.new Mock.insert Mock.check_quota Mock.write Mock.emit Keyed.store
      Mock.estimate_size len Mock.record_count broadcast Query.query_filtered Query.cosine
      Query.iter_vectors Async.new Async.iter_vectors_async Async.record_count_async
      Async.embedding_dim_async Async.query_filtered_async Async.tenant_id_async Async.close_async
      bytes_eq
  bridges_pass laws = (
    rw
        (
          expect-spawn_blocking {A = ℕ} runtime laws (returned 2),
          expect-spawn_blocking {A = ℕ} runtime laws (returned 3),
          expect-spawn_blocking {A = List (RecordId × List F)} runtime laws,
          expect-spawn_blocking {A = Result QueryError (List (Hit F))} runtime laws,
        )
        refl,
    refl,
  )
