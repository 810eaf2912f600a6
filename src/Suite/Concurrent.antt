-- ===== src/Suite/Concurrent.antt =====
-- The test of concurrent queries in crates/skeg-rigging/src/asyncs.rs. The queries change nothing, so
-- that they stand one after another here.
use skeg_rigging.Base.{
  All, All-append, length-take, min, ap, ◌∙◌, zero, suc, ◌++◌, ℕ, ◌≡◌, refl, true, false, List, [],
  ◌∷◌, Outcome, returned, length, ◌==◌, Result,
}
use skeg_rigging.Base.Keyed
use skeg_rigging.Base.Sort.{sort, length-sort}
use skeg_rigging.Quota.{unlimited}
use skeg_rigging.Ids.{anonymous}
use skeg_rigging.Text.{codes, len}
use skeg_rigging.Error.{QueryError}
use skeg_rigging.Event.Channel.{broadcast}
use skeg_rigging.Filter.{Hit}
use skeg_rigging.Float.{Float}
use skeg_rigging.Mock
use skeg_rigging.Mock.Query
use skeg_rigging.Mock.Hits.{SameLength, all_hits, query_filtered-take}
use skeg_rigging.Async
use skeg_rigging.Async.{ReadOnlyView, Runtime, RuntimeLaws, SyncToAsync}
use skeg_rigging.Async.Bridge.{expect-spawn_blocking}
use skeg_rigging.Suite.{
  ◌>>=◌, assert, passed, unwrap, World, fresh, vector, rec, insert_each, no_channels,
}
use skeg_rigging.Suite.Reads.{any_record}
use skeg_rigging.Suite.Bridges.{view}

module _ {J : Type 0} (F : Type 0) ⦃f : Float F⦄ (runtime : Runtime J) where
  -- The records of the loop.
  abbrev rounds : ℕ → List (Mock.MockRecord F)
  rounds zero = []
  rounds (suc n) = rounds n ++ rec n (true ∷ false ∷ false ∷ []) true [] (codes "x") ∷ []

  abbrev one_query : SyncToAsync (Mock.MockTenant F) → Outcome (Unit {0})
  one_query v = do
    found ←
        (view F runtime).query.query_filtered_async (vector (true ∷ false ∷ false ∷ [])) 4
          any_record v
    hits ← unwrap found
    assert (length hits == 4)

  -- Each of the handles is awaited.
  abbrev all_queries : ℕ → SyncToAsync (Mock.MockTenant F) → Outcome (Unit {0})
  all_queries zero v = passed
  all_queries (suc n) v = do _ ← one_query v; all_queries n v

  abbrev sync_to_async_runs_concurrent_queries : Outcome (Unit {0})
  sync_to_async_runs_concurrent_queries = do
    w ← insert_each (rounds 32) (fresh anonymous 3)
    all_queries 8 (Async.new w.tenant)

  -- The tenant after the loop.
  abbrev thirty_two : Mock.MockTenant F
  thirty_two = record {
    tenant_id = anonymous;
    dim = 3;
    records = rounds 32;
    quota = unlimited;
    subscribers = [];
  }

  rounds-insert_each :
      insert_each (rounds 32) (fresh anonymous 3)
      ≡ returned (record { tenant = thirty_two; channels = no_channels })
  unfolding Mock.new Mock.insert Mock.check_quota Mock.write Mock.emit Keyed.store
      Mock.estimate_size len broadcast
  rounds-insert_each = refl

  abbrev asked : List F
  asked = vector (true ∷ false ∷ false ∷ [])

  rounds-SameLength : (n : ℕ) → All (SameLength asked) (rounds n)
  rounds-SameLength zero = tt
  rounds-SameLength (suc n) =
      All-append (SameLength asked) (rounds n) _ (rounds-SameLength n) (refl, tt)

  one_query_passes : RuntimeLaws J runtime → one_query (Async.new thirty_two) ≡ passed
  unfolding Async.new Async.query_filtered_async
  one_query_passes laws =
      let hits : List (Hit F) = all_hits asked any_record (rounds 32) in
      rw
        (
          expect-spawn_blocking {A = Result QueryError (List (Hit F))} runtime laws,
          query_filtered-take asked 4 any_record thirty_two refl (rounds-SameLength 32),
        )
        (ap (λ n. assert (n == 4))
          (length-take 4 (sort Query.after hits) ∙ ap (min 4) (length-sort Query.after hits)))

  all_queries_pass :
      (laws : RuntimeLaws J runtime) (n : ℕ) → all_queries n (Async.new thirty_two) ≡ passed
  all_queries_pass laws zero = refl
  all_queries_pass laws (suc n) =
      ap (λ first. first >>= (λ _. all_queries n (Async.new thirty_two))) (one_query_passes laws)
      ∙ all_queries_pass laws n

  concurrent_queries_pass : RuntimeLaws J runtime → sync_to_async_runs_concurrent_queries ≡ passed
  concurrent_queries_pass laws =
      ap (λ done. done >>= (λ (w : World F). all_queries 8 (Async.new w.tenant))) rounds-insert_each
      ∙ all_queries_pass laws 8
