-- ===== src/Tests/Stores.antt =====
-- A `Tenant` over an index that is a list of vectors.
use skeg_rigging.Base.{
  ℕ, ◌≤◌, ◌≡◌, refl, true, false, some, none, Option, List, [], ◌∷◌, ok, length, map, take, All,
  arith, ==_iff,
}
use skeg_rigging.Base.Keyed
use skeg_rigging.Event.Channel.{Channels}
use skeg_rigging.Filter.{Filter}
use skeg_rigging.Text.{codes}
use skeg_rigging.Write.{NewRecord}
use skeg_rigging.Tenant.{Tenant, entry, insert, delete, query_filtered, oversample, hit}
use skeg_rigging.Tenant.Engine.{Index, IndexLaws}
use skeg_rigging.Tenant.Sidecar.{RecordEntry, entry_key, get}
use skeg_rigging.Tenant.Writes.{insert-get, delete-get}
use skeg_rigging.Tenant.{iter_vectors, record_count}
use skeg_rigging.Tenant.Complete.{IsComplete, insert-IsComplete}
use skeg_rigging.Tenant.Yielded.{query_filtered-iter_vectors}
use skeg_rigging.Iter.{IsIterated, IsYielded}
use skeg_rigging.Tenant.Hits.{
  expected_hits, IsBacked, query_filtered-eligible, query_filtered-IsBacked,
}
use skeg_rigging.Tests.Tenants.{two_channels}

pub record Vector : Type 0 where
  pub id : ℕ
  pub values : List ℕ

abbrev pub vector_key : Vector → ℕ
vector_key v = v.id

abbrev pub values_of : Option Vector → Option (List ℕ)
values_of none = none
values_of (some v) = some v.values

instance abbrev pub Index-list : Index (List Vector) ℕ
Index-list = record {
  insert = λ id v i. (ok tt, record { id = id; values = v } ∷ i);
  get = λ id i. ok (values_of (Keyed.lookup vector_key id i));
  search = λ v n i. ok (take n (map (λ v. (v.id, length v.values)) i));
  consolidate = λ i. (ok tt, i);
}

pub IndexLaws-list : IndexLaws (List Vector) ℕ
IndexLaws-list = record {
  get-insert = λ id v i i' h. ground (arith, ==_iff id id);
  get-insert_ne = λ id j v i i' h other. ground (arith, ==_iff id j);
}

abbrev pub first : RecordEntry
first = record { record_id = 1; shareable = true; tags = []; payload = 7 ∷ [] }

abbrev pub store : Tenant (List Vector)
store = record {
  index = record { id = 5; values = 0 ∷ 1 ∷ [] } ∷ record { id = 1; values = 3 ∷ 4 ∷ [] } ∷ [];
  sidecar = record { tenant_id = record { bytes = [] }; embedding_dim = 2; records = first ∷ [] };
  tenant_id = record { bytes = [] };
  embedding_dim = 2;
  dir = codes "t" ∷ [];
  subscribers = 0 ∷ [];
  read_only = false;
}

abbrev frozen : Tenant (List Vector)
frozen = record store { read_only = true }

abbrev pub fresh : NewRecord ℕ
fresh = record { record_id = 2; embedding = 1 ∷ 2 ∷ []; shareable = false; tags = []; payload = [] }

abbrev stored : Tenant (List Vector)
stored = (insert fresh store two_channels).1

abbrev stored_channels : Channels
stored_channels = (insert fresh store two_channels).2

insert-get_example :
    (get 2 stored.sidecar ≡ some (entry fresh))
    × (Index-list.get 2 stored.index ≡ ok (some (1 ∷ 2 ∷ [])))
    × (stored.embedding_dim ≡ 2)
unfolding insert
insert-get_example =
    insert-get IndexLaws-list fresh store stored two_channels stored_channels 2 refl

abbrev emptied : Tenant (List Vector)
emptied = (delete 1 store two_channels).1

abbrev emptied_channels : Channels
emptied_channels = (delete 1 store two_channels).2

delete-get_example :
    (true ≡ Keyed.contains entry_key 1 (first ∷ []))
    × (get 1 emptied.sidecar ≡ none)
    × (emptied.index ≡ store.index)
unfolding delete
delete-get_example = delete-get 1 1 store emptied two_channels emptied_channels true (refl, tt) refl

abbrev shared : Filter
shared meta = meta.shareable

query_filtered-eligible_example :
    query_filtered (1 ∷ 1 ∷ []) 0 shared store
    ≡ expected_hits shared 0 store (Index-list.search (1 ∷ 1 ∷ []) (oversample 0) store.index)
query_filtered-eligible_example = query_filtered-eligible (1 ∷ 1 ∷ []) 0 shared store

-- A query for no hit at all gives one.
one_too_many :
    query_filtered {F = ℕ} (1 ∷ 1 ∷ []) 0 shared store ≡ ok (hit store.index 1 2 first ∷ [])
unfolding query_filtered
one_too_many = refl

query_filtered-IsBacked_example :
    All (IsBacked {F = ℕ} shared store) (hit store.index 1 2 first ∷ []) × (1 ≤ 1)
query_filtered-IsBacked_example =
    query_filtered-IsBacked (1 ∷ 1 ∷ []) 0 shared store (hit store.index 1 2 first ∷ [])
      one_too_many

store-IsComplete : IsComplete ℕ store
store-IsComplete = record { ids = (refl, tt); vectors = ((3 ∷ 4 ∷ [], refl, refl), tt) }

insert-IsComplete_example : IsComplete ℕ stored
unfolding insert
insert-IsComplete_example =
    insert-IsComplete ℕ IndexLaws-list fresh store stored two_channels stored_channels
      store-IsComplete refl

query_filtered-iter_vectors_example :
    IsIterated {F = ℕ} (iter_vectors store) (record_count store) 2
    × All (IsYielded {F = ℕ} (iter_vectors store)) (hit store.index 1 2 first ∷ [])
query_filtered-iter_vectors_example =
    query_filtered-iter_vectors ℕ (1 ∷ 1 ∷ []) 0 shared store (hit store.index 1 2 first ∷ [])
      store-IsComplete one_too_many
