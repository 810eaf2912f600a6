-- ===== src/Tests/Twins.antt =====
-- The same calls on an in-memory tenant and on one of the adapter.
use skeg_rigging.Base.{ℕ, ◌≡◌, refl, true, false, List, [], ◌∷◌}
use skeg_rigging.Quota.{unlimited}
use skeg_rigging.Error.{dim_mismatch}
use skeg_rigging.Event.{all}
use skeg_rigging.Event.Channel.{broadcast}
use skeg_rigging.Base.Keyed.{overwrite}
use skeg_rigging.Base.Keyed
use skeg_rigging.Mock
use skeg_rigging.Mock.{MockRecord, MockTenant}
use skeg_rigging.Mock.Query
use skeg_rigging.Tenant
use skeg_rigging.Twin.{
  inserted, crashed, failed, AllAnswered, subscribed, deleted, Request, insert, delete, subscribe,
  mock_run, tenant_run,
}
use skeg_rigging.Twin.Alike.{IsAlike}
use skeg_rigging.Twin.Step.{TakesAll}
use skeg_rigging.Twin.Calls.{runs-IsAlike}
use skeg_rigging.Tests.Tenants.{two_channels, one, two}
use skeg_rigging.Tests.Stores.{Vector, Index-list, IndexLaws-list, store}

TakesAll-list : TakesAll (List Vector) ℕ
TakesAll-list = record { taken = λ id v i. (record { id = id; values = v } ∷ i, refl) }

abbrev twin : MockTenant ℕ
twin = record {
  tenant_id = record { bytes = [] };
  dim = 2;
  records = record one { tags = [] } ∷ [];
  quota = unlimited;
  subscribers = 0 ∷ [];
}

twin-IsAlike : IsAlike twin store
twin-IsAlike = record {
  dim = refl;
  ids = (refl, tt);
  entries = refl;
  vectors = (refl, tt);
  senders = refl;
  uncapped = refl;
  writable = refl;
}

-- A new record, a vector that is too short, an overwrite, a new subscriber and two deletes.
abbrev requests : List (Request ℕ)
requests =
    insert two
    ∷ insert (record two { embedding = [] })
    ∷ insert (record one { shareable = false })
    ∷ subscribe all
    ∷ delete 1
    ∷ delete 9
    ∷ []

runs-IsAlike_example :
    let (replies, m', cs') = mock_run requests twin two_channels in
    let (replies', t', cs'') = tenant_run requests store two_channels in
    AllAnswered 2 requests replies replies'
    × (cs' ≡ cs'')
    × (Query.iter_vectors m' ≡ Tenant.iter_vectors t')
    × (Mock.record_count m' ≡ Tenant.record_count t')
    × IsAlike m' t'
runs-IsAlike_example =
    runs-IsAlike IndexLaws-list TakesAll-list requests twin store two_channels twin-IsAlike

panics_lem :
    (mock_run requests twin two_channels).0
    ≡ inserted
      ∷ crashed
      ∷ inserted
      ∷ subscribed (record { rx = 2; filter = all })
      ∷ deleted true
      ∷ deleted false
      ∷ []
unfolding mock_run Mock.insert Mock.check_quota Mock.write Mock.emit Mock.subscribe Mock.delete
    broadcast Keyed.store overwrite
panics_lem = refl

replies_lem :
    (tenant_run {F = ℕ} requests store two_channels).0
    ≡ inserted
      ∷ failed (dim_mismatch 2 0)
      ∷ inserted
      ∷ subscribed (record { rx = 2; filter = all })
      ∷ deleted true
      ∷ deleted false
      ∷ []
unfolding tenant_run Tenant.insert Tenant.subscribe Tenant.delete Tenant.emit broadcast Keyed.store
    overwrite
replies_lem = refl
