-- ===== src/Mock/Managed.antt =====
-- The traits of an orchestrator on the `MockTenant` of crates/skeg-rigging/src/mock.rs.
use skeg_rigging.Base.{◌≡◌, refl, ok}
use skeg_rigging.Event.Channel.{Channels}
use skeg_rigging.Quota.{Quota}
use skeg_rigging.Manage.{TenantStats, TenantQuota, TenantEvents}
use skeg_rigging.Mock
use skeg_rigging.Mock.{MockTenant}

module _ {F : Type 0} where
  abbrev pub quota : MockTenant F → Quota
  quota t = t.quota

  abbrev pub stats : TenantStats (MockTenant F)
  stats = record {
    bytes_on_disk = Mock.bytes_on_disk;
    record_count = Mock.record_count;
    memory_resident = Mock.memory_resident;
  }

  abbrev pub quotas : TenantQuota (MockTenant F)
  quotas = record { set_quota = Mock.set_quota; quota = quota; current_usage = Mock.current_usage }

  abbrev pub events : TenantEvents (MockTenant F × Channels)
  events = record {
    subscribe =
        λ filter w. let (stream, t, cs) = Mock.subscribe filter w.0 w.1 in (stream, (t, cs));
  }

  -- A quota is in force once it is set, whatever is in use, and the usage is what the counters say,
  -- before and after.
  quota-set_quota :
      (q : Quota) (t : MockTenant F)
      → let (result, t') = quotas.set_quota q t in
        (result ≡ ok tt)
        × (quotas.quota t' ≡ q)
        × (t'.records ≡ t.records)
        × (quotas.current_usage t'
            ≡ record { bytes = stats.bytes_on_disk t; records = stats.record_count t })
  unfolding Mock.set_quota Mock.current_usage Mock.bytes_on_disk Mock.record_count
  quota-set_quota q t = (refl, refl, refl, refl)
