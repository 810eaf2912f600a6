-- ===== src/Tenant/Managed.antt =====
-- The traits of an orchestrator on the `Tenant` of crates/skeg-rigging-skeg/src/tenant.rs.
use skeg_rigging.Manage.{TenantInfo, TenantLifecycle, TenantStats, TenantEvents}
use skeg_rigging.Tenant
use skeg_rigging.Tenant.Lifecycle
use skeg_rigging.Tenant.Lifecycle.{Host}
use skeg_rigging.Tenant.Writer.{Session}

module _ {I : Type 0} where
  abbrev pub info : TenantInfo (Session I)
  info = record {
    tenant_id = λ w. w.tenant.tenant_id;
    embedding_dim = λ w. w.tenant.embedding_dim;
    record_count = λ w. Tenant.record_count w.tenant;
    capabilities = λ w. Lifecycle.capabilities w.tenant;
  }

  abbrev pub events : TenantEvents (Session I)
  events = record {
    subscribe = λ filter w.
        let (stream, t, cs) = Tenant.subscribe filter w.tenant w.channels in
        (stream, record w { tenant = t; channels = cs });
  }

module _ {I : Type 0} (host : Host I) where
  abbrev pub stats : TenantStats (Session I)
  stats = record {
    bytes_on_disk = λ w. Lifecycle.bytes_on_disk host w.tenant w.dirs;
    record_count = λ w. info.record_count w;
    memory_resident = λ w. Lifecycle.memory_resident w.tenant;
  }

  -- A tenant that was destroyed is only dropped.
  abbrev pub lifecycle : TenantLifecycle (Session I)
  lifecycle = record {
    snapshot = λ dest w.
        let (result, dirs) = Lifecycle.snapshot host w.tenant dest w.dirs in
        (result, record w { dirs = dirs });
    destroy = λ w.
        let (result, dirs) = Lifecycle.destroy host w.tenant w.dirs in
        (result, record w { dirs = dirs });
  }
