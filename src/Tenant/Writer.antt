-- ===== src/Tenant/Writer.antt =====
-- `impl TenantWrite for Tenant` of crates/skeg-rigging-skeg/src/tenant.rs: what the ingest writes
-- through.
use skeg_rigging.Base.{Result}
use skeg_rigging.Error.{TenantError}
use skeg_rigging.Event.Channel.{Channels}
use skeg_rigging.Fs.Tree.{Dirs}
use skeg_rigging.Write.{NewRecord, TenantWrite}
use skeg_rigging.Tenant
use skeg_rigging.Tenant.{Tenant}
use skeg_rigging.Tenant.Engine.{Index}
use skeg_rigging.Tenant.Lifecycle.{Host, flush}

-- A tenant with the channels and the directories that its calls change.
pub record Session (I : Type 0) : Type 0 where
  pub tenant : Tenant I
  pub channels : Channels
  pub dirs : Dirs

abbrev pub write_flush :
    {I : Type 0} → Host I → Session I → Result TenantError (Unit {0}) × Session I
write_flush host w =
    let (result, dirs) = flush host w.tenant w.dirs in (result, record w { dirs = dirs })

module _ {I F : Type 0} ⦃e : Index I F⦄ (host : Host I) where
  abbrev pub write_insert : NewRecord F → Session I → Result TenantError (Unit {0}) × Session I
  write_insert rec w =
      let (result, t, cs) = Tenant.insert rec w.tenant w.channels in
      (result, record { tenant = t; channels = cs; dirs = w.dirs })

  abbrev pub tenant_writer : TenantWrite (Session I) F TenantError
  tenant_writer = record {
    insert = write_insert;
    flush = write_flush host;
    embedding_dim = λ w. w.tenant.embedding_dim;
  }
