-- ===== src/Manage.antt =====
-- The traits by which an orchestrator manages a tenant: lifecycle.rs and accounting.rs of
-- crates/skeg-rigging/src, and `TenantEvents` of its events.rs. A record is over what the methods
-- read and change: the tenant with the channels and the directories.
use skeg_rigging.Base.{ℕ, List, Result}
use skeg_rigging.Error.{QuotaError, OpenError}
use skeg_rigging.Event.{EventFilter}
use skeg_rigging.Event.Stream.{EventStream}
use skeg_rigging.Ids.{TenantId}
use skeg_rigging.Quota.{Quota, Usage}
use skeg_rigging.Text.{Str, codes}
use skeg_rigging.Text.Paths.{FilePath}

pub record CapabilityId : Type 0 where
  pub id : Str

-- Also what `Display` prints.
abbrev pub as_str : CapabilityId → Str
as_str c = c.id

abbrev pub cap_vector_kv : CapabilityId
cap_vector_kv = record { id = codes "vector.kv" }

abbrev pub cap_vector_quantized : CapabilityId
cap_vector_quantized = record { id = codes "vector.quantized" }

pub record TenantInfo (W : Type 0) : Type 0 where
  pub tenant_id : W → TenantId
  pub embedding_dim : W → ℕ
  pub record_count : W → ℕ
  pub capabilities : W → List CapabilityId

pub record TenantLifecycle (W : Type 0) : Type 0 where
  pub snapshot : FilePath → W → Result OpenError (Unit {0}) × W
  pub destroy : W → Result OpenError (Unit {0}) × W

pub record TenantStats (W : Type 0) : Type 0 where
  pub bytes_on_disk : W → ℕ
  pub record_count : W → ℕ
  pub memory_resident : W → ℕ

pub record TenantQuota (W : Type 0) : Type 0 where
  pub set_quota : Quota → W → Result QuotaError (Unit {0}) × W
  pub quota : W → Quota
  pub current_usage : W → Usage

pub record TenantEvents (W : Type 0) : Type 0 where
  pub subscribe : EventFilter → W → EventStream × W
