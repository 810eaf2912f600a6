-- ===== src/Tenant/Sidecar.antt =====
-- crates/skeg-rigging-skeg/src/meta_sidecar.rs: the metadata of the records, without their vectors.
use skeg_rigging.Base.{ℕ, Bool, true, false, Option, List, [], ◌∷◌}
use skeg_rigging.Base.Keyed
use skeg_rigging.Ids.{RecordId, TenantId}
use skeg_rigging.Text.{Str}

pub record RecordEntry : Type 0 where
  pub record_id : ℕ
  pub shareable : Bool
  pub tags : List Str
  pub payload : List ℕ

pub record MetadataSidecar : Type 0 where
  pub tenant_id : TenantId
  pub embedding_dim : ℕ
  pub records : List RecordEntry

abbrev pub entry_key : RecordEntry → ℕ
entry_key r = r.record_id

unfoldable pub empty : TenantId → ℕ → MetadataSidecar
empty tenant_id embedding_dim = record {
  tenant_id = tenant_id;
  embedding_dim = embedding_dim;
  records = [];
}

unfoldable pub get : RecordId → MetadataSidecar → Option RecordEntry
get id s = Keyed.lookup entry_key id s.records

abbrev no_entries : List RecordEntry → Bool
no_entries [] = true
no_entries (_ ∷ _) = false

unfoldable pub is_empty : MetadataSidecar → Bool
is_empty s = no_entries s.records
