-- ===== src/Write.antt =====
-- crates/skeg-rigging/src/write.rs: the write side of a tenant as an interface over a state `W`,
-- and the `Embed` interface of crates/skeg-rigging-ingest/src/embed.rs.
use skeg_rigging.Base.{ℕ, Bool, List, Result}
use skeg_rigging.Ids.{RecordId}
use skeg_rigging.Text.{Str}

-- The arguments of `insert`.
pub record NewRecord (F : Type 0) : Type 0 where
  pub record_id : RecordId
  pub embedding : List F
  pub shareable : Bool
  pub tags : List Str
  pub payload : List ℕ

pub record TenantWrite (W F E : Type 0) : Type 0 where
  pub insert : NewRecord F → W → Result E (Unit {0}) × W
  pub flush : W → Result E (Unit {0}) × W
  pub embedding_dim : W → ℕ

-- `X` stands for what a backend fails with.
pub record Embed (F X : Type 0) : Type 0 where
  pub dim : ℕ
  pub passage : Str → Result X (List F)
  pub query : Str → Result X (List F)
