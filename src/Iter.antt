-- ===== src/Iter.antt =====
-- crates/skeg-rigging/src/iter.rs: the trait `IterVectors`, and what it asks of its three methods:
-- one vector per record, and all of the dimension that is reported.
use skeg_rigging.Base.{ℕ, ◌≡◌, some, List, length, All, as_u32, as_u64, Outcome}
use skeg_rigging.Base.Keyed
use skeg_rigging.Ids.{RecordId}
use skeg_rigging.Filter.{Hit}

-- The trait, over a tenant `T`; a call may panic.
pub record IterVectors (T F : Type 0) : Type 0 where
  pub iter_vectors : T → Outcome (List (RecordId × List F))
  pub record_count : T → Outcome ℕ
  pub embedding_dim : T → Outcome ℕ

abbrev pub pair_id : {F : Type 0} → RecordId × List F → ℕ
pair_id p = p.0

abbrev pub IsVector : {F : Type 0} → ℕ → RecordId × List F → Type 0
IsVector dim p = as_u32 (length p.1) ≡ dim

-- Of what `iter_vectors`, `record_count` and `embedding_dim` answer.
pub record IsIterated {F : Type 0} (vectors : List (RecordId × List F)) (count dim : ℕ)
    : Type 0 where
  pub ids : Keyed.Distinct pair_id vectors
  pub counted : count ≡ as_u64 (length vectors)
  pub dims : All (IsVector dim) vectors

-- A hit is of a record that an iteration yields, and carries the vector that it yields.
abbrev pub IsYielded : {F : Type 0} → List (RecordId × List F) → Hit F → Type 0
IsYielded {F = F} vectors h =
    (v : List F) × (Keyed.lookup pair_id h.record_id vectors ≡ some (h.record_id, v))
    × (h.embedding ≡ some v)
