-- ===== src/Filter.antt =====
-- crates/skeg-rigging/src/filter.rs: what a filter sees of a candidate, and a hit.
use skeg_rigging.Base.{ℕ, Bool, List, Option, Result, Outcome}
use skeg_rigging.Ids.{RecordId}
use skeg_rigging.Error.{QueryError}
use skeg_rigging.Text.{Str}

pub record RecordMeta : Type 0 where
  pub record_id : RecordId
  pub shareable : Bool
  pub tags : List Str

-- `dyn Filter`: any predicate over the metadata, such as a closure.
abbrev pub Filter : Type 0
Filter = RecordMeta → Bool

pub record Hit (F : Type 0) : Type 0 where
  pub record_id : RecordId
  pub similarity : F
  pub payload : List ℕ
  pub embedding : Option (List F)

-- The trait, over a tenant `T`; a call may panic.
pub record QueryFiltered (T F : Type 0) : Type 0 where
  pub query_filtered : List F → ℕ → Filter → T → Outcome (Result QueryError (List (Hit F)))
