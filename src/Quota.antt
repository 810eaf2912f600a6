-- ===== src/Quota.antt =====
-- crates/skeg-rigging/src/accounting.rs: the caps of a tenant and its consumption.
use skeg_rigging.Base.{ℕ, Bool, true, false, ◌&&◌, Option, none, some}

pub record Quota : Type 0 where
  pub max_bytes : Option ℕ
  pub max_records : Option ℕ

abbrev pub unlimited : Quota
unlimited = record { max_bytes = none; max_records = none }

abbrev is_none : Option ℕ → Bool
is_none none = true
is_none (some _) = false

unfoldable pub is_unlimited : Quota → Bool
is_unlimited q = is_none q.max_bytes && is_none q.max_records

pub record Usage : Type 0 where
  pub bytes : ℕ
  pub records : ℕ
