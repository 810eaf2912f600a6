-- ===== src/Tenant/Engine.antt =====
-- `skeg_vector::DiskVamanaIndex`, a package that crates/skeg-rigging-skeg/src/tenant.rs calls, as
-- an interface over its state `I`, and what its documentation promises of reads after writes.
use skeg_rigging.Base.{ℕ, ◌≡◌, ◌≢◌, Option, some, List, Result, ok}
use skeg_rigging.Error.{IoError}

pub record Index (I F : Type 0) : Type 0 where
  pub insert : ℕ → List F → I → Result IoError (Unit {0}) × I
  pub get : ℕ → I → Result IoError (Option (List F))
  pub search : List F → ℕ → I → Result IoError (List (ℕ × F))
  pub consolidate : I → Result IoError (Unit {0}) × I

-- A vector is read back as it was inserted, and no other one changes.
pub record IndexLaws (I F : Type 0) ⦃e : Index I F⦄ : Type 0 where
  pub get-insert :
      (id : ℕ) (v : List F) (i i' : I) → e.insert id v i ≡ (ok tt, i') → e.get id i' ≡ ok (some v)
  pub get-insert_ne :
      (id j : ℕ) (v : List F) (i i' : I)
      → e.insert id v i ≡ (ok tt, i')
      → id ≢ j
      → e.get j i' ≡ e.get j i
