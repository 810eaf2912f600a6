-- ===== src/Float.antt =====
-- `f32`, as a parameter: the type with the operations that the sources call, and the laws of its
-- comparison on the values that are numbers.
use Prim.Native.Nat.{eq, gt}
use skeg_rigging.Base.{◌≡◌, Bool, true, false, Option, some, Ordering}

pub record Float (F : Type 0) : Type 0 where
  pub zero : F
  pub one : F
  pub add : F → F → F
  pub mul : F → F → F
  pub div : F → F → F
  pub sqrt : F → F
  pub partial_cmp : F → F → Option Ordering

abbrev pub is_eq : Option Ordering → Bool
is_eq (some eq) = true
is_eq _ = false

abbrev pub is_gt : Option Ordering → Bool
is_gt (some gt) = true
is_gt _ = false

module _ {F : Type 0} ⦃f : Float F⦄ where
  -- `a == b` and `a > b`
  abbrev pub float_eq : F → F → Bool
  float_eq a b = is_eq (f.partial_cmp a b)

  abbrev pub float_gt : F → F → Bool
  float_gt a b = is_gt (f.partial_cmp a b)

  -- A value that is equal to itself: every one but the NaNs.
  abbrev pub IsNumber : F → Type 0
  IsNumber a = float_eq a a ≡ true

-- IEEE 754 orders the numbers totally.
pub record FloatLaws (F : Type 0) ⦃f : Float F⦄ : Type 0 where
  pub gt_asymm : (a b : F) → float_gt a b ≡ true → float_gt b a ≡ false
  pub not_gt_trans :
      (a b c : F)
      → IsNumber a
      → IsNumber b
      → IsNumber c
      → float_gt a b ≡ false
      → float_gt b c ≡ false
      → float_gt a c ≡ false
