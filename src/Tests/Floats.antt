-- ===== src/Tests/Floats.antt =====
-- A model of the `f32` parameter by whole numbers.
use Prim.Native.Nat.{compare}
use skeg_rigging.Base.{ℕ, ◌+◌, ◌*◌, ◌/◌, some, arith}
use skeg_rigging.Float.{Float, FloatLaws}

instance abbrev pub Float-ℕ : Float ℕ
Float-ℕ = record {
  zero = 0;
  one = 1;
  add = λ a b. a + b;
  mul = λ a b. a * b;
  div = λ a b. a / b;
  sqrt = λ a. a;
  partial_cmp = λ a b. some (compare a b);
}

pub FloatLaws-ℕ : FloatLaws ℕ
FloatLaws-ℕ = record {
  gt_asymm = λ a b h. ground arith;
  not_gt_trans = λ a b c pa pb pc h k. ground arith;
}
