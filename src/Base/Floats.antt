-- ===== src/Base/Floats.antt =====
-- float64, as a type with the operations that the code uses.
use Prim.Native.Nat.{ℕ, ◌+◌, ◌-◌, ◌*◌, ◌/◌}
use mathlib.Core.Path.{◌≡◌}
use mathlib.Core.Bool.{Bool, true, false}
use native.Mathlib.Omega.{arith}
use pmi.Base.Tests.{ltb, leb, ◌==◌}

-- The operations on float64, and the conversion of a whole number.
pub record FloatOps {ℓ} (F : Type ℓ) : Type ℓ where
  pub of_nat : ℕ → F
  pub add : F → F → F
  pub sub : F → F → F
  pub mul : F → F → F
  pub div : F → F → F
  -- `a < b`
  pub less : F → F → Bool
  -- `a <= b`
  pub at_most : F → F → Bool
  -- `a == b`
  pub same : F → F → Bool

-- `<` as the comparison of floats that are numbers: no float is less than itself or than one that
-- is less than it, and a float not less than a second, which is not less than a third, is not
-- less than the third.
pub record IsOrder {ℓ} {F : Type ℓ} (ops : FloatOps F) : Type ℓ where
  pub irreflexive : (a : F) → ops.less a a ≡ false
  pub asymmetric : (a b : F) → ops.less a b ≡ true → ops.less b a ≡ false
  pub negative_trans :
      (a b c : F) → ops.less a b ≡ false → ops.less b c ≡ false → ops.less a c ≡ false

-- The operations on natural numbers, for runs.
abbrev pub nat_ops : FloatOps ℕ
nat_ops = record {
  of_nat = λ n. n;
  add = λ a b. a + b;
  sub = λ a b. a - b;
  mul = λ a b. a * b;
  div = λ a b. a / b;
  less = ltb;
  at_most = leb;
  same = ◌==◌;
}

nat_ops-IsOrder : IsOrder nat_ops
nat_ops-IsOrder = record {
  irreflexive = λ a. ground arith;
  asymmetric = λ a b e. ground arith;
  negative_trans = λ a b c e f. ground arith;
}
