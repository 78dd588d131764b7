-- ===== src/Base/Float.antt =====
-- The f32 arithmetic of the language, as an interface: the operations the code uses, with the
-- documented facts on the order of finite values that a lemma needs named apart.
use Prim.Native.Nat.{ℕ}
use mathlib.Core.Path.{◌≡◌}
use mathlib.Core.Bool.{Bool, true, false}

-- `less a b` is `a < b` and `at_most a b` is `a <= b`, both false where one of them is NaN.
pub record Floats : Type 1 where
  pub F : Type 0
  pub nought : F
  pub one : F
  pub neg_infinity : F
  pub of_nat : ℕ → F
  pub less : F → F → Bool
  pub at_most : F → F → Bool
  pub same : F → F → Bool
  pub is_finite : F → Bool
  pub add : F → F → F
  pub sub : F → F → F
  pub mul : F → F → F
  pub div : F → F → F
  pub max : F → F → F
  pub min : F → F → F
  pub neg : F → F
  pub exp : F → F
  pub ln : F → F

-- IEEE 754: on finite values `<` is a strict total order up to equality, and all lie above -∞.
pub record IsOrdered (fl : Floats) : Type 0 where
  pub above : (a : fl.F) → fl.is_finite a ≡ true → fl.less fl.neg_infinity a ≡ true
  pub irrefl : (a : fl.F) → fl.less a a ≡ false
  pub trans : (a b c : fl.F) → fl.less a b ≡ true → fl.less b c ≡ true → fl.less a c ≡ true
  pub neg_trans :
      (a b c : fl.F)
      → fl.is_finite a ≡ true
      → fl.is_finite b ≡ true
      → fl.is_finite c ≡ true
      → fl.less a b ≡ false
      → fl.less b c ≡ false
      → fl.less a c ≡ false
