-- ===== src/Usage/Floats.antt =====
-- The operations of `float64` that the program uses. The type is a parameter of the model, so that
-- rounding is not left out: what is proved holds for any such operations.
use my_token.Base.{ℕ, Bool, ◌≡◌, true, false}

pub record Float64 (F : Type 0) : Type 0 where
  -- `float64(n)`, of the bit pattern of an `int64`
  pub of_int64 : ℕ → F
  -- the literal m · 10^-k
  pub decimal : ℕ → ℕ → F
  pub plus : F → F → F
  pub times : F → F → F
  pub over : F → F → F
  -- `a != b` is `not (same a b)`
  pub same : F → F → Bool
  pub less : F → F → Bool

-- What IEEE 754 states of the comparisons where no operand is a NaN.
pub record IsOrdered {F : Type 0} (fl : Float64 F) : Type 0 where
  pub same_of_not : (a b : F) → fl.less a b ≡ false → fl.less b a ≡ false → fl.same a b ≡ true
  pub less_asymm : (a b : F) → fl.less a b ≡ true → fl.less b a ≡ false
  pub less_trans : (a b c : F) → fl.less a b ≡ true → fl.less b c ≡ true → fl.less a c ≡ true
  pub same_trans : (a b c : F) → fl.same a b ≡ true → fl.same b c ≡ true → fl.same a c ≡ true
  pub same_symm : (a b : F) → fl.same a b ≡ true → fl.same b a ≡ true
  pub less_same : (a b c : F) → fl.less a b ≡ true → fl.same b c ≡ true → fl.less a c ≡ true
  pub same_less : (a b c : F) → fl.same a b ≡ true → fl.less b c ≡ true → fl.less a c ≡ true
