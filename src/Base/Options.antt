-- ===== src/Base/Options.antt =====
-- Chains of calls that give a value or nothing, and the early returns between them.
use mathlib.Core.Path.{◌≡◌, refl}
use mathlib.Core.Bool.{Bool, true, false}
use mathlib.Core.Option.{Option, none, some}
use native.Mathlib.Omega.{arith}

infixl 5 ◌>>=◌ ◌>>◌
unfoldable pub ◌>>=◌ : {A B : Type 0} → Option A → (A → Option B) → Option B
none >>= f = none
some a >>= f = f a

-- `if test { return none }`
unfoldable pub stop_if : Bool → Option (Unit {0})
stop_if true = none
stop_if false = some tt

unfoldable pub ◌>>◌ : {B : Type 0} → Option (Unit {0}) → Option B → Option B
unfolding ◌>>=◌
m >> k = m >>= λ _. k

pub bind_some :
    {A B : Type 0} {m : Option A} {f : A → Option B} {b : B}
    → (m >>= f) ≡ some b
    → (a : A) × (m ≡ some a) × (f a ≡ some b)
unfolding ◌>>=◌
bind_some {m = none} h = ground (arith, h)
bind_some {m = some a} h = (a, refl, h)

pub stop_if_passes :
    {B : Type 0} {test : Bool} {k : Option B} {b : B}
    → (stop_if test >> k) ≡ some b
    → (test ≡ false) × (k ≡ some b)
unfolding ◌>>=◌ ◌>>◌ stop_if
stop_if_passes {test = true} h = ground (arith, h)
stop_if_passes {test = false} h = (refl, h)

module _ {A B : Type 0} (m : Option A) (f : A → Option B) (a : A) where
  pub bind-some : m ≡ some a → (m >>= f) ≡ f a
  unfolding ◌>>=◌
  bind-some e = rw e refl

module _ {B : Type 0} (test : Bool) (k : Option B) where
  pub stop_if-false : test ≡ false → (stop_if test >> k) ≡ k
  unfolding ◌>>=◌ ◌>>◌ stop_if
  stop_if-false e = rw e refl
