-- ===== src/Prelude/Results.antt =====
-- Calls that may throw, over objects that they change.
use mathlib.Core.Path.{◌≡◌}

-- `logic_error` is what SRV_ASSERT and SRV_ERROR throw. `undefined` marks a point where C++
-- leaves the behaviour undefined; the model stops there as it does at a throw.
pub data Error : Type 0 where
  logic_error : Error
  out_of_range : Error
  invalid_argument : Error
  failure : Error
  undefined : Error

-- A call with a value and no effect.
pub data Result {ℓ} (A : Type ℓ) : Type ℓ where
  ok : A → Result A
  err : Error → Result A

-- A call that changes an object: the object after it, also when the call threw.
pub data Outcome {ℓ} (A : Type ℓ) : Type ℓ where
  returned : A → Outcome A
  thrown : Error → A → Outcome A

infixl 5 ◌>>=◌
abbrev pub ◌>>=◌ {ℓ κ} : {A : Type ℓ} {B : Type κ} → Result A → (A → Result B) → Result B
ok a >>= f = f a
err e >>= f = err e

-- The object left behind.
abbrev pub object {ℓ} : {A : Type ℓ} → Outcome A → A
object (returned a) = a
object (thrown e a) = a

pub returned-injective {ℓ} : {A : Type ℓ} {a b : A} → returned a ≡ returned b → a ≡ b
returned-injective h = cc

pub thrown-injective {ℓ} :
    {A : Type ℓ} {a b : A} {e f : Error} → thrown e a ≡ thrown f b → (e ≡ f) × (a ≡ b)
thrown-injective h = (cc, cc)
