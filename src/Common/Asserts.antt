-- ===== src/Common/Asserts.antt =====
-- Code that may fail an assertion.
use mathlib.Core.Bool.{Bool, true, false}

-- `aborted` is a failed ASSERT, which calls Abort, a fault of the host, or a call of Halt: control
-- does not come back.
pub data Outcome {ℓ} (A : Type ℓ) : Type ℓ where
  ok : A → Outcome A
  aborted : Outcome A

infixl 5 ◌>>=◌ ◌>>◌
abbrev pub ◌>>=◌ {ℓ κ} : {A : Type ℓ} {B : Type κ} → Outcome A → (A → Outcome B) → Outcome B
ok a >>= f = f a
aborted >>= f = aborted

abbrev pub ◌>>◌ {ℓ} : {B : Type ℓ} → Outcome (Unit {0}) → Outcome B → Outcome B
m >> k = m >>= λ _. k

abbrev pub assert : Bool → Outcome (Unit {0})
assert true = ok tt
assert false = aborted
