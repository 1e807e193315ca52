-- ===== src/Base/Fallible.antt =====
-- Results of code whose accesses can go wrong. `fault` is undefined behaviour or an exception that
-- nothing catches: a read or write out of range, a missing terminator, an overflowing `int`.
-- `stuck` is no result of the program: a loop of the model used up its fuel.
use mathlib.Core.Option.{Option, none, some}

pub data Outcome {ℓ} (A : Type ℓ) : Type ℓ where
  ok : A → Outcome A
  fault : Outcome A
  stuck : Outcome A

infixl 5 ◌>>=◌
abbrev pub ◌>>=◌ {ℓ κ} : {A : Type ℓ} {B : Type κ} → Outcome A → (A → Outcome B) → Outcome B
ok a >>= f = f a
fault >>= f = fault
stuck >>= f = stuck

abbrev pub or_fault {ℓ} : {A : Type ℓ} → Option A → Outcome A
or_fault none = fault
or_fault (some a) = ok a
