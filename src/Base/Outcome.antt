-- ===== src/Base/Outcome.antt =====
-- What a call of the runtime may end in: a value, or the end of the process.
use mathlib.Core.Path.{◌≡◌, refl}
use mathlib.Core.Bool.{Bool, true, false}

-- A failed `assert`; dereferences of `end()` and of a null pointer, operands that a call does not
-- have, and uses of what was erased, which are undefined. `not_a_number` is the exception of
-- `std::stoi`. `unfinished` stands for no end: a loop has used up the rounds that it was given.
pub data Failure : Type 0 where
  assertion_failed : Failure
  end_dereferenced : Failure
  null_dereferenced : Failure
  operand_missing : Failure
  erased_used : Failure
  not_a_number : Failure
  unfinished : Failure

pub data Outcome {ℓ} (A : Type ℓ) : Type ℓ where
  ok : A → Outcome A
  fails : Failure → Outcome A

infixl 5 ◌>>=◌ ◌>>◌
abbrev pub ◌>>=◌ {ℓ κ} : {B : Type κ} → {A : Type ℓ} → Outcome A → (A → Outcome B) → Outcome B
fails why >>= next = fails why
ok x >>= next = next x

abbrev pub ◌>>◌ {ℓ} : {A : Type ℓ} → Outcome (Unit {0}) → Outcome A → Outcome A
first >> second = first >>= λ _. second

-- `assert(b)`
abbrev pub require : Bool → Outcome (Unit {0})
require true = ok tt
require false = fails assertion_failed

-- Two calls in a row return only when the first returns, with the value the second one starts from.
pub >>=_returned {ℓ κ} :
    {A : Type ℓ} {B : Type κ} {y : B} (next : A → Outcome B) (first : Outcome A)
    → first >>= next ≡ ok y
    → (x : A) × (first ≡ ok x) × (next x ≡ ok y)
>>=_returned next (fails why) returned = cc
>>=_returned next (ok x) returned = (x, refl, returned)
