-- ===== src/Prelude/Outcome.antt =====
-- The outcome of a piece of the virtual machine: a value, or the reason why the process stopped.
use mathlib.Core.Path.{◌≡◌, refl}

-- `stack_error`, `wrong_type`: `ERROR` of lib/error.h (exit status 1). `todo`: `TODO` of the same
-- file. `assertion_failed`: `Assert_ASSERT` of lib/assert.h. `exception`: `throwException`.
-- `exited`: a call of `exit(0)`.
-- `undefined`: an access outside the memory that was allocated, or arithmetic that traps.
pub data Halt : Type 0 where
  stack_error wrong_type error todo assertion_failed exception undefined exited : Halt

pub data Run {ℓ} (X : Type ℓ) : Type ℓ where
  halt : Halt → Run X
  ok : X → Run X

-- The second piece runs if the first one returns.
infixl 5 ◌>>=◌
abbrev pub ◌>>=◌ {ℓ κ} : {X : Type ℓ} {Y : Type κ} (first : Run X) (next : X → Run Y) → Run Y
halt reason >>= next = halt reason
ok x >>= next = next x

pub >>=-ok {ℓ κ} :
    {X : Type ℓ} {Y : Type κ} (first : Run X) (next : X → Run Y) (x : X)
    → first ≡ ok x
    → (first >>= next) ≡ next x
>>=-ok first next x h = rw h refl

-- The run does not stop the process, and what it returns is `good`.
abbrev pub Returns {κ ℓ} : {X : Type ℓ} (run : Run X) (good : X → Type κ) → Type (ℓ ⊔ κ)
Returns {X} run good = (x : X) × (run ≡ ok x) × good x
