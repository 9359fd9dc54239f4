-- ===== src/Prelude/Results.antt =====
-- How a step of the program can end besides returning: the aborts of PENET_ABORT, and the faults
-- that the C++ language leaves undefined.
use mathlib.Core.Path.{◌≡◌, refl}
use mathlib.Core.Logic.{◌⊎◌, inl, inr}
use mathlib.Core.Bool.{Bool, true, false}

-- `abort`: PENET_ABORT or an exception that nothing catches. `dangling`: a pointer to an object that
-- was destroyed. `out_of_bounds`: a write past the end of an array. `overread`: a read past the end.
-- `null_pointer`: a read or write through a null pointer. `zero_divisor`: a division by zero.
pub data Fault : Type 0 where
  abort dangling out_of_bounds overread null_pointer zero_divisor : Fault

pub data Result {ℓ} (A : Type ℓ) : Type ℓ where
  ok : A → Result A
  err : Fault → Result A

-- What `do` writes out: the next step runs on the value, and a fault ends the run.
infixl 5 ◌>>=◌
infixl 5 ◌>>◌
abbrev pub ◌>>=◌ {κ ℓ} : {B : Type κ} {A : Type ℓ} → Result A → (A → Result B) → Result B
err fault >>= next = err fault
ok value >>= next = next value

abbrev pub ◌>>◌ {κ} : {B : Type κ} → Result (Unit {0}) → Result B → Result B
check >> next = check >>= λ _. next

-- A check that the source writes as `if (!b) PENET_ABORT(...)`, or that the language demands.
abbrev pub require : Bool → Fault → Result (Unit {0})
require false fault = err fault
require true fault = ok tt

pub Result-cases {ℓ} :
    {A : Type ℓ} (m : Result A) → ((a : A) × (m ≡ ok a)) ⊎ ((e : Fault) × (m ≡ err e))
Result-cases (ok a) = inl (a, refl)
Result-cases (err e) = inr (e, refl)
