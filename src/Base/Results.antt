-- ===== src/Base/Results.antt =====
-- What a call of a C function can come to: a result, undefined behaviour (a read outside a buffer
-- or through a NULL or freed pointer), or a wait that nothing ends.
use mathlib.Core.Path.{◌≡◌, refl}
use mathlib.Core.Option.{Option, none, some}

pub data Outcome {ℓ} (A : Type ℓ) : Type ℓ where
  done : A → Outcome A
  fault : Outcome A
  blocked : Outcome A

infixl 5 ◌>>=◌
abbrev pub ◌>>=◌ {ℓ κ} : {A : Type ℓ} {B : Type κ} → Outcome A → (A → Outcome B) → Outcome B
done a >>= f = f a
fault >>= f = fault
blocked >>= f = blocked

-- A pointer that must not be NULL, a read that must stay in its buffer.
abbrev pub valid {ℓ} : {A : Type ℓ} → Option A → Outcome A
valid none = fault
valid (some a) = done a

-- Inversion of a bind that gave a result.
pub >>=-eq-done {ℓ κ} :
    {A : Type ℓ} {B : Type κ} (m : Outcome A) (f : A → Outcome B) {b : B}
    → (m >>= f) ≡ done b
    → (a : A) × (m ≡ done a) × (f a ≡ done b)
>>=-eq-done (done a) f h = (a, refl, h)
>>=-eq-done fault f h = cc
>>=-eq-done blocked f h = cc
