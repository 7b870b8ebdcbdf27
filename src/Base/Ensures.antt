-- ===== src/Base/Ensures.antt =====
-- The rules for statements about every result of a computation.
use mathlib.Core.Path.{◌≡◌, subst}
use mathlib.Core.Bool.{Bool, true, false}
use qaoed.Base.Tests.{if◌then◌else◌}
use qaoed.Base.Results.{Outcome, done, fault, blocked, ◌>>=◌, >>=-eq-done}

abbrev pub Ensures {ℓ} : {A : Type 0} → (A → Type ℓ) → Outcome A → Type ℓ
Ensures {A = A} P m = (r : A) → m ≡ done r → P r

module _ {ℓ} {A B : Type 0} (P : B → Type ℓ) where
  pub bind-Ensures :
      (m : Outcome A) (f : A → Outcome B)
      → ((a : A) → m ≡ done a → Ensures P (f a))
      → Ensures P (m >>= f)
  bind-Ensures m f after r h = let (a, e, h') = >>=-eq-done m f h in after a e r h'

module _ {ℓ} {B : Type 0} (P : B → Type ℓ) where
  pub done-Ensures : (r : B) → P r → Ensures P (done r)
  done-Ensures r holds r' h = let e : r ≡ r' = cc h in subst P e holds

  pub fault-Ensures : Ensures P fault
  fault-Ensures r h = absurd (cc h)

  pub blocked-Ensures : Ensures P blocked
  blocked-Ensures r h = absurd (cc h)

  pub if-Ensures :
      (b : Bool) (m n : Outcome B) → Ensures P m → Ensures P n → Ensures P (if b then m else n)
  if-Ensures true m n p q = p
  if-Ensures false m n p q = q
