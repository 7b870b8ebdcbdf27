-- ===== src/Base/Maps.antt =====
-- Memory as a function from addresses: a write at one address.
use mathlib.Core.Path.{◌≡◌}
use mathlib.Core.Logic.{◌≢◌}
use native.Mathlib.Omega.{arith}
use Prim.Native.Nat.{ℕ}
use qaoed.Base.Tests.{◌==◌, if◌then◌else◌}

abbrev pub write {ℓ} : {A : Type ℓ} → (ℕ → A) → ℕ → A → ℕ → A
write f p a q = if q == p then a else f q

module _ {ℓ} {A : Type ℓ} (f : ℕ → A) (a : A) where
  pub write_self : (p : ℕ) → write f p a p ≡ a
  write_self p = ground arith

  pub write_ne : (p q : ℕ) → q ≢ p → write f p a q ≡ f q
  write_ne p q h = ground arith
