-- ===== src/Base/Bits.antt =====
-- Facts about the bit operations: over a byte by a table, and `|` of disjoint fields as a sum.
use Prim.Native.Nat.{
  ℕ, zero, suc, ◌+◌, ◌*◌, ◌/◌, ◌%◌, ◌^◌, ◌≤◌, ◌<◌, min, max, bit_and, bit_or, digits,
  bit_and-bitwise, bit_or-bitwise,
}
use mathlib.Core.Path.{◌≡◌, refl, ◌∙◌, ap}
use mathlib.Core.Bool.{Bool, true, ◌&&◌}
use native.Mathlib.Nat.{pow-suc, div-add-mod, add-mul-mod_self_right, mod-eq_of_lt, mod-lt}
use native.Mathlib.Omega.{arith}

-- The test succeeds on every number below the bound.
unfoldable pub all_below : ℕ → (ℕ → Bool) → Bool
all_below zero test = true
all_below (suc bound) test = test bound && all_below bound test

pub all_below_sound :
    (bound : ℕ) (test : ℕ → Bool) (k : ℕ) → all_below bound test ≡ true → k < bound → test k ≡ true
unfolding all_below
all_below_sound zero test k passed small = absurd (omega arith)
all_below_sound (suc bound) test k passed small = ground (arith, all_below_sound bound test k)

-- `bit_or` on as many digits as the first argument says.
abbrev or_upto : ℕ → ℕ → ℕ → ℕ
or_upto k x y = digits (λ z. z) max k x y

or_upto_enough : (k l x y : ℕ) → x ≤ k → x ≤ l → or_upto k x y ≡ or_upto l x y
or_upto_enough zero zero x y p q = refl
or_upto_enough zero (suc l) zero y p q = refl
or_upto_enough zero (suc l) (suc x) y p q = absurd (omega arith)
or_upto_enough (suc k) zero zero y p q = refl
or_upto_enough (suc k) zero (suc x) y p q = absurd (omega arith)
or_upto_enough (suc k) (suc l) zero y p q = refl
or_upto_enough (suc k) (suc l) (suc x) y p q =
    omega (arith, or_upto_enough k l (suc x / 2) (y / 2) (omega arith) (omega arith))

pub bit_or-zero_left : (y : ℕ) → bit_or 0 y ≡ y
bit_or-zero_left y = bit_or-bitwise 0 y

pub bit_or_step : (x y : ℕ) → bit_or x y ≡ bit_or (x / 2) (y / 2) * 2 + max (x % 2) (y % 2)
bit_or_step zero y = omega (arith, bit_or-zero_left y, bit_or-zero_left (y / 2))
bit_or_step (suc x) y = omega (
  arith,
  bit_or-bitwise (suc x) y,
  bit_or-bitwise (suc x / 2) (y / 2),
  or_upto_enough x (suc x / 2) (suc x / 2) (y / 2) (omega arith) (omega arith),
)

-- `y * 2 ^ (k + 1)` is twice `y * 2 ^ k`.
shifted_suc : (k y : ℕ) → y * 2 ^ suc k ≡ (y * 2 ^ k) * 2
shifted_suc k y = rw pow-suc (omega arith)

-- Fields that do not overlap: `x | (y << k)` is a sum when x has at most k digits.
pub bit_or-shift : (k x y : ℕ) → x < 2 ^ k → bit_or x (y * 2 ^ k) ≡ x + y * 2 ^ k
bit_or-shift zero x y h = let e : x ≡ 0 = omega arith in rw (e, bit_or-zero_left) (omega arith)
bit_or-shift (suc k) x y h =
    let half : x / 2 < 2 ^ k = omega (arith, pow-suc 2 k) in
    rw shifted_suc (
      omega
        (arith, bit_or_step x ((y * 2 ^ k) * 2), halves (y * 2 ^ k), bit_or-shift k (x / 2) y half))
  where
    halves : (n : ℕ) → bit_or (x / 2) (n * 2 / 2) ≡ bit_or (x / 2) n
    halves n = let e : n * 2 / 2 ≡ n = omega arith in rw e

-- `bit_and` on as many digits as the first argument says.
abbrev and_upto : ℕ → ℕ → ℕ → ℕ
and_upto k x y = digits (λ z. zero) min k x y

and_upto_enough : (k l x y : ℕ) → x ≤ k → x ≤ l → and_upto k x y ≡ and_upto l x y
and_upto_enough zero zero x y p q = refl
and_upto_enough zero (suc l) zero y p q = refl
and_upto_enough zero (suc l) (suc x) y p q = absurd (omega arith)
and_upto_enough (suc k) zero zero y p q = refl
and_upto_enough (suc k) zero (suc x) y p q = absurd (omega arith)
and_upto_enough (suc k) (suc l) zero y p q = refl
and_upto_enough (suc k) (suc l) (suc x) y p q =
    omega (arith, and_upto_enough k l (suc x / 2) (y / 2) (omega arith) (omega arith))

bit_and-zero_left : (y : ℕ) → bit_and 0 y ≡ 0
bit_and-zero_left y = bit_and-bitwise 0 y

and_step : (x y : ℕ) → bit_and x y ≡ bit_and (x / 2) (y / 2) * 2 + min (x % 2) (y % 2)
and_step zero y = omega (arith, bit_and-zero_left y, bit_and-zero_left (y / 2))
and_step (suc x) y =
    let digits_agree =
      and_upto_enough x (suc x / 2) (suc x / 2) (y / 2) (omega arith) (omega arith) in
    omega (arith, digits_agree, bit_and-bitwise (suc x) y, bit_and-bitwise (suc x / 2) (y / 2))

bit_and-zero_upto : (k x : ℕ) → x ≤ k → bit_and x 0 ≡ 0
bit_and-zero_upto zero x h = let e : x ≡ 0 = omega arith in rw e (bit_and-zero_left 0)
bit_and-zero_upto (suc k) zero h = bit_and-zero_left 0
bit_and-zero_upto (suc k) (suc x) h =
    omega (arith, and_step (suc x) 0, bit_and-zero_upto k (suc x / 2) (omega arith))

-- A mask of k ones.
abbrev pub ones : ℕ → ℕ
ones zero = 0
ones (suc k) = ones k * 2 + 1

mod_double : (x p : ℕ) → 0 < p → x % (p * 2) ≡ (x / 2) % p * 2 + x % 2
mod_double x p h =
    let y = x / 2 in
    let low = y % p * 2 + x % 2 in
    let below : y % p * 2 + x % 2 < p * 2 = omega (arith, mod-lt y h) in
    let split : x ≡ (y % p * 2 + x % 2) + (y / p) * (p * 2) =
      omega (arith, ap (λ (t : ℕ). t * 2) (div-add-mod y p)) in
    ap (λ (t : ℕ). t % (p * 2)) split
    ∙ (add-mul-mod_self_right (y % p * 2 + x % 2) (y / p) (p * 2) ∙ mod-eq_of_lt below)

pow_pos : (k : ℕ) → 0 < 2 ^ k
pow_pos zero = omega arith
pow_pos (suc k) = omega (arith, pow-suc 2 k, pow_pos k)

-- A mask of k ones keeps the k lowest digits.
pub bit_and-ones : (k x : ℕ) → bit_and x (ones k) ≡ x % 2 ^ k
bit_and-ones zero x = omega (arith, bit_and-zero_upto x x (omega arith))
bit_and-ones (suc k) x =
    let half : (ones k * 2 + 1) / 2 ≡ ones k = omega arith in
    let odd : (ones k * 2 + 1) % 2 ≡ 1 = omega arith in
    and_step x (ones k * 2 + 1)
    ∙ rw (half, odd, bit_and-ones k (x / 2), pow-suc, mod_double x (2 ^ k) (pow_pos k))
        (omega arith)
