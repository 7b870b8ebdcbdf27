-- ===== src/Wire/Order.antt =====
-- include/byteorder.h and the host's `htons`.
use qaoed.Base.{ℕ, ◌/◌, ◌%◌, ◌^◌, ◌<◌, ◌≡◌, refl, arith, ◌⊎◌, inl, inr}
use qaoed.Wire.{ByteOrder, little, big, Host, swab16, swab32, swab64}

pub ByteOrder-cases : (o : ByteOrder) → (o ≡ little) ⊎ (o ≡ big)
ByteOrder-cases little = inl refl
ByteOrder-cases big = inr refl

pub swab16-lt : (x : ℕ) → swab16 x < 65536
unfolding swab16
swab16-lt x = omega arith

pub swab16-swab16 : (x : ℕ) → x < 65536 → swab16 (swab16 x) ≡ x
unfolding swab16
swab16-swab16 x h = omega arith

swab32-lt : (x : ℕ) → swab32 x < 2 ^ 32
unfolding swab32
swab32-lt x = omega (arith, swab16-lt (x % 65536), swab16-lt (x / 65536))

swab32-swab32 : (x : ℕ) → x < 2 ^ 32 → swab32 (swab32 x) ≡ x
unfolding swab32
swab32-swab32 x h =
    let lo = swab16-lt (x / 65536) in
    let high : (swab32 x) / 65536 ≡ swab16 (x % 65536) = omega (arith, lo) in
    let low : (swab32 x) % 65536 ≡ swab16 (x / 65536) = omega (arith, lo) in
    rw (high, low, swab16-swab16 (x % 65536) (omega arith), swab16-swab16 (x / 65536) (omega arith))
      (omega arith)

swab64-swab64 : (x : ℕ) → x < 2 ^ 64 → swab64 (swab64 x) ≡ x
unfolding swab64
swab64-swab64 x h =
    let lo = swab32-lt (x / 2 ^ 32) in
    let high : (swab64 x) / 2 ^ 32 ≡ swab32 (x % 2 ^ 32) = omega (arith, lo) in
    let low : (swab64 x) % 2 ^ 32 ≡ swab32 (x / 2 ^ 32) = omega (arith, lo) in
    rw
      (
        high,
        low,
        swab32-swab32 (x % 2 ^ 32) (omega arith),
        swab32-swab32 (x / 2 ^ 32) (omega arith),
      )
      (omega arith)

-- Swapping the bytes of a 16-, 32- or 64-bit word twice gives the word back.
pub swab_involutive :
    (x y z : ℕ)
    → x < 2 ^ 16
    → y < 2 ^ 32
    → z < 2 ^ 64
    → (swab16 (swab16 x) ≡ x) × (swab32 (swab32 y) ≡ y) × (swab64 (swab64 z) ≡ z)
swab_involutive x y z hx hy hz = (swab16-swab16 x hx, swab32-swab32 y hy, swab64-swab64 z hz)

module _ (host : Host) where
  open host use {order, htons, ntohs}

  -- The library calls undo each other.
  pub ntohs-htons : (x : ℕ) → x < 65536 → ntohs (htons x) ≡ x
  ntohs-htons x h = elim (ByteOrder-cases order) [
    | inl e ↦
        rw (host.htons_little e x h, host.ntohs_little e (swab16 x) (swab16-lt x))
          (swab16-swab16 x h)
    | inr e ↦ rw (host.htons_big e x h, host.ntohs_big e x h)
  ]

  pub htons-lt : (x : ℕ) → x < 65536 → htons x < 65536
  htons-lt x h = elim (ByteOrder-cases order) [
    | inl e ↦ rw (host.htons_little e x h) (swab16-lt x)
    | inr e ↦ rw (host.htons_big e x h) h
  ]

  pub htons-ntohs : (x : ℕ) → x < 65536 → htons (ntohs x) ≡ x
  htons-ntohs x h = elim (ByteOrder-cases order) [
    | inl e ↦
        rw (host.ntohs_little e x h, host.htons_little e (swab16 x) (swab16-lt x))
          (swab16-swab16 x h)
    | inr e ↦ rw (host.ntohs_big e x h, host.htons_big e x h)
  ]
