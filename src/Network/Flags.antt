-- ===== src/Network/Flags.antt =====
-- The test for a response.
use qaoed.Base.{
  ℕ, inl, inr, ◌<◌, ◌≡◌, refl, Bool, true, false, bit_and, ltb, ◌==◌, ==_iff, all_below,
  all_below_sound, arith,
}
use qaoed.Wire.Order.{ByteOrder-cases}
use qaoed.Wire.{ByteOrder, Host, little, big, swab16, aoe_flag_rsp}
use qaoed.Network.{is_response}

no_bit_table : all_below 256 (λ v. bit_and v 0x800 == 0) ≡ true
unfolding all_below
no_bit_table = refl

no_bit : (v : ℕ) → v < 256 → bit_and v 0x800 ≡ 0
no_bit v h = (==_iff _ 0).0 (all_below_sound 256 (λ v. bit_and v 0x800 == 0) v no_bit_table h)

-- What the test finds: the flag, on a big-endian host.
abbrev found_flag : ByteOrder → ℕ → Bool
found_flag little v = false
found_flag big v = ltb 0 (bit_and v aoe_flag_rsp)

-- On a big-endian host the test finds the response flag in the byte of flags. On a little-endian host
-- it finds nothing in any byte: `htons` moves the flag out of the byte.
is_response_lem : (host : Host) (v : ℕ) → v < 256 → is_response host v ≡ found_flag host.order v
unfolding is_response swab16
is_response_lem host v h = elim (ByteOrder-cases host.order) [
  | inl o ↦ rw (o, host.htons_little o 8 (omega arith), no_bit v h)
  | inr o ↦ rw (o, host.htons_big o 8 (omega arith))
]
