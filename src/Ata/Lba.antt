-- ===== src/Ata/Lba.antt =====
-- `qaoed_LBA`: the block address of a request.
use qaoed.Base.{
  ℕ, suc, ◌+◌, ◌*◌, ◌%◌, ◌^◌, ◌<◌, ◌≡◌, subst, ◌∙◌, List, [], ◌∷◌, All, arith, bit_and,
  bit_or-shift, bit_and-ones, length, not, ◌==◌, if◌then◌else◌,
}
use native.Mathlib.Numerals.{towards_suc}
use qaoed.Wire.{AtaFrame, aoe_ataflag_lba48}
use qaoed.Ata.{lba_from, lba}

-- The number whose bytes are given, the lowest first.
unfoldable pub little_endian : List ℕ → ℕ
little_endian [] = 0
little_endian (b ∷ bs) = b + 256 * little_endian bs

next_byte : (i : ℕ) → 2 ^ (suc i * 8) ≡ 2 ^ (i * 8) * 256
next_byte i = let e : suc i * 8 ≡ i * 8 + 8 = omega arith in rw e (simp towards_suc (omega arith))

room_for_byte : (a b p : ℕ) → a < p → b < 256 → a + b * p < p * 256
room_for_byte a b p h k = grind arith

lba_from-sum :
    (bs : List ℕ) (i ppos : ℕ)
    → All (λ b. b < 256) bs
    → ppos < 2 ^ (i * 8)
    → lba_from i ppos bs ≡ ppos + little_endian bs * 2 ^ (i * 8)
unfolding lba_from little_endian
lba_from-sum [] i ppos h lt = omega arith
lba_from-sum (b ∷ bs) i ppos h lt =
    let fits = room_for_byte ppos b (2 ^ (i * 8)) lt h.0 in
    rw (bit_or-shift (i * 8) ppos b lt) (
      lba_from-sum bs (suc i) (ppos + b * 2 ^ (i * 8)) h.1 (rw next_byte fits)
      ∙ rw next_byte (omega arith))

little_endian-lt : (bs : List ℕ) → All (λ b. b < 256) bs → little_endian bs < 2 ^ (length bs * 8)
unfolding little_endian
little_endian-lt [] h = omega arith
little_endian-lt (b ∷ bs) h = rw next_byte (omega (arith, little_endian-lt bs h.1, h.0))

-- The block address of a request is the number in its six address bytes, the lowest byte first, and
-- without the LBA48 flag only the low 28 bits of it.
pub lba_lem :
    (request : AtaFrame)
    → length request.lba ≡ 6
    → All (λ b. b < 256) request.lba
    → lba request ≡ (
        if not (bit_and request.flags aoe_ataflag_lba48 == 0)
        then little_endian request.lba
        else little_endian request.lba % 2 ^ 28)
unfolding lba
lba_lem request six bytes =
    let total : lba_from 0 0 request.lba ≡ little_endian request.lba =
      lba_from-sum request.lba 0 0 bytes (omega arith) ∙ omega arith in
    let small : little_endian request.lba < 2 ^ 48 =
      subst (λ n. little_endian request.lba < 2 ^ (n * 8)) six
        (little_endian-lt request.lba bytes) in
    rw
      (
        total,
        bit_and-ones 48 (little_endian request.lba),
        bit_and-ones 28 (little_endian request.lba),
      )
      (keep small)
  where
    keep :
        little_endian request.lba < 2 ^ 48
        → (if not (bit_and request.flags aoe_ataflag_lba48 == 0)
            then little_endian request.lba % 2 ^ 48
            else little_endian request.lba % 2 ^ 28)
          ≡ (if not (bit_and request.flags aoe_ataflag_lba48 == 0)
              then little_endian request.lba
              else little_endian request.lba % 2 ^ 28)
    keep h = ground arith
