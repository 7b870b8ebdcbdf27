-- ===== src/Cfg/Match.antt =====
-- When the match commands answer, and the transfer size that a reply announces.
use qaoed.Base.{
  ℕ, ◌≤◌, ◌<◌, ◌≡◌, refl, ◌≢◌, pos, none, some, Bool, true, false, arith, Outcome, done, fault,
  if◌then◌else◌, leb→le, ◌&&◌, ◌==◌, leb, Bool-cases, inl, inr, length, take, same_bytes,
}
use qaoed.Wire.{CfgFrame, little, big, swab16}
use qaoed.Conf.{AoeDev}
use qaoed.Device.{Machine, read_buffer}
use qaoed.Ata.Answer.{read_buffer-take}
use qaoed.Cfg.{Effect, maxsect, same_string, answer_if, cfg_match, cfg_match_partial}
use qaoed.Cfg.Store.{IsStored, with_string-done}

module _ (mc : Machine) (dev : AoeDev) (request reply : CfgFrame) where
  -- The reply that carries the string of the device.
  abbrev pub matched : CfgFrame
  matched = record reply { cfg_len = mc.host.htons dev.cfg_len; cfg = take dev.cfg_len dev.cfg }

  -- What a match command comes to if it is answered, and if it is not.
  abbrev pub verdict : Bool → Outcome (Effect mc)
  verdict same = done (dev, if same then some matched else none)

  -- The first n bytes of the string in the frame are those of the device's array.
  abbrev pub starts_alike : ℕ → Bool
  starts_alike n = same_bytes (take n dev.cfg) (take n request.cfg)

  module _ (v : IsStored dev) where
    same_string-done :
        (n : ℕ)
        → n ≤ 1024
        → n ≤ length request.cfg
        → same_string mc n dev request ≡ done (same_bytes (take n dev.cfg) (take n request.cfg))
    unfolding same_string
    same_string-done n small h =
        rw (read_buffer-take n dev.cfg (omega (arith, v.array)), read_buffer-take n request.cfg h)

    same_string-fault : (n : ℕ) → leb n 1024 ≡ false → same_string mc n dev request ≡ fault
    unfolding same_string read_buffer
    same_string-fault n large = rw (v.array, large)

    answer_if-verdict : (same : Bool) → answer_if mc same dev reply ≡ verdict same
    unfolding answer_if
    answer_if-verdict true = rw (with_string-done mc dev reply v)
    answer_if-verdict false = refl

    -- On a big-endian host an exact match is answered, with the device's string, if and only if the
    -- string of the request has the length and the bytes of the device's; it never changes the
    -- device. This supposes that the frame has as many bytes as the device's string.
    pub cfg_match_lem :
        mc.host.order ≡ big
        → request.cfg_len < 65536
        → dev.cfg_len ≤ length request.cfg
        → cfg_match mc dev request reply
          ≡ verdict ((mc.host.ntohs request.cfg_len == dev.cfg_len) && starts_alike dev.cfg_len)
    unfolding cfg_match
    cfg_match_lem o short enough =
        rw (mc.host.ntohs_big o request.cfg_len short)
          (elim (Bool-cases (request.cfg_len == dev.cfg_len)) [
            | inl same ↦ rw (same, same_string-done dev.cfg_len v.fits enough) (answer_if-verdict _)
            | inr other ↦ rw other
          ])

    -- A partial match of at most 1024 bytes is answered, with the device's string, if and only if the
    -- bytes of the request are the first bytes of the device's array; one of more bytes reads beyond
    -- the array. This supposes that the frame has the bytes that it announces.
    pub cfg_match_partial_lem :
        mc.host.ntohs request.cfg_len ≤ length request.cfg
        → cfg_match_partial mc dev request reply ≡ (
            if leb (mc.host.ntohs request.cfg_len) 1024
            then verdict (starts_alike (mc.host.ntohs request.cfg_len))
            else fault)
    unfolding cfg_match_partial
    cfg_match_partial_lem enough = elim (Bool-cases (leb (mc.host.ntohs request.cfg_len) 1024)) [
      | inl small ↦
          rw (small, same_string-done (mc.host.ntohs request.cfg_len) (leb→le _ _ small) enough)
            (answer_if-verdict _)
      | inr large ↦ rw (large, same_string-fault (mc.host.ntohs request.cfg_len) large)
    ]

  -- On a little-endian host an exact match whose length, from 1 to 255, is the length of the device's
  -- string is never answered.
  cfg_match_little :
      mc.host.order ≡ little
      → request.cfg_len < 65536
      → mc.host.ntohs request.cfg_len ≡ dev.cfg_len
      → 0 < dev.cfg_len
      → dev.cfg_len < 256
      → cfg_match mc dev request reply ≡ done (dev, none)
  unfolding cfg_match swab16
  cfg_match_little o short e positive small =
      let raw = mc.host.ntohs_little o request.cfg_len short in
      let n = request.cfg_len in
      let differ : n ≢ dev.cfg_len = λ same. omega (arith, raw) in
      let test : (request.cfg_len == dev.cfg_len) ≡ false = ground arith in rw test

-- On an interface whose MTU is less than an ATA header, the subtraction wraps and 255 sectors are
-- announced.
maxsect_wraps : (mtu : ℕ) → mtu < 36 → maxsect (pos mtu) ≡ 255
unfolding maxsect
maxsect_wraps mtu small = omega arith
