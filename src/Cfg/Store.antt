-- ===== src/Cfg/Store.antt =====
-- The configuration string of a device: its bounds, and reading back what was set.
use qaoed.Base.{
  ℕ, ◌≤◌, ◌≡◌, ◌∙◌, List, some, true, arith, done, if◌then◌else◌, ◌==◌, leb, inl, inr, length, take,
  drop, length-take, length-drop, length-append, take-append_length, Bool-cases,
}
use qaoed.Wire.{CfgFrame, aoe_cfg_read, aoe_cfg_set, aoe_cfg_set_if_empty, aoe_err_cfg_set}
use qaoed.Conf.{AoeDev}
use qaoed.Device.{Machine}
use qaoed.Ata.Answer.{read_buffer-take}
use qaoed.Cfg.{
  command, overlay, flag_error, with_string, store, cfg_set, cfg_set_if_empty, cfg_read, answer,
}

-- The string fits the array of 1024 bytes, which keeps its size.
pub record IsStored (dev : AoeDev) : Type 0 where
  pub fits : dev.cfg_len ≤ 1024
  pub array : length dev.cfg ≡ 1024

pub length-overlay :
    (bytes old : List ℕ) → length bytes ≤ length old → length (overlay bytes old) ≡ length old
unfolding overlay
length-overlay bytes old h =
    omega (arith, length-append bytes (drop (length bytes) old), length-drop (length bytes) old)

pub take-overlay :
    (n : ℕ) (bytes old : List ℕ) → length bytes ≡ n → take n (overlay bytes old) ≡ bytes
unfolding overlay
take-overlay n bytes old e = rw (← e) (take-append_length bytes (drop (length bytes) old))

module _ (mc : Machine) where
  pub store-done :
      (dev : AoeDev) (n : ℕ) (request : CfgFrame)
      → n ≤ length request.cfg
      → store mc dev n request
        ≡ done (record dev { cfg_len = n; cfg = overlay (take n request.cfg) dev.cfg })
  unfolding store
  store-done dev n request h = rw (read_buffer-take n request.cfg h)

  pub store-IsStored :
      (dev : AoeDev) (n : ℕ) (request : CfgFrame)
      → IsStored dev
      → n ≤ 1024
      → n ≤ length request.cfg
      → IsStored (record dev { cfg_len = n; cfg = overlay (take n request.cfg) dev.cfg })
  store-IsStored dev n request v small enough = record {
    fits = small;
    array =
        length-overlay (take n request.cfg) dev.cfg
          (omega (arith, length-take n request.cfg, v.array))
        ∙ v.array;
  }

  pub with_string-done :
      (dev : AoeDev) (reply : CfgFrame)
      → IsStored dev
      → with_string mc dev reply
        ≡ done
            (record reply { cfg_len = mc.host.htons dev.cfg_len; cfg = take dev.cfg_len dev.cfg })
  unfolding with_string
  with_string-done dev reply v =
      rw (read_buffer-take dev.cfg_len dev.cfg (omega (arith, v.array, v.fits)))

  -- After a set command whose string has at most 1024 bytes and is in the frame, a read command
  -- answers with that string and its length, and leaves the device as it is.
  pub answer-set-read :
      (dev : AoeDev) (qs qr rs rr : CfgFrame)
      → IsStored dev
      → command qs ≡ aoe_cfg_set
      → command qr ≡ aoe_cfg_read
      → mc.host.ntohs qs.cfg_len ≤ 1024
      → mc.host.ntohs qs.cfg_len ≤ length qs.cfg
      → (dev' : AoeDev) × (answer mc dev qs rs ≡ done (dev', some rs))
        × (answer mc dev' qr rr
            ≡ done (
              dev',
              some (record rr {
                cfg_len = mc.host.htons (mc.host.ntohs qs.cfg_len);
                cfg = take (mc.host.ntohs qs.cfg_len) qs.cfg;
              }),
            ))
  unfolding answer cfg_set cfg_read
  answer-set-read dev qs qr rs rr v set read small enough =
      let n = mc.host.ntohs qs.cfg_len in
      let dev' = record dev { cfg_len = n; cfg = overlay (take n qs.cfg) dev.cfg } in
      let test : leb n 1024 ≡ true = ground arith in
      let back = take-overlay n (take n qs.cfg) dev.cfg (omega (arith, length-take n qs.cfg)) in
      (
        dev',
        rw (set, test, store-done dev n qs enough),
        rw (read, with_string-done dev' rr (store-IsStored dev n qs v small enough), back),
      )

  -- The command that sets the string if there is none, with a string of at most 1024 bytes: on a
  -- device that has a string it reports that and changes nothing; on one that has none it does what
  -- the set command does.
  answer-set_if_empty :
      (dev : AoeDev) (q q' reply : CfgFrame)
      → command q ≡ aoe_cfg_set_if_empty
      → q' ≡ record q { aoever_cmd = 4 }
      → mc.host.ntohs q.cfg_len ≤ 1024
      → answer mc dev q reply ≡ (
          if dev.cfg_len == 0
          then answer mc dev q' reply
          else done (dev, some (flag_error aoe_err_cfg_set reply)))
  unfolding answer cfg_set_if_empty cfg_set store
  answer-set_if_empty dev q q' reply c same small =
      let test : leb (mc.host.ntohs q.cfg_len) 1024 ≡ true = ground arith in
      elim (Bool-cases (dev.cfg_len == 0)) [
        | inl empty ↦ rw (c, empty, same, test)
        | inr full ↦ rw (c, full)
      ]
