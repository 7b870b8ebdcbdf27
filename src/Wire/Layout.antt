-- ===== src/Wire/Layout.antt =====
-- The packed layout of the structs of include/aoe.h over a buffer: what a cast of a pointer to the
-- buffer reads, and the bytes that a struct is.
use qaoed.Base.{ℕ, zero, suc, ◌+◌, ◌*◌, ◌/◌, ◌%◌, List, [], ◌∷◌, ◌++◌, Outcome, done, fault, ◌>>=◌}
use qaoed.Wire.{ByteOrder, little, big, EthHdr, AoeHdr, AtaFrame, CfgFrame}

-- A read of n bytes, with what is left of the buffer; past its end it is no longer the buffer.
unfoldable pub load_bytes : ℕ → List ℕ → Outcome (List ℕ × List ℕ)
load_bytes zero buf = done ([], buf)
load_bytes (suc n) [] = fault
load_bytes (suc n) (b ∷ buf) = do (bs, rest) ← load_bytes n buf; done (b ∷ bs, rest)

unfoldable pub load8 : List ℕ → Outcome (ℕ × List ℕ)
load8 [] = fault
load8 (b ∷ buf) = done (b, buf)

-- The short at two bytes, as the host reads it.
unfoldable pub word16 : ByteOrder → ℕ → ℕ → ℕ
word16 little a b = a + 256 * b
word16 big a b = 256 * a + b

unfoldable pub load16 : ByteOrder → List ℕ → Outcome (ℕ × List ℕ)
unfolding load8 word16
load16 o buf = do (a, buf') ← load8 buf; (b, rest) ← load8 buf'; done (word16 o a b, rest)

unfoldable pub word32 : ByteOrder → ℕ → ℕ → ℕ
word32 little a b = a + 65536 * b
word32 big a b = 65536 * a + b

unfoldable pub load32 : ByteOrder → List ℕ → Outcome (ℕ × List ℕ)
unfolding word32
load32 o buf = do (a, buf') ← load16 o buf; (b, rest) ← load16 o buf'; done (word32 o a b, rest)

unfoldable pub load_eth : ByteOrder → List ℕ → Outcome (EthHdr × List ℕ)
load_eth o b0 = do
  (dest, b1) ← load_bytes 6 b0
  (source, b2) ← load_bytes 6 b1
  (proto, b3) ← load16 o b2
  done (record { h_dest = dest; h_source = source; h_proto = proto }, b3)

unfoldable pub load_aoe : ByteOrder → List ℕ → Outcome (AoeHdr × List ℕ)
load_aoe o b0 = do
  (eth, b1) ← load_eth o b0
  (ver_flags, b2) ← load8 b1
  (error, b3) ← load8 b2
  (shelf, b4) ← load16 o b3
  (slot, b5) ← load8 b4
  (cmd, b6) ← load8 b5
  (tag, b7) ← load32 o b6
  done (
    record {
      eth = eth;
      ver_flags = ver_flags;
      error = error;
      shelf = shelf;
      slot = slot;
      cmd = cmd;
      tag = tag;
    },
    b7,
  )

unfoldable pub load_ata : ByteOrder → List ℕ → Outcome AtaFrame
load_ata o b0 = do
  (aoe, b1) ← load_aoe o b0
  (flags, b2) ← load8 b1
  (err_feature, b3) ← load8 b2
  (nsect, b4) ← load8 b3
  (cmdstat, b5) ← load8 b4
  (lba, b6) ← load_bytes 6 b5
  (notused, b7) ← load_bytes 2 b6
  done (record {
    aoehdr = aoe;
    flags = flags;
    err_feature = err_feature;
    nsect = nsect;
    cmdstat = cmdstat;
    lba = lba;
    notused = notused;
    payload = b7;
  })

unfoldable pub load_cfg : ByteOrder → List ℕ → Outcome CfgFrame
load_cfg o b0 = do
  (aoe, b1) ← load_aoe o b0
  (queuelen, b2) ← load16 o b1
  (firmware, b3) ← load16 o b2
  (maxsect, b4) ← load8 b3
  (aoever_cmd, b5) ← load8 b4
  (cfg_len, b6) ← load16 o b5
  done (record {
    aoehdr = aoe;
    queuelen = queuelen;
    firmware = firmware;
    maxsect = maxsect;
    aoever_cmd = aoever_cmd;
    cfg_len = cfg_len;
    cfg = b6;
  })

-- The two bytes of a short in memory.
unfoldable pub store16 : ByteOrder → ℕ → List ℕ
store16 little x = (x % 256) ∷ (x / 256) ∷ []
store16 big x = (x / 256) ∷ (x % 256) ∷ []

unfoldable pub store32 : ByteOrder → ℕ → List ℕ
store32 little x = store16 little (x % 65536) ++ store16 little (x / 65536)
store32 big x = store16 big (x / 65536) ++ store16 big (x % 65536)

unfoldable pub store_eth : ByteOrder → EthHdr → List ℕ
store_eth o e = e.h_dest ++ (e.h_source ++ store16 o e.h_proto)

unfoldable pub store_aoe : ByteOrder → AoeHdr → List ℕ
store_aoe o h =
    store_eth o h.eth
    ++ (h.ver_flags ∷ h.error ∷ (store16 o h.shelf ++ (h.slot ∷ h.cmd ∷ store32 o h.tag)))

unfoldable pub store_ata : ByteOrder → AtaFrame → List ℕ
store_ata o f =
    store_aoe o f.aoehdr
    ++ (f.flags ∷ f.err_feature ∷ f.nsect ∷ f.cmdstat ∷ (f.lba ++ (f.notused ++ f.payload)))

unfoldable pub store_cfg : ByteOrder → CfgFrame → List ℕ
store_cfg o f =
    store_aoe o f.aoehdr
    ++ (store16 o f.queuelen
        ++ (store16 o f.firmware ++ (f.maxsect ∷ f.aoever_cmd ∷ (store16 o f.cfg_len ++ f.cfg))))
