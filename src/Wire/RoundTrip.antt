-- ===== src/Wire/RoundTrip.antt =====
-- Reading back what the layout stores.
use qaoed.Base.{
  ℕ, zero, suc, ◌/◌, ◌%◌, ◌^◌, ◌<◌, ◌≡◌, refl, List, [], ◌∷◌, ◌++◌, append_assoc, done, arith,
  length,
}
use qaoed.Wire.{ByteOrder, little, big, EthHdr, AoeHdr, CfgFrame}
use qaoed.Wire.Layout.{
  load_bytes, load8, load16, load32, load_eth, load_aoe, load_cfg, store16, store32, store_eth,
  store_aoe, store_cfg,
}

-- The fields fit the widths that the struct gives them.
pub record IsEth (e : EthHdr) : Type 0 where
  pub dest : length e.h_dest ≡ 6
  pub source : length e.h_source ≡ 6
  pub proto : e.h_proto < 65536

pub record IsAoe (h : AoeHdr) : Type 0 where
  pub eth : IsEth h.eth
  pub shelf : h.shelf < 65536
  pub tag : h.tag < 2 ^ 32

pub record IsCfg (f : CfgFrame) : Type 0 where
  pub aoehdr : IsAoe f.aoehdr
  pub queuelen : f.queuelen < 65536
  pub firmware : f.firmware < 65536
  pub cfg_len : f.cfg_len < 65536

load_bytes-append :
    (n : ℕ) (xs rest : List ℕ) → length xs ≡ n → load_bytes n (xs ++ rest) ≡ done (xs, rest)
unfolding load_bytes
load_bytes-append zero [] rest h = refl
load_bytes-append zero (x ∷ xs) rest h = absurd (omega arith)
load_bytes-append (suc n) [] rest h = absurd (omega arith)
load_bytes-append (suc n) (x ∷ xs) rest h = rw (load_bytes-append n xs rest (omega arith))

load16-store16 :
    (o : ByteOrder) (x : ℕ) (rest : List ℕ)
    → x < 65536
    → load16 o (store16 o x ++ rest) ≡ done (x, rest)
unfolding load16 store16
load16-store16 little x rest h = ground arith
load16-store16 big x rest h = ground arith

load32-store32 :
    (o : ByteOrder) (x : ℕ) (rest : List ℕ)
    → x < 2 ^ 32
    → load32 o (store32 o x ++ rest) ≡ done (x, rest)
unfolding load32 store32
load32-store32 little x rest h =
    rw
      (
        append_assoc,
        load16-store16 little (x % 65536) _ (omega arith),
        load16-store16 little (x / 65536) rest (omega arith),
      )
      (ground arith)
load32-store32 big x rest h =
    rw
      (
        append_assoc,
        load16-store16 big (x / 65536) _ (omega arith),
        load16-store16 big (x % 65536) rest (omega arith),
      )
      (ground arith)

load_eth-store_eth :
    (o : ByteOrder) (e : EthHdr) (rest : List ℕ)
    → IsEth e
    → load_eth o (store_eth o e ++ rest) ≡ done (e, rest)
unfolding load_eth store_eth
load_eth-store_eth o e rest v =
    rw (append_assoc, load_bytes-append 6 e.h_dest _ v.dest)
      (rw (append_assoc, load_bytes-append 6 e.h_source _ v.source)
        (rw (load16-store16 o e.h_proto rest v.proto)))

pub load_aoe-store_aoe :
    (o : ByteOrder) (h : AoeHdr) (rest : List ℕ)
    → IsAoe h
    → load_aoe o (store_aoe o h ++ rest) ≡ done (h, rest)
unfolding load_aoe store_aoe load8
load_aoe-store_aoe o h rest v =
    rw (append_assoc, load_eth-store_eth o h.eth _ v.eth)
      (rw (append_assoc, load16-store16 o h.shelf _ v.shelf)
        (rw (load32-store32 o h.tag rest v.tag)))

-- A cast of the bytes of a CFG frame to its struct gives the frame back, on either byte order, if
-- the fields fit the widths of the struct.
pub load_cfg-store_cfg :
    (o : ByteOrder) (f : CfgFrame) → IsCfg f → load_cfg o (store_cfg o f) ≡ done f
unfolding load_cfg store_cfg load8
load_cfg-store_cfg o f v = rw (load_aoe-store_aoe o f.aoehdr _ v.aoehdr) (
    rw (load16-store16 o f.queuelen _ v.queuelen) (
      rw (load16-store16 o f.firmware _ v.firmware)
        (rw (load16-store16 o f.cfg_len f.cfg v.cfg_len))))
