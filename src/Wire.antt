-- ===== src/Wire.antt =====
-- include/aoe.h, include/eth.h, include/byteorder.h: the headers of a frame, as the C structs hold
-- them. A two-byte field holds what the host reads there, so `ntohs` stands between it and its value.
pub mod Order
pub mod Layout
pub mod RoundTrip
pub mod Buffer
use qaoed.Base.{ℕ, ◌*◌, ◌/◌, ◌%◌, ◌^◌, ◌≡◌, List, ◌<◌, ◌+◌}

pub data ByteOrder : Type 0 where
  little big : ByteOrder

-- `__swab16`, `__swab32` and `__swab64`: the bytes of a word, read backwards.
unfoldable pub swab16 : ℕ → ℕ
swab16 x = x % 256 * 256 + x / 256 % 256

unfoldable pub swab32 : ℕ → ℕ
swab32 x = swab16 (x % 65536) * 65536 + swab16 (x / 65536)

unfoldable pub swab64 : ℕ → ℕ
swab64 x = swab32 (x % 2 ^ 32) * 2 ^ 32 + swab32 (x / 2 ^ 32)

unfoldable pub cpu_to_le16 : ByteOrder → ℕ → ℕ
cpu_to_le16 little x = x
cpu_to_le16 big x = swab16 x

unfoldable pub cpu_to_le32 : ByteOrder → ℕ → ℕ
cpu_to_le32 little x = x
cpu_to_le32 big x = swab32 x

unfoldable pub cpu_to_le64 : ByteOrder → ℕ → ℕ
cpu_to_le64 little x = x
cpu_to_le64 big x = swab64 x

-- The host: its byte order, and the C library's `htons` and `ntohs`, which swap the two bytes of a
-- short on a little-endian host and do nothing on a big-endian one.
pub record Host : Type 0 where
  pub order : ByteOrder
  pub htons : ℕ → ℕ
  pub ntohs : ℕ → ℕ
  pub htons_little : order ≡ little → (x : ℕ) → x < 65536 → htons x ≡ swab16 x
  pub htons_big : order ≡ big → (x : ℕ) → x < 65536 → htons x ≡ x
  pub ntohs_little : order ≡ little → (x : ℕ) → x < 65536 → ntohs x ≡ swab16 x
  pub ntohs_big : order ≡ big → (x : ℕ) → x < 65536 → ntohs x ≡ x

-- `struct ethhdr`
pub record EthHdr : Type 0 where
  pub h_dest : List ℕ
  pub h_source : List ℕ
  pub h_proto : ℕ

-- `struct aoe_hdr`
pub record AoeHdr : Type 0 where
  pub eth : EthHdr
  pub ver_flags : ℕ
  pub error : ℕ
  pub shelf : ℕ
  pub slot : ℕ
  pub cmd : ℕ
  pub tag : ℕ

-- `struct aoe_atahdr`, with the bytes that follow it.
pub record AtaFrame : Type 0 where
  pub aoehdr : AoeHdr
  pub flags : ℕ
  pub err_feature : ℕ
  pub nsect : ℕ
  pub cmdstat : ℕ
  pub lba : List ℕ
  pub notused : List ℕ
  pub payload : List ℕ

-- `struct aoe_cfghdr`, with the bytes that follow it.
pub record CfgFrame : Type 0 where
  pub aoehdr : AoeHdr
  pub queuelen : ℕ
  pub firmware : ℕ
  pub maxsect : ℕ
  pub aoever_cmd : ℕ
  pub cfg_len : ℕ
  pub cfg : List ℕ

abbrev pub eth_alen : ℕ
eth_alen = 6

-- The sizes of the packed structs.
abbrev pub aoe_hdr_size : ℕ
aoe_hdr_size = 24

abbrev pub aoe_atahdr_size : ℕ
aoe_atahdr_size = 36

abbrev pub aoe_cfghdr_size : ℕ
aoe_cfghdr_size = 32

abbrev pub eth_p_aoe : ℕ
eth_p_aoe = 0x88a2

-- The bits of `ver_flags`, the error codes, the commands and their sub-commands.
abbrev pub aoe_flag_rsp : ℕ
aoe_flag_rsp = 8

abbrev pub aoe_flag_err : ℕ
aoe_flag_err = 4

abbrev pub aoe_err_badcmd : ℕ
aoe_err_badcmd = 1

abbrev pub aoe_err_badarg : ℕ
aoe_err_badarg = 2

abbrev pub aoe_err_cfg_set : ℕ
aoe_err_cfg_set = 4

abbrev pub aoe_cmd_ata : ℕ
aoe_cmd_ata = 0

abbrev pub aoe_cmd_cfg : ℕ
aoe_cmd_cfg = 1

abbrev pub aoe_cfg_read : ℕ
aoe_cfg_read = 0

abbrev pub aoe_cfg_match : ℕ
aoe_cfg_match = 1

abbrev pub aoe_cfg_match_partial : ℕ
aoe_cfg_match_partial = 2

abbrev pub aoe_cfg_set_if_empty : ℕ
aoe_cfg_set_if_empty = 3

abbrev pub aoe_cfg_set : ℕ
aoe_cfg_set = 4

abbrev pub max_ata_lba : ℕ
max_ata_lba = 0x0fffffff

abbrev pub aoe_ataflag_lba48 : ℕ
aoe_ataflag_lba48 = 64
