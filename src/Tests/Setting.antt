-- ===== src/Tests/Setting.antt =====
-- An interface, two access lists, a device with an empty queue, and what the wire brings.
use qaoed.Base.{ℕ, pos, List, [], ◌∷◌, ◌++◌, none, some, true, replicate, write}
use qaoed.Acl.{AclHdr}
use qaoed.Wire.{AoeHdr, AtaFrame, CfgFrame}
use qaoed.Queue.{Queue, start_queue}
use qaoed.Conf.{Ifst, AoeDev}
use qaoed.Memory.{Pkt, WorkEntry, Memory}
use qaoed.Device.{World, Setting}
use qaoed.Tests.Machine.{File}

abbrev pub mac : ℕ → List ℕ
mac n = 0 ∷ 1 ∷ 2 ∷ 3 ∷ 4 ∷ n ∷ []

-- One row that accepts, and the rest is refused.
abbrev pub accept_one : AclHdr
accept_one = record {
  name = "one";
  aclnum = 0;
  refcnt = pos 0;
  defaultpolicy = 2;
  acl = record { rule = 1; h_dest = mac 7; mask = 0 } ∷ [];
  log = none;
}

abbrev pub refuse_all : AclHdr
refuse_all = record {
  name = "none";
  aclnum = 1;
  refcnt = pos 0;
  defaultpolicy = 2;
  acl = [];
  log = none;
}

abbrev pub eth0 : Ifst
eth0 = record {
  ifname = "eth0";
  hwaddr = some (mac 9);
  mtu = pos 1500;
  buffsize = pos 0;
  log = none;
  log_level = pos 0;
  refcnt = pos 0;
}

abbrev pub setting : Setting
setting = record { intlist = eth0 ∷ []; acllist = accept_one ∷ refuse_all ∷ [] }

abbrev pub no_entries : Queue
no_entries = start_queue (λ _. none)

abbrev pub disk0 : AoeDev
disk0 = record {
  devicename = some "/dev/sda";
  fp = true;
  size = 1024;
  shelf = 1;
  slot = 2;
  interface = some 0;
  writecache = pos 1;
  broadcast = pos 1;
  wacl = none;
  racl = none;
  cfgsetacl = none;
  cfgracl = none;
  queue = no_entries;
  log = none;
  log_level = pos 0;
  cfg_len = 0;
  cfg = replicate 1024 0;
}

-- The device with both pairs of access lists at one position.
abbrev pub guarded : AoeDev
guarded = record disk0 { racl = some 1; wacl = some 1; cfgracl = some 1; cfgsetacl = some 1 }

-- Two bytes of a header in network order, as a little-endian host reads them.
abbrev pub header : ℕ → AoeHdr
header cmd = record {
  eth = record { h_dest = mac 9; h_source = mac 7; h_proto = 0xa288 };
  ver_flags = 0x10;
  error = 0;
  shelf = 256;
  slot = 2;
  cmd = cmd;
  tag = 1291845632;
}

-- One sector from the third on.
abbrev pub ata_request : ℕ → List ℕ → AtaFrame
ata_request cmdstat payload = record {
  aoehdr = header 0;
  flags = 64;
  err_feature = 0;
  nsect = 1;
  cmdstat = cmdstat;
  lba = 3 ∷ 0 ∷ 0 ∷ 0 ∷ 0 ∷ 0 ∷ [];
  notused = 0 ∷ 0 ∷ [];
  payload = payload;
}

-- A request about the string, which stands in a buffer of 1024 bytes.
abbrev pub cfg_request : ℕ → ℕ → List ℕ → CfgFrame
cfg_request command len bytes = record {
  aoehdr = header 1;
  queuelen = 0;
  firmware = 0;
  maxsect = 0;
  aoever_cmd = command;
  cfg_len = len;
  cfg = bytes ++ replicate 1024 0;
}

abbrev pub file : File
file = record { bytes = λ _. 0; pos = 0 }

-- The read of the string, as it comes from the wire, in a buffer of 1056 bytes.
abbrev pub wire_read : List ℕ
wire_read =
    mac 9 ++ (mac 7 ++ (0x88 ∷ 0xa2 ∷ 0x10 ∷ 0 ∷ 0 ∷ 1 ∷ 2 ∷ 1 ∷ 0 ∷ 0 ∷ 0 ∷ 77 ∷ replicate 1032 0))

abbrev pub packet : Pkt
packet = record { raw = wire_read; refcount = 1 }

abbrev pub work_at : ℕ → WorkEntry
work_at p = record {
  type = 1;
  rawbuf = some p;
  aoepkt = some p;
  packet_len = pos 1056;
  ifentry = 0;
  refcount = 1;
}

-- Work entries at 10 and 11, with their packets at 20 and 21, each with one holder.
abbrev pub memory : Memory
memory = record {
  works = write (write (λ _. none) 10 (some (work_at 20))) 11 (some (work_at 21));
  pkts = write (write (λ _. none) 20 (some packet)) 21 (some packet);
}

abbrev pub world : World File
world = record { mem = memory; disk = file; sent = [] }
