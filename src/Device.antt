-- ===== src/Device.antt =====
-- devices.c and network.c: what the two request handlers share. The machine is a parameter: its byte
-- order, the file behind the device, and what fresh memory happens to hold.
pub mod Reply
use qaoed.Base.{
  ℕ, ◌+◌, ◌≤◌, ◌≡◌, List, [], ◌∷◌, ◌++◌, Option, none, some, Bool, true, false, not, bit_or,
  Outcome, done, fault, valid, ◌>>=◌, ◌==◌, if◌then◌else◌, length, take, get_elem?, leb, replicate,
}
use qaoed.Acl.{AclHdr, aclmatch, acl_accept}
use qaoed.Wire.{Host, AoeHdr, AtaFrame, CfgFrame, aoe_flag_rsp}
use qaoed.Conf.{Ifst, AoeDev}
use qaoed.Memory.{Memory}

-- What the program uses of the system: `lseek`, `read` and `write` on the device's open file (none
-- is -1), and the bytes that `realloc` leaves uninitialised. A read gives at most what was asked for,
-- and gives back what a complete write put at the same offset.
pub record Machine : Type 1 where
  pub host : Host
  pub Disk : Type 0
  pub lseek : ℕ → Disk → Option Disk
  pub read : ℕ → Disk → Option (List ℕ) × Disk
  pub write : List ℕ → Disk → Option ℕ × Disk
  pub stale : ℕ → List ℕ
  pub read_le : (n : ℕ) (d : Disk) (bs : List ℕ) → (read n d).0 ≡ some bs → length bs ≤ n
  pub read-write :
      (pos : ℕ) (bs : List ℕ) (d d' d'' : Disk)
      → lseek pos d ≡ some d'
      → (write bs d').0 ≡ some (length bs)
      → lseek pos (write bs d').1 ≡ some d''
      → (read (length bs) d'').0 ≡ some bs
  pub stale_length : (n : ℕ) → length (stale n) ≡ n

-- The part of `struct hd_driveid` that the program fills in; the rest is zero.
pub record DriveId : Type 0 where
  pub serial_no : List ℕ
  pub model : List ℕ
  pub capability : ℕ
  pub cur_cyls : ℕ
  pub cur_heads : ℕ
  pub cur_sectors : ℕ
  pub lba_capacity : ℕ
  pub command_set_2 : ℕ
  pub cfs_enable_2 : ℕ
  pub lba_capacity_2 : ℕ

pub data Frame : Type 0 where
  ata : AtaFrame → Frame
  identify : AtaFrame → DriveId → Frame
  cfg : CfgFrame → Frame

-- A frame written to the socket of an interface, with the length that `write` is given.
pub record Sent : Type 0 where
  pub ifentry : ℕ
  pub frame : Frame
  pub len : ℕ

-- The heap, the file of the device, and all frames sent, oldest first.
pub record World (D : Type 0) : Type 0 where
  pub mem : Memory
  pub disk : D
  pub sent : List Sent

-- What a handler reads of the configuration.
pub record Setting : Type 0 where
  pub intlist : List Ifst
  pub acllist : List AclHdr

-- The first n bytes of a buffer, which must have as many.
unfoldable pub read_buffer : ℕ → List ℕ → Outcome (List ℕ)
read_buffer n buf = if leb n (length buf) then done (take n buf) else fault

-- `if(acl != NULL) if(aclmatch(acl, h_source) != ACL_ACCEPT)`
unfoldable pub refused : Setting → Option ℕ → List ℕ → Outcome Bool
refused st none h_source = done false
refused st (some acl) h_source = do
  a ← valid (get_elem? st.acllist acl)
  done (not (aclmatch a h_source == acl_accept))

-- `qaoed_createpkt`: the header of a reply; the first argument says whether `malloc` succeeds.
unfoldable pub createpkt : Machine → Bool → AoeDev → AoeHdr → Option AoeHdr
createpkt mc false dev request = none
createpkt mc true dev request = some (record request {
  eth = record request.eth { h_dest = request.eth.h_source; h_source = replicate 6 0 };
  ver_flags = bit_or (bit_or request.ver_flags 0x10) aoe_flag_rsp;
  shelf = mc.host.htons dev.shelf;
  slot = dev.slot;
})

-- `if(hwaddr != NULL) memcpy(eth->h_source, hwaddr, 6)`
unfoldable pub set_source : Option (List ℕ) → AoeHdr → AoeHdr
set_source none h = h
set_source (some hwaddr) h = record h { eth = record h.eth { h_source = hwaddr } }

unfoldable pub stamp : Option (List ℕ) → Frame → Frame
stamp hwaddr (ata f) = ata (record f { aoehdr = set_source hwaddr f.aoehdr })
stamp hwaddr (identify f id) = identify (record f { aoehdr = set_source hwaddr f.aoehdr }) id
stamp hwaddr (cfg f) = cfg (record f { aoehdr = set_source hwaddr f.aoehdr })

unfoldable pub xmit : {D : Type 0} → Setting → ℕ → Frame → ℕ → World D → Outcome (World D)
xmit st ifentry frame len s = do
  i ← valid (get_elem? st.intlist ifentry)
  done (record s {
    sent = s.sent ++ (record { ifentry = ifentry; frame = stamp i.hwaddr frame; len = len } ∷ []);
  })
