-- ===== src/Ata.antt =====
-- devices.c: the handler of ATA requests (qaoed_LBA, qaoed_file_read, qaoed_file_write,
-- qaoed_transfer, qaoed_identify, qaoed_processATA).
pub mod Lba
pub mod Answer
pub mod Access
pub mod Transfer
use qaoed.Base.{
  ℕ, zero, suc, ◌+◌, ◌*◌, ◌/◌, ◌%◌, ◌^◌, String, codes, List, [], ◌∷◌, ◌++◌, Option, none, some,
  Bool, true, false, not, ◌||◌, bit_and, bit_or, Outcome, done, fault, valid, ◌>>=◌, ◌==◌, ltb,
  if◌then◌else◌, length, take, drop,
}
use qaoed.Wire.{
  AtaFrame, aoe_atahdr_size, aoe_flag_err, aoe_err_badarg, aoe_ataflag_lba48, max_ata_lba,
  cpu_to_le16, cpu_to_le32, cpu_to_le64,
}
use qaoed.Conf.{AoeDev}
use qaoed.Memory.{workdestroy}
use qaoed.Device.{
  Machine, DriveId, Frame, ata, identify, World, Setting, read_buffer, refused, createpkt, xmit,
}

-- include/hdreg.h: the commands and the bits of the status and error registers.
abbrev pub win_read : ℕ
win_read = 0x20

abbrev pub win_read_ext : ℕ
win_read_ext = 0x24

abbrev pub win_write : ℕ
win_write = 0x30

abbrev pub win_write_ext : ℕ
win_write_ext = 0x34

abbrev pub win_identify : ℕ
win_identify = 0xec

abbrev pub err_stat : ℕ
err_stat = 1

abbrev pub ready_stat : ℕ
ready_stat = 0x40

abbrev pub abrt_err : ℕ
abrt_err = 4

abbrev pub is_read : ℕ → Bool
is_read c = (c == win_read) || (c == win_read_ext)

abbrev pub is_write : ℕ → Bool
is_write c = (c == win_write) || (c == win_write_ext)

-- The loop of `qaoed_LBA` from the i-th byte on: `ppos |= (long long)(*p++) << i * 8`.
unfoldable pub lba_from : ℕ → ℕ → List ℕ → ℕ
lba_from i ppos [] = ppos
lba_from i ppos (b ∷ bs) = lba_from (suc i) (bit_or ppos (b * 2 ^ (i * 8))) bs

unfoldable pub lba : AtaFrame → ℕ
lba request =
    let ppos = lba_from 0 0 request.lba in
    if not (bit_and request.flags aoe_ataflag_lba48 == 0)
    then bit_and ppos 0xffffffffffff
    else bit_and ppos 0x0fffffff

-- The text of `strcpy((char *) id->model, "123456789")`.
abbrev pub model_text : List ℕ
model_text = codes "123456789"

unfoldable pub drive_id : Machine → ℕ → List ℕ → DriveId
drive_id mc size name =
    let o = mc.host.order in
    record {
      serial_no = take 19 name;
      model = model_text;
      capability = cpu_to_le16 o 2 % 256;
      cur_cyls = cpu_to_le16 o (size / 2 ^ 8 / 2 ^ 6 % 2 ^ 16);
      cur_heads = cpu_to_le16 o 255;
      cur_sectors = cpu_to_le16 o 64;
      lba_capacity = if ltb max_ata_lba size then cpu_to_le32 o max_ata_lba else cpu_to_le32 o size;
      command_set_2 = cpu_to_le16 o (2 ^ 10);
      cfs_enable_2 = cpu_to_le16 o (2 ^ 10);
      lba_capacity_2 = cpu_to_le64 o size;
    }

module _ (mc : Machine) where
  open mc use {Disk}

  -- What was read, and the file afterwards; none if nothing was.
  unfoldable pub read_at : Option Disk → ℕ → Disk → Option (List ℕ) × Disk
  read_at none len d = (none, d)
  read_at (some d') len d = mc.read len d'

  unfoldable pub file_read : ℕ → ℕ → Disk → Option (List ℕ) × Disk
  file_read len pos d = read_at (mc.lseek pos d) len d

  unfoldable pub write_at : Option Disk → List ℕ → Disk → Option ℕ × Disk
  write_at none buff d = (none, d)
  write_at (some d') buff d = mc.write buff d'

  unfoldable pub file_write : List ℕ → ℕ → Disk → Option ℕ × Disk
  file_write buff pos d = write_at (mc.lseek pos d) buff d

  -- The result of `read` or `write` is greater than 0.
  abbrev pub is_positive : Option ℕ → Bool
  is_positive none = false
  is_positive (some n) = ltb 0 n

  -- `error_xmit` of `qaoed_transfer`.
  abbrev pub transfer_error : AtaFrame → AtaFrame
  transfer_error reply = record reply {
    aoehdr = record reply.aoehdr { ver_flags = bit_or reply.aoehdr.ver_flags aoe_flag_err };
    cmdstat = bit_or reply.cmdstat err_stat;
    err_feature = bit_or reply.err_feature abrt_err;
  }

  -- The reply to a read, by what came from the file: those bytes over the uninitialised buffer.
  unfoldable pub read_reply : ℕ → AtaFrame → Option (List ℕ) → AtaFrame
  read_reply len reply none = transfer_error (record reply { payload = mc.stale len })
  read_reply len reply (some []) = transfer_error (record reply { payload = mc.stale len })
  read_reply len reply (some (b ∷ bs)) = record reply {
    payload = (b ∷ bs) ++ drop (length (b ∷ bs)) (mc.stale len);
  }

  -- The write of `qaoed_transfer`; the data must be in the request's buffer.
  unfoldable pub transfer_write :
      Setting → ℕ → ℕ → ℕ → AtaFrame → AtaFrame → World Disk → Outcome (World Disk)
  transfer_write st ifentry len ppos request reply s = do
    bytes ← read_buffer len request.payload
    let (n, disk) = file_write bytes ppos s.disk
    xmit st ifentry (ata (if is_positive n then reply else transfer_error reply)) aoe_atahdr_size
        (record s { disk = disk })

  -- The read of `qaoed_transfer`.
  unfoldable pub transfer_read : Setting → ℕ → ℕ → ℕ → AtaFrame → World Disk → Outcome (World Disk)
  transfer_read st ifentry len ppos reply s =
      let (got, disk) = file_read len ppos s.disk in
      xmit st ifentry (ata (read_reply len reply got)) (aoe_atahdr_size + len)
        (record s { disk = disk })

  -- `qaoed_transfer`: reads, writes, and an error reply for any other command.
  unfoldable pub transfer : Setting → ℕ → AtaFrame → AtaFrame → World Disk → Outcome (World Disk)
  transfer st ifentry request reply s =
      let ppos = lba request * 512 in
      let len = request.nsect * 512 in
      if is_read request.cmdstat
      then transfer_read st ifentry len ppos reply s
      else if is_write request.cmdstat
      then transfer_write st ifentry len ppos request reply s
      else xmit st ifentry
          (ata (
            transfer_error (record reply {
              aoehdr = record reply.aoehdr { error = bit_or reply.aoehdr.error aoe_err_badarg };
            })))
          aoe_atahdr_size s

  unfoldable pub process_identify :
      Setting → ℕ → AoeDev → AtaFrame → World Disk → Outcome (World Disk)
  process_identify st ifentry dev reply s = do
    name ← valid dev.devicename
    xmit st ifentry (identify reply (drive_id mc dev.size (codes name))) (aoe_atahdr_size + 512) s

  -- `error_xmit` of `qaoed_processATA`.
  unfoldable pub ata_error : Setting → ℕ → AtaFrame → World Disk → Outcome (World Disk)
  ata_error st ifentry reply s =
      xmit st ifentry
        (ata (record reply { err_feature = abrt_err; cmdstat = bit_or err_stat ready_stat }))
        aoe_atahdr_size s

  -- The access list that the command is checked against.
  unfoldable pub check_access : Setting → AoeDev → AtaFrame → Outcome Bool
  check_access st dev request =
      if is_read request.cmdstat || (request.cmdstat == win_identify)
      then refused st dev.racl request.aoehdr.eth.h_source
      else if is_write request.cmdstat
      then refused st dev.wacl request.aoehdr.eth.h_source
      else done false

  unfoldable pub perform :
      Setting → ℕ → AoeDev → AtaFrame → AtaFrame → World Disk → Outcome (World Disk)
  perform st ifentry dev request reply s =
      if is_read request.cmdstat || is_write request.cmdstat
      then transfer st ifentry request reply s
      else if request.cmdstat == win_identify
      then process_identify st ifentry dev reply s
      else ata_error st ifentry reply s

  unfoldable pub process_ata :
      Bool → Setting → AoeDev → ℕ → ℕ → AtaFrame → World Disk → Outcome (World Disk)
  process_ata allocated st dev w ifentry request s = do
    aoehdr ← valid (createpkt mc allocated dev request.aoehdr)
    let reply = record request {
      aoehdr = aoehdr;
      err_feature = 0;
      cmdstat = ready_stat;
      payload = [];
    }
    no_access ← check_access st dev request
    s' ← if no_access then ata_error st ifentry reply s else perform st ifentry dev request reply s
    mem ← workdestroy (some w) s'.mem
    done (record s' { mem = mem })
