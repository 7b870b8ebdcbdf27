-- ===== src/Tests/Requests.antt =====
-- Single requests to a device.
use qaoed.Base.{
  ℕ, ◌≡◌, refl, ◌+◌, ◌>>=◌, List, [], ◌∷◌, none, some, true, arith, done, fault, replicate, take,
  same_bytes, if◌then◌else◌, write,
}
use qaoed.Acl.Match.{by_default}
use qaoed.Wire.{swab16, aoe_atahdr_size}
use qaoed.Conf.{AoeDev}
use qaoed.Memory.{Memory, workdestroy, pktdestroy, drop_rawbuf, drop_work, set_work, set_pkt}
use qaoed.Memory.Lifetime.{IsHeld}
use qaoed.Device.{World, refused}
use qaoed.Ata.{check_access, lba, lba_from, process_ata}
use qaoed.Ata.Answer.{IsWired, Replied, blank, process_ata-Answers}
use qaoed.Ata.Access.{IsGuarded, denial, process_ata_denied}
use qaoed.Ata.Transfer.{out, write-read}
use qaoed.Cfg.{answer, cfg_match, cfg_match_partial, process_cfg}
use qaoed.Cfg.Store.{IsStored, answer-set-read}
use qaoed.Cfg.Answer.{IsCfgWired, CfgReplied, IsCfgGuarded, process_cfg-Handled, process_cfg_denied}
use qaoed.Cfg.Match.{verdict, cfg_match_lem, cfg_match_partial_lem}
use qaoed.Tests.Machine.{ram, big_ram, File, length-replicate}
use qaoed.Tests.Setting.{
  disk0, guarded, eth0, setting, ata_request, cfg_request, packet, work_at, memory, world,
  refuse_all,
}

pub disk0-IsStored : IsStored disk0
disk0-IsStored = record { fits = omega arith; array = length-replicate 1024 }

pub disk0-IsWired : IsWired setting disk0 0
disk0-IsWired = record {
  iface = eth0;
  known = refl;
  racl = tt;
  wacl = tt;
  name = "/dev/sda";
  named = refl;
}

pub disk0-IsCfgWired : IsCfgWired setting disk0 0
disk0-IsCfgWired = record { iface = eth0; known = refl; cfgracl = tt; cfgsetacl = tt }

pub memory-IsHeld : IsHeld memory 10 20 (work_at 20) packet 1
memory-IsHeld = record { at_w = refl; at_p = refl }

process_ata_example :
    Replied ram setting disk0 0 (ata_request 0x20 []) 10 20 0 (work_at 20) packet world
process_ata_example =
    process_ata-Answers ram setting disk0 0 (ata_request 0x20 []) (omega arith) disk0-IsWired 10
      world (λ e. absurd (cc e)) memory-IsHeld

process_cfg_example :
    CfgReplied ram setting disk0 0 (cfg_request 0 0 []) 10 20 0 (work_at 20) packet world
process_cfg_example =
    process_cfg-Handled ram setting disk0 0 (cfg_request 0 0 []) (omega arith) disk0-IsStored
      (omega (arith, length-replicate 1024)) (λ e. absurd (omega (arith, e))) disk0-IsCfgWired 10
      world memory-IsHeld

process_ata_denied_example :
    process_ata ram true setting guarded 10 0 (ata_request 0x20 []) world ≡ (
      workdestroy (some 10) memory >>= λ m. done (record world {
        mem = m;
        sent = denial ram setting guarded (ata_request 0x20 []) 0 eth0 ∷ [];
      }))
process_ata_denied_example =
    process_ata_denied ram setting guarded (ata_request 0x20 []) 10 0 1 2 eth0 refuse_all world
      (IsGuarded.reads refl refl) refl refl (by_default refl) (λ e. omega (arith, e))

process_cfg_denied_example :
    process_cfg ram true setting guarded 10 0 (cfg_request 0 0 []) world
    ≡ (workdestroy (some 10) memory >>= λ m. done (guarded, record world { mem = m }))
process_cfg_denied_example =
    process_cfg_denied ram true setting guarded 10 0 1 2 (cfg_request 0 0 []) refuse_all world
      (IsCfgGuarded.queries refl refl) refl (by_default refl) (λ e. omega (arith, e))

-- The memory in which two handlers have the work entry at 10 still to release.
abbrev two_holders : Memory
two_holders = record {
  works = write (λ _. none) 10 (some (record (work_at 20) { refcount = 2 }));
  pkts = write (λ _. none) 20 (some (record packet { refcount = 2 }));
}

abbrev one_holder : Memory
one_holder = set_work 10 (some (work_at 20)) (set_pkt 20 (some packet) two_holders)

abbrev no_holder : Memory
no_holder = set_work 10 none (set_pkt 20 none one_holder)

abbrev start : World File
start = record world { mem = two_holders }

abbrev sector : List ℕ
sector = replicate 512 7

write-read_example :
    (s' : World File) × ((process_ata ram true setting disk0 10 0 (ata_request 0x30 sector) start
        >>= process_ata ram true setting disk0 10 0 (ata_request 0x20 []))
      ≡ done s')
    × (s'.sent ≡ (
        out ram setting disk0 0 eth0
          (blank ram setting disk0 0 (ata_request 0x30 sector))
          aoe_atahdr_size
        ∷ out ram setting disk0 0 eth0
            (record (blank ram setting disk0 0 (ata_request 0x20 [])) { payload = take 512 sector })
            (aoe_atahdr_size + 512)
        ∷ []))
unfolding check_access workdestroy drop_rawbuf pktdestroy drop_work refused lba lba_from
write-read_example =
    write-read ram setting disk0 0 eth0 10 10 (ata_request 0x30 sector) (ata_request 0x20 []) start
      (record { bytes = λ _. 0; pos = 1536 })
      (record (ram.write (take 512 sector) (record { bytes = λ _. 0; pos = 1536 })).1 {
        pos = 1536;
      })
      one_holder no_holder refl refl refl refl refl refl refl (omega arith)
      (omega (arith, length-replicate 512)) refl refl refl refl refl

answer-set-read_example :
    (dev' : AoeDev) × (answer ram disk0 (cfg_request 4 768 (1 ∷ 2 ∷ 3 ∷ [])) (cfg_request 0 0 [])
      ≡ done (dev', some (cfg_request 0 0 [])))
    × (answer ram dev' (cfg_request 0 0 []) (cfg_request 0 0 [])
        ≡ done (dev', some (record (cfg_request 0 0 []) { cfg_len = 768; cfg = 1 ∷ 2 ∷ 3 ∷ [] })))
unfolding swab16
answer-set-read_example =
    answer-set-read ram disk0 (cfg_request 4 768 (1 ∷ 2 ∷ 3 ∷ [])) (cfg_request 0 0 [])
      (cfg_request 0 0 []) (cfg_request 0 0 []) disk0-IsStored refl refl (omega arith) (omega arith)

-- The device with a string of two bytes.
abbrev named : AoeDev
named = record disk0 { cfg_len = 2; cfg = 5 ∷ 6 ∷ replicate 1022 0 }

named-IsStored : IsStored named
named-IsStored = record { fits = omega arith; array = omega (arith, length-replicate 1022) }

cfg_match_example :
    cfg_match big_ram named (cfg_request 1 2 (5 ∷ 6 ∷ [])) (cfg_request 1 0 [])
    ≡ verdict big_ram named (cfg_request 1 2 (5 ∷ 6 ∷ [])) (cfg_request 1 0 []) true
unfolding same_bytes
cfg_match_example =
    cfg_match_lem big_ram named (cfg_request 1 2 (5 ∷ 6 ∷ [])) (cfg_request 1 0 []) named-IsStored
      refl (omega arith) (omega (arith, length-replicate 1024))

cfg_match_partial_example :
    cfg_match_partial big_ram named (cfg_request 2 1 (5 ∷ [])) (cfg_request 1 0 []) ≡ (
      if true
      then verdict big_ram named (cfg_request 2 1 (5 ∷ [])) (cfg_request 1 0 []) true
      else fault)
unfolding same_bytes
cfg_match_partial_example =
    cfg_match_partial_lem big_ram named (cfg_request 2 1 (5 ∷ [])) (cfg_request 1 0 [])
      named-IsStored (omega arith)
