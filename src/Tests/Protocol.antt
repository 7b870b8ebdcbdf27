-- ===== src/Tests/Protocol.antt =====
-- Lists, queues, memory, words and frames.
use qaoed.Base.{
  ℕ, ◌≡◌, refl, ◌+◌, ◌%◌, ◌^◌, ◌↔◌, List, [], ◌∷◌, none, some, true, arith, done, pos, write,
  replicate, if◌then◌else◌,
}
use qaoed.Acl.{aclmatch}
use qaoed.Acl.Match.{Decides, aclmatch_lem}
use qaoed.Wire.{swab16}
use qaoed.Wire.Layout.{load_aoe, load_eth, load_bytes, load8, load16, load32, word16, word32}
use qaoed.Wire.RoundTrip.{IsAoe}
use qaoed.Queue.{Queue}
use qaoed.Queue.Fifo.{IsFifo, Event, put, take_work, run, fifo, start_queue-IsFifo, run_refines}
use qaoed.Memory.{Memory, set_pkt}
use qaoed.Memory.Lifetime.{IsHeld, IsFreed, SameElse, release_all, release_all-Lifetime}
use qaoed.Network.{Net, Allocs, fresh_work, is_response, processpacket}
use qaoed.Network.Delivery.{
  Delivers, holders, delivered, short, processpacket-Delivers, processpacket_drops,
}
use qaoed.Ata.{lba}
use qaoed.Ata.Lba.{little_endian, lba_lem}
use qaoed.Tests.Machine.{little_host}
use qaoed.Tests.Setting.{accept_one, mac, header, ata_request, no_entries, disk0, packet, work_at}

aclmatch_example : (aclmatch accept_one (mac 7) ≡ 1) ↔ Decides 2 (mac 7) 1 accept_one.acl
aclmatch_example = aclmatch_lem accept_one (mac 7) 1

header-IsAoe : (cmd : ℕ) → IsAoe (header cmd)
header-IsAoe cmd = record {
  eth = record { dest = refl; source = refl; proto = omega arith };
  shelf = omega arith;
  tag = omega arith;
}

abbrev some_events : List Event
some_events = put 1 10 ∷ put 2 11 ∷ take_work ∷ take_work ∷ take_work ∷ []

run_example :
    (d' : Queue) × (run some_events no_entries ≡ done ((fifo some_events []).0, d'))
    × IsFifo d' (fifo some_events []).1
run_example =
    run_refines some_events no_entries [] (start_queue-IsFifo (λ _. none))
      (tt, (((λ e. omega (arith, e)), tt), tt))

-- The memory in which two hold the work entry at 10.
abbrev held_twice : Memory
held_twice = record {
  works = write (λ _. none) 10 (some (record (work_at 20) { refcount = 2 }));
  pkts = write (λ _. none) 20 (some (record packet { refcount = 2 }));
}

held_twice-IsHeld : IsHeld held_twice 10 20 (work_at 20) packet 2
held_twice-IsHeld = record { at_w = refl; at_p = refl }

release_all-Lifetime_example :
    (m1 : Memory) × (m2 : Memory) × (release_all 1 10 held_twice ≡ done m1)
    × IsHeld m1 10 20 (work_at 20) packet 1
    × (release_all 1 10 m1 ≡ done m2)
    × IsFreed m2 10 20
    × SameElse 10 20 held_twice m2
release_all-Lifetime_example =
    release_all-Lifetime 1 0 held_twice 10 20 (work_at 20) packet held_twice-IsHeld

lba_example : lba (ata_request 0x20 []) ≡ (
    if true
    then little_endian (3 ∷ 0 ∷ 0 ∷ 0 ∷ 0 ∷ 0 ∷ [])
    else little_endian (3 ∷ 0 ∷ 0 ∷ 0 ∷ 0 ∷ 0 ∷ []) % 2 ^ 28)
lba_example =
    lba_lem (ata_request 0x20 []) refl
      (omega arith, (omega arith, (omega arith, (omega arith, (omega arith, (omega arith, tt))))))

-- The device, and a packet at 20 that came in.
abbrev net : Net
net = record {
  devices = disk0 ∷ [];
  mem = record { works = λ _. none; pkts = write (λ _. none) 20 (some packet) };
}

abbrev grants : Allocs
grants = record { work = some 10; entry = λ i. some (100 + i); bcast_entry = λ i. some (200 + i) }

processpacket_example :
    Delivers 10 20
      (fresh_work 0 20 (pos 1056))
      packet
      (holders 1 2 net.devices)
      (delivered (λ i. 100 + i) (λ i. 200 + i) 10 1 2 net.devices ([] ∷ []))
      net
      (processpacket little_host grants 0 20 (pos 1056) net)
unfolding is_response load_aoe load_eth load_bytes load8 load16 load32 word16 word32 swab16
processpacket_example =
    processpacket-Delivers grants 10 20 (λ i. 100 + i) (λ i. 200 + i) little_host 0 (pos 1056) net
      ([] ∷ []) packet (header 1)
      (record {
        long = refl;
        packet = refl;
        rest = replicate 1032 0;
        header = refl;
        proto = refl;
        request = refl;
      })
      (record {
        work = refl;
        entry = λ i. refl;
        bcast_entry = λ i. refl;
        room = (tt, tt);
        bcast_room = (((λ e. omega (arith, e)), tt), tt);
      })
      (start_queue-IsFifo (λ _. none), tt)

processpacket_drops_example :
    processpacket little_host grants 0 20 (pos 5) net
    ≡ done (record net { mem = set_pkt 20 none net.mem })
processpacket_drops_example =
    processpacket_drops little_host grants 0 20 (pos 5) net packet refl (short refl)
