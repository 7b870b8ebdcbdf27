-- ===== src/Tests/Serving.antt =====
-- The worker with two packets in its queue, and its advertisement.
use qaoed.Base.{
  ℕ, ◌≡◌, refl, ◌>>=◌, sym, ap, ltb, ◌&&◌, List, [], ◌∷◌, none, some, Bool, true, false, arith,
  done, pos, replicate, write,
}
use qaoed.Wire.{AtaFrame, CfgFrame, little}
use qaoed.Wire.Layout.{
  load_aoe, load_eth, load_bytes, load8, load16, load32, word16, word32, load_ata, load_cfg,
}
use qaoed.Wire.Buffer.{IsBytes}
use qaoed.Conf.{AoeDev}
use qaoed.Queue.{Queue}
use qaoed.Memory.{Memory, workdestroy}
use qaoed.Memory.Lifetime.{IsHeld, IsFreed, SameElse}
use qaoed.Device.{World, refused}
use qaoed.Ata.{is_write}
use qaoed.Cfg.{command}
use qaoed.Worker.{dobcast, processwork}
use qaoed.Worker.Dispatch.{IsSound, Works, processwork-Done, processwork_released}
use qaoed.Worker.Step.{Waiting, IsReady, IsServing, Serves, rounds_serve}
use qaoed.Worker.Advertise.{sent_advert, dobcast_lem}
use qaoed.Tests.Machine.{ram, File, length-replicate}
use qaoed.Tests.Setting.{
  disk0, eth0, setting, header, packet, wire_read, work_at, memory, world, mac,
}
use qaoed.Tests.Requests.{disk0-IsStored, disk0-IsWired, disk0-IsCfgWired, memory-IsHeld}

-- A test for bytes.
abbrev all_bytes : List ℕ → Bool
all_bytes [] = true
all_bytes (x ∷ xs) = ltb x 256 && all_bytes xs

all_bytes_sound : (xs : List ℕ) → all_bytes xs ≡ true → IsBytes xs
all_bytes_sound [] h = tt
all_bytes_sound (x ∷ xs) h = (ground arith, all_bytes_sound xs (ground arith))

-- The bytes of the wire, as the structs read them.
abbrev as_ata : AtaFrame
as_ata = record {
  aoehdr = header 1;
  flags = 0;
  err_feature = 0;
  nsect = 0;
  cmdstat = 0;
  lba = replicate 6 0;
  notused = replicate 2 0;
  payload = replicate 1020 0;
}

abbrev as_cfg : CfgFrame
as_cfg = record {
  aoehdr = header 1;
  queuelen = 0;
  firmware = 0;
  maxsect = 0;
  aoever_cmd = 0;
  cfg_len = 0;
  cfg = replicate 1024 0;
}

wire_as_ata : load_ata little wire_read ≡ done as_ata
unfolding load_ata load_aoe load_eth load_bytes load8 load16 load32 word16 word32
wire_as_ata = refl

wire_as_cfg : load_cfg little wire_read ≡ done as_cfg
unfolding load_cfg load_aoe load_eth load_bytes load8 load16 load32 word16 word32
wire_as_cfg = refl

-- As an ATA request it is not a write, and as a CFG request it is not a partial match.
packet-IsSound : (dev : AoeDev) (p : ℕ) → IsSound ram setting dev (work_at p) p packet
packet-IsSound dev p = record {
  points = refl;
  bytes = all_bytes_sound wire_read refl;
  room = omega (arith, length-replicate 1032);
  covers = λ f e w. absurd (not_write f e w);
  partial = λ f e c. absurd (not_partial f e c);
}
  where
    not_write : (f : AtaFrame) → load_ata little wire_read ≡ done f → is_write f.cmdstat ≡ true → ⊥
    not_write f e w =
        let same : as_ata ≡ f = cc (wire_as_ata, e) in
        let none_set : f.cmdstat ≡ 0 = sym (ap (λ g. AtaFrame.cmdstat g) same) in
        ground (arith, none_set)

    not_partial : (f : CfgFrame) → load_cfg little wire_read ≡ done f → command f ≡ 2 → ⊥
    not_partial f e c =
        let same : as_cfg ≡ f = cc (wire_as_cfg, e) in
        let read : command f ≡ 0 = sym (ap (λ g. command g) same) in omega (arith, read)

processwork_example : Works ram setting disk0 10 20 0 (work_at 20) packet world
processwork_example =
    processwork-Done ram setting disk0 10 world disk0-IsStored (packet-IsSound disk0 20)
      disk0-IsWired disk0-IsCfgWired memory-IsHeld

-- The device with both work entries in its queue.
abbrev queue : Queue
queue = record {
  cells =
      write (write (λ _. none) 1 (some (record { work = 10; next = some 2 }))) 2
        (some (record { work = 11; next = none }));
  q = some 1;
  qstart = some 1;
  qend = some 2;
}

abbrev busy : AoeDev
busy = record disk0 { queue = queue }

abbrev first : Waiting
first = record { at = 1; w = 10; p = 20; e = work_at 20; k = packet; others = 0 }

abbrev second : Waiting
second = record { at = 2; w = 11; p = 21; e = work_at 21; k = packet; others = 0 }

busy-IsServing : IsServing ram setting busy memory (first ∷ second ∷ [])
busy-IsServing = record {
  stored = record { fits = disk0-IsStored.fits; array = disk0-IsStored.array };
  queue = record {
    at_q = refl;
    at_qstart = refl;
    at_qend = refl;
    chain = (refl, ((λ e. omega (arith, e)), tt), (refl, tt, tt));
  };
  ready = (
    ready_at 1 10 20 (record { at_w = refl; at_p = refl }),
    (ready_at 2 11 21 (record { at_w = refl; at_p = refl }), tt),
  );
  apart = ((((λ e. omega (arith, e)), (λ e. omega (arith, e))), tt), (tt, tt));
}
  where
    ready_at :
        (at w p : ℕ)
        → IsHeld memory w p (work_at p) packet 1
        → IsReady ram setting busy memory
            (record { at = at; w = w; p = p; e = work_at p; k = packet; others = 0 })
    ready_at at w p held = record {
      sound = packet-IsSound busy p;
      packet = refl;
      wired = record {
        iface = eth0;
        known = refl;
        racl = tt;
        wacl = tt;
        name = "/dev/sda";
        named = refl;
      };
      cfg_wired = record { iface = eth0; known = refl; cfgracl = tt; cfgsetacl = tt };
      held = held;
    }

rounds_serve_example : Serves ram setting busy none (first ∷ second ∷ []) world
rounds_serve_example = rounds_serve ram setting busy none (first ∷ second ∷ []) world busy-IsServing

-- The packet at 20 with too short a length.
abbrev short_world : World File
short_world = record world {
  mem = record memory {
    works = write memory.works 10 (some (record (work_at 20) { packet_len = pos 24 }));
  };
}

processwork_released_example :
    processwork ram true setting disk0 (some 10) short_world
    ≡ (workdestroy (some 10) short_world.mem >>= λ m. done (disk0, record short_world { mem = m }))
unfolding load_aoe load_eth load_bytes load8 load16 load32 word16 word32
processwork_released_example =
    processwork_released ram true setting disk0 10 20 (record (work_at 20) { packet_len = pos 24 })
      packet (header 1) (replicate 1032 0) short_world refl refl refl refl (λ e. omega (arith, e))
      (λ e. omega arith)

dobcast_example :
    (m' : Memory) × (dobcast ram true setting (some (30, 40)) disk0 (mac 7) world
      ≡ done (
        disk0,
        record world { mem = m'; sent = sent_advert ram setting disk0 (mac 7) 0 eth0 ∷ [] },
      ))
    × IsFreed m' 30 40
    × SameElse 30 40 memory m'
unfolding refused
dobcast_example =
    dobcast_lem ram setting disk0 (mac 7) 30 40 eth0 refl disk0-IsStored refl false world refl
