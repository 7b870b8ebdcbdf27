-- ===== src/Worker/Step.antt =====
-- The loop of the worker: it empties its queue, oldest packet first.
use qaoed.Base.{
  ℕ, zero, suc, ◌≤◌, ◌≡◌, refl, sym, ap, subst, ◌∙◌, ◌≢◌, ◌==◌, List, [], ◌∷◌, ◌++◌, ◌⊎◌, inl, inr,
  append-nil, append_assoc, map, Option, none, some, true, arith, done, fault, length,
  length-append, All,
}
use qaoed.Wire.{AoeHdr}
use qaoed.Queue.{Queue}
use qaoed.Queue.Fifo.{IsFifo, unlink-IsFifo, unlink-empty}
use qaoed.Conf.{AoeDev}
use qaoed.Memory.{Pkt, WorkEntry, Memory, worktype_packet}
use qaoed.Memory.Lifetime.{IsHeld, SameElse}
use qaoed.Network.Delivery.{Fate}
use qaoed.Device.{Machine, Sent, World, Setting}
use qaoed.Ata.Answer.{IsWired}
use qaoed.Cfg.Store.{IsStored}
use qaoed.Cfg.Answer.{IsCfgWired, IsSameDevice, AtMostOneReply}
use qaoed.Worker.{next_work, worker_round, rounds}
use qaoed.Worker.Dispatch.{IsSound, processwork-Done}

-- A packet that waits in the queue: its queue entry, its work entry, its packet, and how many queues
-- hold it besides.
pub record Waiting : Type 0 where
  pub at : ℕ
  pub w : ℕ
  pub p : ℕ
  pub e : WorkEntry
  pub k : Pkt
  pub others : ℕ

abbrev pub cell : Waiting → ℕ × ℕ
cell i = (i.at, i.w)

-- Two packets that share no memory.
abbrev IsApart : Waiting → Waiting → Type 0
IsApart i j = (j.w ≢ i.w) × (j.p ≢ i.p)

-- No two packets of the queue share memory.
abbrev pub Apart : List Waiting → Type 0
Apart [] = Unit
Apart (i ∷ is) = All (IsApart i) is × Apart is

-- After the heap had the one contents and has the other: memory outside the packets is as before.
abbrev pub SameBeyond : List Waiting → Memory → Memory → Type 0
SameBeyond is m m' =
    ((v : ℕ) → All (λ i. v ≢ i.w) is → m'.works v ≡ m.works v)
    × ((q : ℕ) → All (λ i. q ≢ i.p) is → m'.pkts q ≡ m.pkts q)

-- Each packet has been given back once.
abbrev pub AllServed : Memory → List Waiting → Type 0
AllServed m is = All (λ i. Fate m i.w i.p i.e i.k i.others) is

Fate-same :
    (n : ℕ) (m m' : Memory) (w p : ℕ) (e : WorkEntry) (k : Pkt)
    → m'.works w ≡ m.works w
    → m'.pkts p ≡ m.pkts p
    → Fate m w p e k n
    → Fate m' w p e k n
Fate-same zero m m' w p e k a b f = (a ∙ f.0, b ∙ f.1)
Fate-same (suc n) m m' w p e k a b f = record { at_w = a ∙ f.at_w; at_p = b ∙ f.at_p }

module _ (mc : Machine) (st : Setting) where
  open mc use {Disk}

  -- The packet is in memory and sound, and what the device needs to answer it is there.
  pub record IsReady (dev : AoeDev) (m : Memory) (i : Waiting) : Type 0 where
    pub sound : IsSound mc st dev i.e i.p i.k
    pub packet : i.e.type ≡ worktype_packet
    pub wired : IsWired st dev i.e.ifentry
    pub cfg_wired : IsCfgWired st dev i.e.ifentry
    pub held : IsHeld m i.w i.p i.e i.k (suc i.others)

  -- What a device and its queue look like between two rounds.
  pub record IsServing (dev : AoeDev) (m : Memory) (is : List Waiting) : Type 0 where
    pub stored : IsStored dev
    pub queue : IsFifo dev.queue (map cell is)
    pub ready : All (IsReady dev m) is
    pub apart : Apart is

  -- Only the queue and the string of the device may differ.
  abbrev pub IsSameServer : AoeDev → AoeDev → Type 0
  IsSameServer dev dev' =
      dev' ≡ record dev { queue = dev'.queue; cfg_len = dev'.cfg_len; cfg = dev'.cfg }

  IsReady-kept :
      (dev dev' : AoeDev) (m : Memory) (j : Waiting)
      → IsSameServer dev dev'
      → IsReady dev m j
      → IsReady dev' m j
  IsReady-kept dev dev' m j kept r =
      subst (λ d. IsReady d m j) (sym kept)
        (record {
          sound = record {
            points = r.sound.points;
            bytes = r.sound.bytes;
            room = r.sound.room;
            covers = r.sound.covers;
            partial = r.sound.partial;
          };
          packet = r.packet;
          wired = record {
            iface = r.wired.iface;
            known = r.wired.known;
            racl = r.wired.racl;
            wacl = r.wired.wacl;
            name = r.wired.name;
            named = r.wired.named;
          };
          cfg_wired = record {
            iface = r.cfg_wired.iface;
            known = r.cfg_wired.known;
            cfgracl = r.cfg_wired.cfgracl;
            cfgsetacl = r.cfg_wired.cfgsetacl;
          };
          held = r.held;
        })

  IsReady-same :
      (dev : AoeDev) (m m' : Memory) (i j : Waiting)
      → SameElse i.w i.p m m'
      → IsApart i j
      → IsReady dev m j
      → IsReady dev m' j
  IsReady-same dev m m' i j same apart r = record {
    sound = r.sound;
    packet = r.packet;
    wired = r.wired;
    cfg_wired = r.cfg_wired;
    held = record {
      at_w = same.works j.w apart.0 ∙ r.held.at_w;
      at_p = same.pkts j.p apart.1 ∙ r.held.at_p;
    };
  }

  All-IsReady :
      (dev dev' : AoeDev) (m m' : Memory) (i : Waiting) (is : List Waiting)
      → IsSameServer dev dev'
      → SameElse i.w i.p m m'
      → All (IsApart i) is
      → All (IsReady dev m) is
      → All (IsReady dev' m') is
  All-IsReady dev dev' m m' i [] kept same apart r = tt
  All-IsReady dev dev' m m' i (j ∷ is) kept same apart r = (
    IsReady-same dev' m m' i j same apart.0 (IsReady-kept dev dev' m j kept r.0),
    All-IsReady dev dev' m m' i is kept same apart.1 r.1,
  )

  AtMostOneReply-length :
      (dev : AoeDev) (h : AoeHdr) (ifentry : ℕ) (frames : List Sent)
      → AtMostOneReply mc dev h ifentry frames
      → length frames ≤ 1
  AtMostOneReply-length dev h ifentry [] r = omega arith
  AtMostOneReply-length dev h ifentry (x ∷ []) r = omega arith
  AtMostOneReply-length dev h ifentry (x ∷ y ∷ xs) r = absurd r

  -- One round with a packet in the queue: the oldest packet is taken from the queue and answered by
  -- at most one frame, its work entry is given back, and the device is ready for the others.
  pub worker_round-IsServing :
      (dev : AoeDev) (work : Option ℕ) (i : Waiting) (is : List Waiting) (s : World Disk)
      → IsServing dev s.mem (i ∷ is)
      → (dev' : AoeDev) × (s' : World Disk) × (frames : List Sent) × (worker_round mc true st dev
            work s
          ≡ done (dev', some i.w, s'))
        × IsServing dev' s'.mem is
        × (s'.sent ≡ s.sent ++ frames)
        × (length frames ≤ 1)
        × Fate s'.mem i.w i.p i.e i.k i.others
        × SameElse i.w i.p s.mem s'.mem
  unfolding worker_round next_work
  worker_round-IsServing dev work i is s v =
      let (q', taken, fifo, freed) = unlink-IsFifo dev.queue (map cell is) i.at i.w v.queue in
      let dev1 = record dev { queue = q' } in
      let r = IsReady-kept dev dev1 s.mem i refl v.ready.0 in
      let stored1 : IsStored dev1 = record { fits = v.stored.fits; array = v.stored.array } in
      let (dev', s', frames, aoe, e, head, stored, kept, sent, replies, fate, same) =
        processwork-Done mc st dev1 i.w s stored1 r.sound r.wired r.cfg_wired r.held in
      let test : (i.e.type == worktype_packet) ≡ true = ground (arith, r.packet) in
      (
        dev',
        s',
        frames,
        rw (taken, r.held.at_w, test, e),
        record {
          stored = stored;
          queue = subst (λ d. IsFifo d (map cell is)) (sym (ap (λ d. AoeDev.queue d) kept)) fifo;
          ready =
              All-IsReady dev dev' s.mem s'.mem i is (served dev q' dev' kept) same v.apart.0
                v.ready.1;
          apart = v.apart.1;
        },
        sent,
        AtMostOneReply-length dev1 aoe i.e.ifentry frames replies,
        fate,
        same,
      )
    where
      served :
          (d : AoeDev) (q : Queue) (d' : AoeDev)
          → IsSameDevice (record d { queue = q }) d'
          → IsSameServer d d'
      served d q d' kept = cc (kept, ap (λ x. AoeDev.queue x) kept)

  -- What as many rounds as there are packets come to.
  abbrev pub Serves : AoeDev → Option ℕ → List Waiting → World Disk → Type 0
  Serves dev work is s =
      (dev' : AoeDev) × (work' : Option ℕ) × (s' : World Disk) × (frames : List Sent) × (rounds mc
          true st (length is) dev work s
        ≡ done (dev', work', s'))
      × IsServing dev' s'.mem []
      × (s'.sent ≡ s.sent ++ frames)
      × (length frames ≤ length is)
      × AllServed s'.mem is
      × SameBeyond is s.mem s'.mem

  -- A worker whose queue holds sound packets that share no memory serves them all: in as many rounds
  -- the queue is empty, no round faults, every packet has been given back once, at most one frame
  -- per packet has been sent, and memory beyond the packets is untouched.
  pub rounds_serve :
      (dev : AoeDev) (work : Option ℕ) (is : List Waiting) (s : World Disk)
      → IsServing dev s.mem is
      → Serves dev work is s
  unfolding rounds
  rounds_serve dev work [] s v = (
    dev,
    work,
    s,
    [],
    refl,
    v,
    sym (append-nil s.sent),
    omega arith,
    tt,
    (λ u h. refl, λ u h. refl),
  )
  rounds_serve dev work (i ∷ is) s v =
      let (dev1, s1, frames1, r1, v1, sent1, one, fate, same) =
        worker_round-IsServing dev work i is s v in
      let (dev2, work2, s2, frames2, r2, v2, sent2, few, served, beyond) =
        rounds_serve dev1 (some i.w) is s1 v1 in
      (
        dev2,
        work2,
        s2,
        frames1 ++ frames2,
        rw (r1, r2),
        v2,
        sent2 ∙ (ap (λ l. l ++ frames2) sent1 ∙ append_assoc s.sent frames1 frames2),
        omega (arith, length-append frames1 frames2, one, few),
        (
          Fate-same i.others s1.mem s2.mem i.w i.p i.e i.k (beyond.0 i.w (apart_w i is v.apart.0))
              (beyond.1 i.p (apart_p i is v.apart.0)) fate,
          served,
        ),
        (λ u h. beyond.0 u h.1 ∙ same.works u h.0, λ u h. beyond.1 u h.1 ∙ same.pkts u h.0),
      )
    where
      apart_w : (i : Waiting) (is : List Waiting) → All (IsApart i) is → All (λ j. i.w ≢ j.w) is
      apart_w i [] h = tt
      apart_w i (j ∷ is) h = (λ e. h.0.0 (sym e), apart_w i is h.1)

      apart_p : (i : Waiting) (is : List Waiting) → All (IsApart i) is → All (λ j. i.p ≢ j.p) is
      apart_p i [] h = tt
      apart_p i (j ∷ is) h = (λ e. h.0.1 (sym e), apart_p i is h.1)

  -- If the worker wakes up on an empty queue, it works on the packet of the round before once more:
  -- that is a fault if the packet has been freed since, or if there was no round before.
  worker_round_empty :
      (dev : AoeDev) (work : Option ℕ) (s : World Disk)
      → IsFifo dev.queue []
      → (work ≡ none) ⊎ ((w : ℕ) × (work ≡ some w) × (s.mem.works w ≡ none))
      → worker_round mc true st dev work s ≡ fault
  unfolding worker_round next_work
  worker_round_empty dev work s v (inl e) = rw (unlink-empty dev.queue v, e)
  worker_round_empty dev work s v (inr (w, e, gone)) = rw (unlink-empty dev.queue v, e, gone)
