-- ===== src/Worker/Dispatch.antt =====
-- What becomes of a packet in the hands of the worker.
use qaoed.Base.{
  ℕ, suc, ◌*◌, ◌≤◌, ◌<◌, ◌≡◌, refl, sym, subst, to_size, List, [], ◌∷◌, ◌++◌, some, Bool, true,
  false, arith, ◌⊎◌, append-nil, done, ◌>>=◌, ◌==◌, leb, Bool-cases, inl, inr, length,
}
use qaoed.Wire.{AoeHdr, AtaFrame, CfgFrame, aoe_cmd_ata, aoe_cmd_cfg, aoe_cfg_match_partial}
use qaoed.Wire.Layout.{load_aoe, load_ata, load_cfg}
use qaoed.Wire.Buffer.{IsBytes, HasHeader, load_ata-enough, load_cfg-enough}
use qaoed.Conf.{AoeDev}
use qaoed.Memory.{Pkt, WorkEntry, workdestroy}
use qaoed.Memory.Lifetime.{IsHeld, SameElse}
use qaoed.Network.Delivery.{Fate, workdestroy-Fate}
use qaoed.Device.{Machine, Sent, World, Setting}
use qaoed.Ata.{is_write}
use qaoed.Ata.Answer.{IsWired, process_ata-Answers}
use qaoed.Cfg.{command}
use qaoed.Cfg.Store.{IsStored}
use qaoed.Cfg.Answer.{IsCfgWired, AtMostOneReply, IsSameDevice, process_cfg-Handled}
use qaoed.Worker.{
  Handling, release, handle_ata, handle_cfg, handle_command, handle_packet, processwork,
}

-- A packet too short for its command, or whose command is neither ATA nor CFG, is released: nothing
-- is sent, and neither the device nor its file changes.
pub processwork_released :
    (mc : Machine) (allocated : Bool) (st : Setting) (dev : AoeDev) (w p : ℕ) (e : WorkEntry)
    (k : Pkt) (aoe : AoeHdr) (rest : List ℕ) (s : World mc.Disk)
    → s.mem.works w ≡ some e
    → e.aoepkt ≡ some p
    → s.mem.pkts p ≡ some k
    → load_aoe mc.host.order k.raw ≡ done (aoe, rest)
    → (aoe.cmd ≡ aoe_cmd_ata → to_size e.packet_len < 36)
    → (aoe.cmd ≡ aoe_cmd_cfg → to_size e.packet_len < 32)
    → processwork mc allocated st dev (some w) s
      ≡ (workdestroy (some w) s.mem >>= λ m. done (dev, record s { mem = m }))
unfolding processwork handle_packet handle_command handle_ata handle_cfg release
processwork_released mc allocated st dev w p e k aoe rest s at_w points at_p reads ata cfg =
    rw (at_w, points, at_p, reads)
      (branches (Bool-cases (aoe.cmd == aoe_cmd_ata)) (Bool-cases (aoe.cmd == aoe_cmd_cfg)))
  where
    branches :
        ((aoe.cmd == aoe_cmd_ata) ≡ true) ⊎ ((aoe.cmd == aoe_cmd_ata) ≡ false)
        → ((aoe.cmd == aoe_cmd_cfg) ≡ true) ⊎ ((aoe.cmd == aoe_cmd_cfg) ≡ false)
        → handle_command mc allocated st dev w e k.raw aoe.cmd s
          ≡ (workdestroy (some w) s.mem >>= λ m. done (dev, record s { mem = m }))
    branches (inl c) d =
        let short : leb 36 (to_size e.packet_len) ≡ false = ground (arith, ata) in rw (c, short)
    branches (inr n) (inl c) =
        let short : leb 32 (to_size e.packet_len) ≡ false = ground (arith, cfg) in rw (n, c, short)
    branches (inr n) (inr n') = rw (n, n')

module _ (mc : Machine) (st : Setting) (dev : AoeDev) where
  open mc use {Disk}

  -- What one packet comes to, for a work entry that n others hold besides.
  record Done (aoe : AoeHdr) (w p : ℕ) (e : WorkEntry) (k : Pkt) (n : ℕ) (s : World Disk)
      (r : Handling mc true st) : Type 0 where
    after : AoeDev
    world : World Disk
    frames : List Sent
    returns : r ≡ done (after, world)
    stored : IsStored after
    kept : IsSameDevice dev after
    sent : world.sent ≡ s.sent ++ frames
    replies : AtMostOneReply mc dev aoe e.ifentry frames
    fate : Fate world.mem w p e k n
    same : SameElse w p s.mem world.mem

  -- What a packet in memory needs: its work entry points to it, its bytes are bytes, its buffer has
  -- room for a CFG frame with the longest string; and the two checks that the handlers leave to the
  -- sender, that a write brings its data and that a partial match is not longer than a string can be.
  pub record IsSound (e : WorkEntry) (p : ℕ) (k : Pkt) : Type 0 where
    pub points : e.aoepkt ≡ some p
    pub bytes : IsBytes k.raw
    pub room : 1056 ≤ length k.raw
    pub covers :
        (f : AtaFrame)
        → load_ata mc.host.order k.raw ≡ done f
        → is_write f.cmdstat ≡ true
        → f.nsect * 512 ≤ length f.payload
    pub partial :
        (f : CfgFrame)
        → load_cfg mc.host.order k.raw ≡ done f
        → command f ≡ aoe_cfg_match_partial
        → mc.host.ntohs f.cfg_len ≤ 1024

  -- The packet is dealt with, and n others hold it still.
  abbrev pub Works : ℕ → ℕ → ℕ → WorkEntry → Pkt → World Disk → Type 0
  Works w p n e k s =
      (dev' : AoeDev) × (s' : World Disk) × (frames : List Sent) × (aoe : AoeHdr) × (processwork mc
          true st dev (some w) s
        ≡ done (dev', s'))
      × HasHeader mc.host.order k.raw aoe
      × IsStored dev'
      × IsSameDevice dev dev'
      × (s'.sent ≡ s.sent ++ frames)
      × AtMostOneReply mc dev aoe e.ifentry frames
      × Fate s'.mem w p e k n
      × SameElse w p s.mem s'.mem

  module _ {p n : ℕ} {e : WorkEntry} {k : Pkt} (w : ℕ) (s : World Disk) (v : IsStored dev)
      (sound : IsSound e p k) (wired : IsWired st dev e.ifentry)
      (cfg_wired : IsCfgWired st dev e.ifentry) (held : IsHeld s.mem w p e k (suc n)) where
    -- The work entry as it stands in memory.
    abbrev entry : WorkEntry
    entry = record e { rawbuf = some p; aoepkt = some p; refcount = suc n }

    release-Done : (aoe : AoeHdr) → Done aoe w p e k n s (release mc true st dev w s)
    unfolding release
    release-Done aoe =
        let (m', freed, fate, same) = workdestroy-Fate n held in
        record {
          after = dev;
          world = record s { mem = m' };
          frames = [];
          returns = rw freed;
          stored = v;
          kept = refl;
          sent = sym (append-nil s.sent);
          replies = tt;
          fate = fate;
          same = same;
        }

    handle_ata-Done :
        (aoe : AoeHdr)
        → HasHeader mc.host.order k.raw aoe
        → Done aoe w p e k n s (handle_ata mc true st dev w entry k.raw s)
    unfolding handle_ata
    handle_ata-Done aoe head = elim (Bool-cases (leb 36 (to_size e.packet_len))) [
      | inl long ↦
          let (f, reads, fhead) =
            load_ata-enough mc.host.order k.raw sound.bytes (omega (arith, sound.room)) in
          let same_head : f.aoehdr ≡ aoe = cc (fhead.reads, head.reads) in
          let (s', x, r, sent, at_int, reply, fate, same) =
            process_ata-Answers mc st dev e.ifentry f fhead.byte wired w s (sound.covers f reads)
              held in
          record {
            after = dev;
            world = s';
            frames = x ∷ [];
            returns = rw (long, reads, r);
            stored = v;
            kept = refl;
            sent = sent;
            replies = (at_int, rw (← same_head) reply);
            fate = fate;
            same = same;
          }
      | inr short ↦ rw short (release-Done aoe)
    ]

    handle_cfg-Done :
        (aoe : AoeHdr)
        → HasHeader mc.host.order k.raw aoe
        → Done aoe w p e k n s (handle_cfg mc true st dev w entry k.raw s)
    unfolding handle_cfg
    handle_cfg-Done aoe head = elim (Bool-cases (leb 32 (to_size e.packet_len))) [
      | inl long ↦
          let (f, reads, (fhead, len)) =
            load_cfg-enough mc.host.order k.raw sound.bytes (omega (arith, sound.room)) in
          let same_head : f.aoehdr ≡ aoe = cc (fhead.reads, head.reads) in
          let (dev', s', frames, r, stored, kept, sent, replies, fate, same) =
            process_cfg-Handled mc st dev e.ifentry f fhead.byte v (omega (arith, sound.room, len))
              (sound.partial f reads) cfg_wired w s held in
          record {
            after = dev';
            world = s';
            frames = frames;
            returns = rw (long, reads, r);
            stored = stored;
            kept = kept;
            sent = sent;
            replies = subst (λ h. AtMostOneReply mc dev h e.ifentry frames) same_head replies;
            fate = fate;
            same = same;
          }
      | inr short ↦ rw short (release-Done aoe)
    ]

    handle_command-Done :
        (aoe : AoeHdr)
        → HasHeader mc.host.order k.raw aoe
        → Done aoe w p e k n s (handle_command mc true st dev w entry k.raw aoe.cmd s)
    unfolding handle_command
    handle_command-Done aoe head = elim (Bool-cases (aoe.cmd == aoe_cmd_ata)) [
      | inl c ↦ rw c (handle_ata-Done aoe head)
      | inr n0 ↦ elim (Bool-cases (aoe.cmd == aoe_cmd_cfg)) [
        | inl c ↦ rw (n0, c) (handle_cfg-Done aoe head)
        | inr n1 ↦ rw (n0, n1) (release-Done aoe)
      ]
    ]

    packet-Done :
        (aoe : AoeHdr)
        → HasHeader mc.host.order k.raw aoe
        → Done aoe w p e k n s (processwork mc true st dev (some w) s)
    unfolding processwork handle_packet
    packet-Done aoe head =
        let d = handle_command-Done aoe head in
        record {
          after = d.after;
          world = d.world;
          frames = d.frames;
          returns = rw (held.at_w, sound.points, held.at_p, head.reads) d.returns;
          stored = d.stored;
          kept = d.kept;
          sent = d.sent;
          replies = d.replies;
          fate = d.fate;
          same = d.same;
        }

    -- The worker gets through every sound packet without a fault, whatever its command: at most one
    -- frame is sent, which answers the request on the interface it came in on, the string of the
    -- device stays in bounds and nothing else of it changes, and one hold on the work entry and its packet is given back. This
    -- supposes that `malloc` succeeds and that the pointers of the device lead somewhere.
    pub processwork-Done : Works w p n e k s
    processwork-Done =
        let (f, reads, head) =
          load_ata-enough mc.host.order k.raw sound.bytes (omega (arith, sound.room)) in
        let d = packet-Done f.aoehdr head in
        (
          d.after, d.world, d.frames, f.aoehdr, d.returns, head, d.stored, d.kept, d.sent,
          d.replies, d.fate, d.same,
        )
