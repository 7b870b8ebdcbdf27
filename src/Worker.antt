-- ===== src/Worker.antt =====
-- devices.c: the thread of a device (qaoed_worker), what it does with a packet (qaoed_processwork),
-- and the advertisements it sends at its start (qaoed_bcastdevice, qaoed_dobcast).
pub mod Dispatch
pub mod Step
pub mod Advertise
use qaoed.Base.{
  ℕ, zero, suc, ◌+◌, ℤ, pos, to_size, List, [], ◌∷◌, Option, none, some, Bool, true, false, Outcome,
  done, valid, ◌>>=◌, ◌==◌, leb, eq_ℤ, if◌then◌else◌, length, get_elem?, replicate, bit_or,
}
use qaoed.Acl.{AclEntry, acl_accept}
use qaoed.Wire.{
  AoeHdr, CfgFrame, aoe_atahdr_size, aoe_cfghdr_size, aoe_cmd_ata, aoe_cmd_cfg, aoe_flag_rsp,
  eth_p_aoe, eth_alen,
}
use qaoed.Wire.Layout.{load_aoe, load_ata, load_cfg, store_cfg}
use qaoed.Queue.{unlink}
use qaoed.Conf.{Ifst, AoeDev}
use qaoed.Memory.{Pkt, WorkEntry, workdestroy, worktype_packet, set_pkt, set_work}
use qaoed.Device.{Machine, World, Setting}
use qaoed.Ata.{process_ata}
use qaoed.Cfg.{process_cfg}

-- A pointer to an interface as a position: NULL leads past the end of the list.
abbrev pub int_position : Option ℕ → List Ifst → ℕ
int_position none intlist = length intlist
int_position (some i) intlist = i

module _ (mc : Machine) (allocated : Bool) (st : Setting) where
  open mc use {Disk}

  -- What a handler returns: the device, and the world.
  abbrev pub Handling : Type 0
  Handling = Outcome (AoeDev × World Disk)

  -- `qaoed_workdestroy(work)` and nothing else.
  unfoldable pub release : AoeDev → ℕ → World Disk → Handling
  release dev w s = do mem ← workdestroy (some w) s.mem; done (dev, record s { mem = mem })

  -- `case AOE_CMD_ATA:`; `packet_len` is an `int`, and is compared as a `size_t`.
  unfoldable pub handle_ata : AoeDev → ℕ → WorkEntry → List ℕ → World Disk → Handling
  handle_ata dev w e raw s =
      if leb aoe_atahdr_size (to_size e.packet_len)
      then load_ata mc.host.order raw >>= (λ request.
        process_ata mc allocated st dev w e.ifentry request s >>= (λ s'. done (dev, s')))
      else release dev w s

  -- `case AOE_CMD_CFG:`
  unfoldable pub handle_cfg : AoeDev → ℕ → WorkEntry → List ℕ → World Disk → Handling
  handle_cfg dev w e raw s =
      if leb aoe_cfghdr_size (to_size e.packet_len)
      then load_cfg mc.host.order raw
        >>= (λ request. process_cfg mc allocated st dev w e.ifentry request s)
      else release dev w s

  -- The `switch` on the command.
  unfoldable pub handle_command : AoeDev → ℕ → WorkEntry → List ℕ → ℕ → World Disk → Handling
  handle_command dev w e raw cmd s =
      if cmd == aoe_cmd_ata
      then handle_ata dev w e raw s
      else if cmd == aoe_cmd_cfg
      then handle_cfg dev w e raw s
      else release dev w s

  -- `qaoed_processwork` once the work entry is read.
  unfoldable pub handle_packet : AoeDev → ℕ → WorkEntry → Option ℕ → World Disk → Handling
  handle_packet dev w e none s = release dev w s
  handle_packet dev w e (some p) s = do
    k ← valid (s.mem.pkts p)
    (aoe, rest) ← load_aoe mc.host.order k.raw
    handle_command dev w e k.raw aoe.cmd s

  unfoldable pub processwork : AoeDev → Option ℕ → World Disk → Handling
  processwork dev none s = done (dev, s)
  processwork dev (some w) s = do e ← valid (s.mem.works w); handle_packet dev w e e.aoepkt s

  -- The variable `work` after the part of the loop under the lock: it keeps its value on an empty queue.
  unfoldable pub next_work : Option ℕ → Option ℕ → Option ℕ
  next_work none work = work
  next_work (some w) work = some w

  -- One round of the loop, from the return of `pthread_cond_wait`, or from the test that found the
  -- queue not empty, to the end of the round. The result has the variable `work` too, which `none`
  -- says is not set yet: reading through it is a fault.
  unfoldable pub worker_round :
      AoeDev → Option ℕ → World Disk → Outcome (AoeDev × Option ℕ × World Disk)
  worker_round dev work s = do
    (got, queue) ← unlink dev.queue
    let dev' = record dev { queue = queue }
    w ← valid (next_work got work)
    e ← valid (s.mem.works w)
    (dev'', s') ← if e.type == worktype_packet then processwork dev' (some w) s else done (dev', s)
    done (dev'', some w, s')

  -- That many rounds of the loop, in which the queue grows no more.
  unfoldable pub rounds :
      ℕ → AoeDev → Option ℕ → World Disk → Outcome (AoeDev × Option ℕ × World Disk)
  rounds zero dev work s = done (dev, work, s)
  rounds (suc n) dev work s = do (dev', work', s') ← worker_round dev work s; rounds n dev' work' s'

  -- The request that `qaoed_dobcast` makes up, all zero but for these fields.
  unfoldable pub fake_read : List ℕ → CfgFrame
  fake_read h_source = record {
    aoehdr = record {
      eth = record {
        h_dest = replicate eth_alen 0;
        h_source = h_source;
        h_proto = mc.host.htons eth_p_aoe;
      };
      ver_flags = bit_or 0x10 aoe_flag_rsp;
      error = 0;
      shelf = 0;
      slot = 0;
      cmd = aoe_cmd_cfg;
      tag = 0;
    };
    queuelen = 0;
    firmware = 0;
    maxsect = 0;
    aoever_cmd = 0x10;
    cfg_len = 0;
    cfg = [];
  }

  abbrev pub fake_packet : List ℕ → Pkt
  fake_packet h_source = record { raw = store_cfg mc.host.order (fake_read h_source); refcount = 1 }

  abbrev pub fake_work : AoeDev → ℕ → WorkEntry
  fake_work dev p = record {
    type = worktype_packet;
    rawbuf = some p;
    aoepkt = some p;
    packet_len = pos aoe_cfghdr_size;
    ifentry = int_position dev.interface st.intlist;
    refcount = 1;
  }

  -- The first argument is what the calls of `malloc` return for the work entry and the packet, `none`
  -- if one of them fails; what was allocated until then is lost, and not in the model.
  unfoldable pub dobcast : Option (ℕ × ℕ) → AoeDev → List ℕ → World Disk → Handling
  dobcast none dev h_source s = done (dev, s)
  dobcast (some (w, p)) dev h_source s = processwork dev (some w) (record s {
    mem = set_work w (some (fake_work dev p)) (set_pkt p (some (fake_packet h_source)) s.mem);
  })

  -- The loop over the rows of the access list, from the i-th on.
  unfoldable pub bcast_rows :
      (ℕ → Option (ℕ × ℕ)) → ℕ → List AclEntry → AoeDev → World Disk → Handling
  bcast_rows al i [] dev s = done (dev, s)
  bcast_rows al i (row ∷ rows) dev s = do
    (dev', s') ← if row.rule == acl_accept then dobcast (al i) dev row.h_dest s else done (dev, s)
    bcast_rows al (suc i) rows dev' s'

  unfoldable pub bcast_acl : (ℕ → Option (ℕ × ℕ)) → Option ℕ → AoeDev → World Disk → Handling
  bcast_acl al none dev s = dobcast (al 0) dev (replicate 6 0xff) s
  bcast_acl al (some acl) dev s = do
    a ← valid (get_elem? st.acllist acl)
    bcast_rows al 0 a.acl dev s

  unfoldable pub bcastdevice : (ℕ → Option (ℕ × ℕ)) → AoeDev → World Disk → Handling
  bcastdevice al dev s = bcast_acl al dev.cfgracl dev s

  -- `if(device->broadcast == 1) qaoed_bcastdevice(device);`
  unfoldable pub start_worker : (ℕ → Option (ℕ × ℕ)) → AoeDev → World Disk → Handling
  start_worker al dev s = if eq_ℤ dev.broadcast (pos 1) then bcastdevice al dev s else done (dev, s)
