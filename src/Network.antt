-- ===== src/Network.antt =====
-- network.c (processpacket) and arch/linux_net.c (one round of qaoed_listener): a frame from the wire
-- becomes a work entry in the queue of each device that it is for. The device list is held for
-- reading throughout, so a call is one step; what `malloc` returns is an argument.
pub mod Flags
pub mod Offer
pub mod Delivery
use qaoed.Base.{
  ℕ, ◌+◌, ℤ, to_size, List, [], ◌∷◌, Option, none, some, Bool, true, false, not, ◌&&◌, bit_and,
  Outcome, done, valid, ◌>>=◌, ltb, ◌==◌, if◌then◌else◌,
}
use qaoed.Wire.{Host, AoeHdr, aoe_hdr_size, aoe_flag_rsp, eth_p_aoe}
use qaoed.Wire.Layout.{load_aoe}
use qaoed.Queue.{insertwork}
use qaoed.Conf.{AoeDev}
use qaoed.Memory.{
  Memory, WorkEntry, pktdestroy, workdestroy, hold_work, hold_rawbuf, set_pkt, set_work,
  worktype_packet,
}

-- The devices and the heap, as a packet finds them.
pub record Net : Type 0 where
  pub devices : List AoeDev
  pub mem : Memory

-- What `malloc` returns: for the work entry, and for the queue entries of the two loops.
pub record Allocs : Type 0 where
  pub work : Option ℕ
  pub entry : ℕ → Option ℕ
  pub bcast_entry : ℕ → Option ℕ

abbrev pub is_at : ℕ → ℕ → AoeDev → Bool
is_at shelf slot d = (d.shelf == shelf) && (d.slot == slot)

-- `(aoepkt->ver_flags & htons(AOE_FLAG_RSP)) > 0`
unfoldable pub is_response : Host → ℕ → Bool
is_response host ver_flags = ltb 0 (bit_and ver_flags (host.htons aoe_flag_rsp))

-- The body of either loop: two counters go up, and the work goes into the queue.
unfoldable pub deliver : ℕ → Option ℕ → AoeDev → Memory → Outcome (AoeDev × Memory)
deliver w qe d m = do
  m1 ← hold_work w m >>= hold_rawbuf w
  queue ← insertwork qe w d.queue
  done (record d { queue = queue }, m1)

-- A loop over the devices from the i-th on, for those that pass the test.
unfoldable pub offer :
    (AoeDev → Bool) → ℕ → (ℕ → Option ℕ) → ℕ → List AoeDev → Memory → Outcome (List AoeDev × Memory)
offer test w entry i [] m = done ([], m)
offer test w entry i (d ∷ ds) m = do
  (d', m1) ← if test d then deliver w (entry i) d m else done (d, m)
  (ds', m2) ← offer test w entry (i + 1) ds m1
  done (d' ∷ ds', m2)

abbrev pub is_broadcast : ℕ → ℕ → Bool
is_broadcast shelf slot = (shelf == 0xffff) && (slot == 0xff)

abbrev pub fresh_work : ℕ → ℕ → ℤ → WorkEntry
fresh_work ifentry p len = record {
  type = worktype_packet;
  rawbuf = some p;
  aoepkt = some p;
  packet_len = len;
  ifentry = ifentry;
  refcount = 1;
}

-- From the `malloc` of the work entry on; if that fails, the packet's struct is freed as it is.
unfoldable pub dispatch : Option ℕ → Allocs → ℕ → ℕ → ℤ → ℕ → ℕ → Net → Outcome Net
dispatch none al ifentry p len shelf slot s = done (record s { mem = set_pkt p none s.mem })
dispatch (some w) al ifentry p len shelf slot s = do
  (ds1, m1) ←
      offer (is_at shelf slot) w al.entry 0 s.devices
        (set_work w (some (fresh_work ifentry p len)) s.mem)
  (ds2, m2) ←
      if is_broadcast shelf slot
      then offer (λ _. true) w al.bcast_entry 0 ds1 m1
      else done (ds1, m1)
  m3 ← workdestroy (some w) m2
  done (record { devices = ds2; mem = m3 })

unfoldable pub drop_packet : ℕ → Net → Outcome Net
drop_packet p s = do (gone, m) ← pktdestroy p s.mem; done (record s { mem = m })

-- `processpacket` once the header is read.
unfoldable pub classify : Host → Allocs → ℕ → ℕ → ℤ → AoeHdr → Net → Outcome Net
classify host al ifentry p len aoe s =
    if not (host.ntohs aoe.eth.h_proto == eth_p_aoe)
    then drop_packet p s
    else if is_response host aoe.ver_flags
    then drop_packet p s
    else dispatch al.work al ifentry p len (host.ntohs aoe.shelf) aoe.slot s

-- `len` is an `int`, and is compared as a `size_t`.
unfoldable pub processpacket : Host → Allocs → ℕ → ℕ → ℤ → Net → Outcome Net
processpacket host al ifentry p len s =
    if ltb (to_size len) aoe_hdr_size then drop_packet p s else do
      k ← valid (s.mem.pkts p)
      (aoe, rest) ← load_aoe host.order k.raw
      classify host al ifentry p len aoe s

-- What the listener does with a packet once `read` has returned `len` (-1 for an error).
unfoldable pub received : Host → Allocs → ℕ → ℕ → ℤ → Net → Outcome Net
received host al ifentry p len s =
    if ltb (to_size len) aoe_hdr_size then done s else processpacket host al ifentry p len s
