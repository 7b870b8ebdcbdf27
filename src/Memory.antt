-- ===== src/Memory.antt =====
-- network.c: packets and work entries on the heap, with their reference counters. The counters are
-- changed under a lock of their own, so a change is one step; reading what was freed is a fault.
pub mod Lifetime
use qaoed.Base.{
  ℕ, ◌+◌, ◌-◌, ℤ, List, Option, none, some, Bool, true, false, Outcome, done, fault, blocked, valid,
  ◌>>=◌, ltb, if◌then◌else◌, write,
}

-- `struct pkt`; `raw` is the buffer from the AoE header on.
pub record Pkt : Type 0 where
  pub raw : List ℕ
  pub refcount : ℕ

-- `struct workentry`; a pointer to a packet is its address, and `aoepkt` points into its buffer.
pub record WorkEntry : Type 0 where
  pub type : ℕ
  pub rawbuf : Option ℕ
  pub aoepkt : Option ℕ
  pub packet_len : ℤ
  pub ifentry : ℕ
  pub refcount : ℕ

pub record Memory : Type 0 where
  pub pkts : ℕ → Option Pkt
  pub works : ℕ → Option WorkEntry

abbrev pub worktype_packet : ℕ
worktype_packet = 1

abbrev pub set_pkt : ℕ → Option Pkt → Memory → Memory
set_pkt p c m = record m { pkts = write m.pkts p c }

abbrev pub set_work : ℕ → Option WorkEntry → Memory → Memory
set_work w c m = record m { works = write m.works w c }

-- The result is true when the packet is gone (the source returns 0).
unfoldable pub pktdestroy : ℕ → Memory → Outcome (Bool × Memory)
pktdestroy p m = do
  k ← valid (m.pkts p)
  let left = k.refcount - 1
  if ltb left 1
      then done (true, set_pkt p none m)
      else done (false, set_pkt p (some (record k { refcount = left })) m)

-- `if(work->rawbuf != NULL) if(qaoed_pktdestroy(work->rawbuf) == 0) work->rawbuf = NULL;`
unfoldable pub drop_rawbuf : Option ℕ → Memory → Outcome (Option ℕ × Memory)
drop_rawbuf none m = done (none, m)
drop_rawbuf (some p) m = do (gone, m') ← pktdestroy p m; done (if gone then none else some p, m')

-- The part of `qaoed_workdestroy` under the lock of the work entry.
unfoldable pub drop_work : ℕ → WorkEntry → Memory → Memory
drop_work w e m =
    let left = e.refcount - 1 in
    if ltb left 1 then set_work w none m else set_work w (some (record e { refcount = left })) m

unfoldable pub workdestroy : Option ℕ → Memory → Outcome Memory
workdestroy none m = done m
workdestroy (some w) m = do
  e ← valid (m.works w)
  (rawbuf, m') ← drop_rawbuf e.rawbuf m
  done (drop_work w (record e { rawbuf = rawbuf }) m')

-- `work->refcount++` and `work->rawbuf->refcount++`
unfoldable pub hold_work : ℕ → Memory → Outcome Memory
hold_work w m = do
  e ← valid (m.works w)
  done (set_work w (some (record e { refcount = e.refcount + 1 })) m)

unfoldable pub hold_rawbuf : ℕ → Memory → Outcome Memory
hold_rawbuf w m = do
  e ← valid (m.works w)
  p ← valid e.rawbuf
  k ← valid (m.pkts p)
  done (set_pkt p (some (record k { refcount = k.refcount + 1 })) m)
