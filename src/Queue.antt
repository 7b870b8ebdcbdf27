-- ===== src/Queue.antt =====
-- network.c (insertwork) and devices.c (qaoed_worker, the part under the queue's lock): the queue of
-- a device, a linked list with three pointers. Queue entries live at addresses; a pointer is such an
-- address or NULL, and reading a freed entry is a fault.
pub mod Chain
pub mod Fifo
use qaoed.Base.{
  ℕ, Option, none, some, Outcome, done, fault, blocked, valid, ◌>>=◌, ◌==◌, if◌then◌else◌, write,
  Bool, true, false, List,
}

-- `struct queueentry`
pub record QueueEntry : Type 0 where
  pub work : ℕ
  pub next : Option ℕ

-- The queue fields of `struct aoedev`, with the memory of the entries.
pub record Queue : Type 0 where
  pub cells : ℕ → Option QueueEntry
  pub q : Option ℕ
  pub qstart : Option ℕ
  pub qend : Option ℕ

-- `a == b` on pointers.
abbrev pub same_ptr : Option ℕ → Option ℕ → Bool
same_ptr none none = true
same_ptr none (some b) = false
same_ptr (some a) none = false
same_ptr (some a) (some b) = a == b

-- `qaoed_startworker` leaves the queue empty.
abbrev pub start_queue : (ℕ → Option QueueEntry) → Queue
start_queue cells = record { cells = cells; q = none; qstart = none; qend = none }

-- `device->qend->next = qe; device->qend = qe`, if there is an end.
unfoldable pub link_end : ℕ → Option ℕ → Queue → Outcome Queue
link_end qe none d = done d
link_end qe (some last) d = do
  e ← valid (d.cells last)
  done
      (record d { cells = write d.cells last (some (record e { next = some qe })); qend = some qe })

unfoldable pub link : ℕ → Option ℕ → Queue → Outcome Queue
link qe none d = done (record d { q = some qe; qstart = some qe; qend = some qe })
link qe (some head) d = link_end qe d.qend d

-- The first argument is what `malloc` returns.
unfoldable pub insertwork : Option ℕ → ℕ → Queue → Outcome Queue
insertwork none work d = done d
insertwork (some qe) work d =
    link qe d.q (record d { cells = write d.cells qe (some (record { work = work; next = none })) })

-- What the worker does under the lock when `device->q` is the given pointer: it takes the work of
-- the first entry, unlinks the entry and frees it; on an empty queue it takes nothing.
unfoldable pub unlink_from : Option ℕ → Queue → Outcome (Option ℕ × Queue)
unlink_from none d = done (none, d)
unlink_from (some qe) d = do
  e ← valid (d.cells qe)
  done (
    some e.work,
    record d {
      cells = write d.cells qe none;
      q = e.next;
      qstart = if same_ptr (some qe) d.qstart then e.next else d.qstart;
      qend = if same_ptr (some qe) d.qend then none else d.qend;
    },
  )

unfoldable pub unlink : Queue → Outcome (Option ℕ × Queue)
unlink d = unlink_from d.q d
