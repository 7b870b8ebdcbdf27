-- ===== src/Queue/Fifo.antt =====
-- A linked queue behaves as the list of its entries: first in, first out.
use qaoed.Base.{
  ℕ, ◌≡◌, refl, sym, Option, none, some, List, [], ◌∷◌, ◌++◌, arith, write, Outcome, done, ◌>>=◌,
}
use qaoed.Queue.{QueueEntry, Queue, start_queue, link_end, link, insertwork, unlink_from, unlink}
use qaoed.Queue.Chain.{
  Cells, head_addr, last_addr, Away, Away-last, Chain, Chain-write, last-Chain, last_addr-snoc,
  Chain-snoc,
}

-- The three pointers and the memory spell out the entries xs. (`qstart` always equals `q`.)
pub record IsFifo (d : Queue) (xs : Cells) : Type 0 where
  pub at_q : d.q ≡ head_addr xs
  pub at_qstart : d.qstart ≡ head_addr xs
  pub at_qend : d.qend ≡ last_addr xs
  pub chain : Chain d.cells xs

pub start_queue-IsFifo : (cells : ℕ → Option QueueEntry) → IsFifo (start_queue cells) []
start_queue-IsFifo cells = record { at_q = refl; at_qstart = refl; at_qend = refl; chain = tt }

start_at : Queue → ℕ → ℕ → Queue
start_at d qe work = record {
  cells = write d.cells qe (some (record { work = work; next = none }));
  q = some qe;
  qstart = some qe;
  qend = some qe;
}

-- Given a free address, `insertwork` puts the work behind all the others, without a fault.
pub insertwork-IsFifo :
    (d : Queue) (xs : Cells) (qe work : ℕ)
    → IsFifo d xs
    → Away qe xs
    → (d' : Queue) × (insertwork (some qe) work d ≡ done d') × IsFifo d' (xs ++ ((qe, work) ∷ []))
unfolding insertwork link start_at link_end
insertwork-IsFifo d [] qe work v out = (
  start_at d qe work,
  rw v.at_q,
  record { at_q = refl; at_qstart = refl; at_qend = refl; chain = (ground arith, tt, tt) },
)
insertwork-IsFifo d ((a, w) ∷ xs) qe work v out =
    let cells = write d.cells qe (some (record { work = work; next = none })) in
    let ch =
      Chain-write d.cells qe (some (record { work = work; next = none })) ((a, w) ∷ xs) out
        v.chain in
    let (l, u, last, e) = last-Chain (a, w) xs ch in
    (
      record d {
        cells = write cells l (some (record { work = u; next = some qe }));
        qend = some qe;
      },
      rw (v.at_q, v.at_qend, last, link_end, e),
      record {
        at_q = v.at_q;
        at_qstart = v.at_qstart;
        at_qend = sym (last_addr-snoc ((a, w) ∷ xs) qe work);
        chain = Chain-snoc cells (a, w) xs qe work l u ch out (ground arith) last e;
      },
    )

-- The queue without its first entry.
abbrev rest_at : Queue → ℕ → Cells → Queue
rest_at d qe xs = record {
  cells = write d.cells qe none;
  q = head_addr xs;
  qstart = head_addr xs;
  qend = last_addr xs;
}

unlink_from-rest :
    (d : Queue) (xs : Cells) (qe work : ℕ)
    → IsFifo d ((qe, work) ∷ xs)
    → unlink_from (some qe) d ≡ done (some work, rest_at d qe xs)
unfolding unlink_from
unlink_from-rest d [] qe work v = ground (arith, v.chain.0)
unlink_from-rest d ((a, w) ∷ xs) qe work v =
    let (l, u, last, e) = last-Chain (a, w) xs v.chain.2 in
    let apart = Away-last qe (a, w) xs l v.chain.1 last in
    ground (arith, v.chain.0, v.at_qend, last, apart)

-- `unlink` takes the oldest work and frees its entry, without a fault; the others stay in order.
pub unlink-IsFifo :
    (d : Queue) (xs : Cells) (qe work : ℕ)
    → IsFifo d ((qe, work) ∷ xs)
    → (d' : Queue) × (unlink d ≡ done (some work, d')) × IsFifo d' xs × (d'.cells qe ≡ none)
unfolding unlink unlink_from
unlink-IsFifo d xs qe work v = (
  rest_at d qe xs,
  rw v.at_q (unlink_from-rest d xs qe work v),
  record {
    at_q = refl;
    at_qstart = refl;
    at_qend = refl;
    chain = Chain-write d.cells qe none xs v.chain.1 v.chain.2;
  },
  ground arith,
)

-- An empty queue gives no work and stays as it is.
pub unlink-empty : (d : Queue) → IsFifo d [] → unlink d ≡ done (none, d)
unfolding unlink unlink_from
unlink-empty d v = rw v.at_q

-- What the listener and the worker do to a queue: `malloc` gives the address of a new entry.
pub data Event : Type 0 where
  put : ℕ → ℕ → Event
  take_work : Event

-- The works that the worker is handed, in order; `none` is a wake-up with an empty queue.
unfoldable pub run : List Event → Queue → Outcome (List (Option ℕ) × Queue)
run [] d = done ([], d)
run (put qe work ∷ es) d = do d' ← insertwork (some qe) work d; run es d'
run (take_work ∷ es) d = do (got, d') ← unlink d; (later, d'') ← run es d'; done (got ∷ later, d'')

-- The same events on a plain list.
unfoldable pub fifo : List Event → Cells → List (Option ℕ) × Cells
fifo [] xs = ([], xs)
fifo (put qe work ∷ es) xs = fifo es (xs ++ ((qe, work) ∷ []))
fifo (take_work ∷ es) [] = let (later, ys) = fifo es [] in (none ∷ later, ys)
fifo (take_work ∷ es) ((a, w) ∷ xs) = let (later, ys) = fifo es xs in (some w ∷ later, ys)

-- `malloc` gives no address that an entry of the queue has.
abbrev pub Fresh : List Event → Cells → Type 0
Fresh [] xs = Unit
Fresh (put qe work ∷ es) xs = Away qe xs × Fresh es (xs ++ ((qe, work) ∷ []))
Fresh (take_work ∷ es) [] = Fresh es []
Fresh (take_work ∷ es) (c ∷ xs) = Fresh es xs

-- No sequence of insertions and removals tells the linked queue from a first-in first-out list: it
-- never faults, hands out the same works in the same order, and ends as the same list, if each new
-- entry gets an address that no entry of the queue has.
pub run_refines :
    (es : List Event) (d : Queue) (xs : Cells)
    → IsFifo d xs
    → Fresh es xs
    → (d' : Queue) × (run es d ≡ done ((fifo es xs).0, d')) × IsFifo d' (fifo es xs).1
unfolding run fifo
run_refines [] d xs v fresh = (d, refl, v)
run_refines (put qe work ∷ es) d xs v fresh =
    let (d1, e, v1) = insertwork-IsFifo d xs qe work v fresh.0 in
    let (d2, e2, v2) = run_refines es d1 (xs ++ ((qe, work) ∷ [])) v1 fresh.1 in
    (d2, rw (e, e2), v2)
run_refines (take_work ∷ es) d [] v fresh =
    let (d2, e2, v2) = run_refines es d [] v fresh in (d2, rw (unlink-empty d v, e2), v2)
run_refines (take_work ∷ es) d ((a, w) ∷ xs) v fresh =
    let (d1, e, v1, gone) = unlink-IsFifo d xs a w v in
    let (d2, e2, v2) = run_refines es d1 xs v1 fresh in (d2, rw (e, e2), v2)
