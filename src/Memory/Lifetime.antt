-- ===== src/Memory/Lifetime.antt =====
-- The life of a work entry and its packet: both count the same holders, and the last one frees them.
use qaoed.Base.{
  ℕ, zero, suc, ◌+◌, ◌-◌, ◌≡◌, refl, ap, subst, ◌∙◌, write_self, ◌≢◌, Option, none, some, Outcome,
  done, ◌>>=◌, arith, ltb, write, true, false,
}
use qaoed.Memory.{
  Pkt, WorkEntry, Memory, pktdestroy, drop_rawbuf, drop_work, workdestroy, hold_work, hold_rawbuf,
  set_pkt, set_work,
}

-- The work entry e and its packet k are there, and n hold each of them.
pub record IsHeld (m : Memory) (w p : ℕ) (e : WorkEntry) (k : Pkt) (n : ℕ) : Type 0 where
  pub at_w : m.works w ≡ some (record e { rawbuf = some p; refcount = n })
  pub at_p : m.pkts p ≡ some (record k { refcount = n })

-- Both have been given back.
abbrev pub IsFreed : Memory → ℕ → ℕ → Type 0
IsFreed m w p = (m.works w ≡ none) × (m.pkts p ≡ none)

-- Nothing but the work entry and its packet has changed.
pub record SameElse (w p : ℕ) (m m' : Memory) : Type 0 where
  pub works : (v : ℕ) → v ≢ w → m'.works v ≡ m.works v
  pub pkts : (q : ℕ) → q ≢ p → m'.pkts q ≡ m.pkts q

pub SameElse-trans :
    {w p : ℕ} {m m' m'' : Memory} → SameElse w p m m' → SameElse w p m' m'' → SameElse w p m m''
SameElse-trans s t = record {
  works = λ v h. t.works v h ∙ s.works v h;
  pkts = λ q h. t.pkts q h ∙ s.pkts q h;
}

-- The memory in which other counts stand.
abbrev with_counts : Memory → ℕ → ℕ → Option WorkEntry → Option Pkt → Memory
with_counts m w p c d = record { pkts = write m.pkts p d; works = write m.works w c }

pktdestroy-more :
    (m : Memory) (p n : ℕ) (k : Pkt)
    → m.pkts p ≡ some (record k { refcount = suc (suc n) })
    → pktdestroy p m ≡ done (false, set_pkt p (some (record k { refcount = suc n })) m)
unfolding pktdestroy
pktdestroy-more m p n k e =
    let left : suc (suc n) - 1 ≡ suc n = omega arith in
    let test : ltb (suc n) 1 ≡ false = ground arith in rw (e, left, test)

pub pktdestroy-last :
    (m : Memory) (p : ℕ) (k : Pkt)
    → m.pkts p ≡ some (record k { refcount = 1 })
    → pktdestroy p m ≡ done (true, set_pkt p none m)
unfolding pktdestroy
pktdestroy-last m p k e = rw e

drop_work-more :
    (m : Memory) (w n : ℕ) (e : WorkEntry)
    → drop_work w (record e { refcount = suc (suc n) }) m
      ≡ set_work w (some (record e { refcount = suc n })) m
unfolding drop_work
drop_work-more m w n e =
    let left : suc (suc n) - 1 ≡ suc n = omega arith in
    let test : ltb (suc n) 1 ≡ false = ground arith in rw (left, test)

module _ {m : Memory} {w p : ℕ} {e : WorkEntry} {k : Pkt} where
  -- One more holder of the work entry and of its packet.
  pub hold-IsHeld :
      (n : ℕ)
      → IsHeld m w p e k n
      → (m' : Memory) × ((hold_work w m >>= hold_rawbuf w) ≡ done m')
        × IsHeld m' w p e k (n + 1)
        × SameElse w p m m'
  unfolding hold_work hold_rawbuf
  hold-IsHeld n h = (
    with_counts m w p (some (record e { rawbuf = some p; refcount = n + 1 }))
        (some (record k { refcount = n + 1 })),
    rw (
      h.at_w,
      write_self m.works (some (record e { rawbuf = some p; refcount = n + 1 })) w,
      h.at_p,
    ),
    record { at_w = ground arith; at_p = ground arith },
    record { works = λ v d. ground arith; pkts = λ q d. ground arith },
  )

  -- A holder that is not the last one: both counts go down by one.
  pub workdestroy-IsHeld :
      (n : ℕ)
      → IsHeld m w p e k (suc (suc n))
      → (m' : Memory) × (workdestroy (some w) m ≡ done m')
        × IsHeld m' w p e k (suc n)
        × SameElse w p m m'
  unfolding workdestroy drop_rawbuf
  workdestroy-IsHeld n h = (
    with_counts m w p (some (record e { rawbuf = some p; refcount = suc n }))
        (some (record k { refcount = suc n })),
    rw (h.at_w, pktdestroy-more m p n k h.at_p)
        (ap done (
          drop_work-more (set_pkt p (some (record k { refcount = suc n })) m) w n
            (record e { rawbuf = some p }))),
    record { at_w = ground arith; at_p = ground arith },
    record { works = λ v d. ground arith; pkts = λ q d. ground arith },
  )

  -- The last holder: both are freed.
  pub workdestroy-IsFreed :
      IsHeld m w p e k 1
      → (m' : Memory) × (workdestroy (some w) m ≡ done m') × IsFreed m' w p × SameElse w p m m'
  unfolding workdestroy drop_rawbuf drop_work
  workdestroy-IsFreed h = (
    with_counts m w p none none,
    rw (h.at_w, pktdestroy-last m p k h.at_p),
    (ground arith, ground arith),
    record { works = λ v d. ground arith; pkts = λ q d. ground arith },
  )

-- n calls of `workdestroy`, as n workers make them.
unfoldable pub release_all : ℕ → ℕ → Memory → Outcome Memory
release_all zero w m = done m
release_all (suc n) w m = do m' ← workdestroy (some w) m; release_all n w m'

-- The releases of all holders free the work entry and its packet.
release_all-IsFreed :
    (n : ℕ) (m : Memory) (w p : ℕ) (e : WorkEntry) (k : Pkt)
    → IsHeld m w p e k (suc n)
    → (m' : Memory) × (release_all (suc n) w m ≡ done m') × IsFreed m' w p × SameElse w p m m'
unfolding release_all
release_all-IsFreed zero m w p e k h =
    let (m', r, freed, same) = workdestroy-IsFreed h in (m', rw r, freed, same)
release_all-IsFreed (suc n) m w p e k h =
    let (m1, r1, h1, same1) = workdestroy-IsHeld n h in
    let (m2, r2, freed, same2) = release_all-IsFreed n m1 w p e k h1 in
    (m2, rw r1 r2, freed, SameElse-trans same1 same2)

-- While one holder is left, k releases out of more than k leave the work entry and its packet in
-- memory as they were, with the counts that much lower.
release_all-IsHeld :
    (j n : ℕ) (m : Memory) (w p : ℕ) (e : WorkEntry) (k : Pkt)
    → IsHeld m w p e k (suc n + j)
    → (m' : Memory) × (release_all j w m ≡ done m') × IsHeld m' w p e k (suc n) × SameElse w p m m'
unfolding release_all
release_all-IsHeld zero n m w p e k h = (
  m,
  refl,
  subst (IsHeld m w p e k) (omega arith) h,
  record { works = λ v d. refl; pkts = λ q d. refl },
)
release_all-IsHeld (suc j) n m w p e k h =
    let (m1, r1, h1, same1) =
      workdestroy-IsHeld (n + j) (subst (IsHeld m w p e k) (omega arith) h) in
    let (m2, r2, h2, same2) =
      release_all-IsHeld j n m1 w p e k (subst (IsHeld m1 w p e k) (omega arith) h1) in
    (m2, rw r1 r2, h2, SameElse-trans same1 same2)

-- A work entry and its packet that j + n + 1 queues hold stay in memory as they are through any j
-- releases, with the counts of both that much lower, and the n + 1 releases after these free both. No
-- release faults, and nothing else in memory changes. So the last release frees them, and none before.
pub release_all-Lifetime :
    (j n : ℕ) (m : Memory) (w p : ℕ) (e : WorkEntry) (k : Pkt)
    → IsHeld m w p e k (suc n + j)
    → (m1 : Memory) × (m2 : Memory) × (release_all j w m ≡ done m1)
      × IsHeld m1 w p e k (suc n)
      × (release_all (suc n) w m1 ≡ done m2)
      × IsFreed m2 w p
      × SameElse w p m m2
release_all-Lifetime j n m w p e k h =
    let (m1, r1, held, same1) = release_all-IsHeld j n m w p e k h in
    let (m2, r2, freed, same2) = release_all-IsFreed n m1 w p e k held in
    (m1, m2, r1, held, r2, freed, SameElse-trans same1 same2)
