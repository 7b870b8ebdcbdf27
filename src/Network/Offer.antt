-- ===== src/Network/Offer.antt =====
-- The loops of `processpacket`: which queues get the work, and how many hold it.
use qaoed.Base.{
  ℕ, ◌+◌, ◌≡◌, refl, subst, inl, inr, List, [], ◌∷◌, ◌++◌, Option, some, Bool, arith, Outcome, done,
  if◌then◌else◌, Bool-cases,
}
use qaoed.Queue.Chain.{Cells, Away}
use qaoed.Queue.Fifo.{IsFifo, insertwork-IsFifo}
use qaoed.Conf.{AoeDev}
use qaoed.Memory.{Memory, WorkEntry, Pkt}
use qaoed.Memory.Lifetime.{IsHeld, SameElse, SameElse-trans, hold-IsHeld}
use qaoed.Network.{deliver, offer}

-- The queues of the devices hold these entries.
abbrev pub Queued : List AoeDev → List Cells → Type 0
Queued [] [] = Unit {0}
Queued [] (c ∷ cs) = ⊥
Queued (d ∷ ds) [] = ⊥
Queued (d ∷ ds) (c ∷ cs) = IsFifo d.queue c × Queued ds cs

-- Two lists of devices differ in their queues only.
abbrev pub SameButQueues : List AoeDev → List AoeDev → Type 0
SameButQueues [] [] = Unit {0}
SameButQueues [] (e ∷ es) = ⊥
SameButQueues (d ∷ ds) [] = ⊥
SameButQueues (d ∷ ds) (e ∷ es) = (record e { queue = d.queue } ≡ d) × SameButQueues ds es

module _ (test : AoeDev → Bool) (addr : ℕ → ℕ) where
  -- `malloc` gives no address that the queue's entries have.
  abbrev pub Room : ℕ → List Cells → Type 0
  Room i [] = Unit
  Room i (c ∷ cs) = Away (addr i) c × Room (i + 1) cs

  -- The queues after the loop: the work w stands last in those of the devices that pass.
  abbrev pub offered : ℕ → ℕ → List AoeDev → List Cells → List Cells
  offered w i [] cs = cs
  offered w i (d ∷ ds) [] = []
  offered w i (d ∷ ds) (c ∷ cs) =
      (if test d then c ++ ((addr i, w) ∷ []) else c) ∷ offered w (i + 1) ds cs

-- How many devices pass.
abbrev pub count : (AoeDev → Bool) → List AoeDev → ℕ
count test [] = 0
count test (d ∷ ds) = (if test d then 1 else 0) + count test ds

-- What the loop leaves behind.
abbrev pub Offered :
    ℕ
    → ℕ
    → WorkEntry
    → Pkt
    → (AoeDev → Bool)
    → (ℕ → ℕ)
    → ℕ
    → List AoeDev
    → List Cells
    → ℕ
    → Memory
    → Outcome (List AoeDev × Memory)
    → Type 0
Offered w p e k test addr i ds cs n m r =
    (ds' : List AoeDev) × (m' : Memory) × (r ≡ done (ds', m'))
    × Queued ds' (offered test addr w i ds cs)
    × SameButQueues ds ds'
    × IsHeld m' w p e k (n + count test ds)
    × SameElse w p m m'

module _ {w p : ℕ} {e : WorkEntry} {k : Pkt} where
  pub deliver-IsFifo :
      (qe n : ℕ) (d : AoeDev) (c : Cells) (m : Memory)
      → IsFifo d.queue c
      → Away qe c
      → IsHeld m w p e k n
      → (d' : AoeDev) × (m' : Memory) × (deliver w (some qe) d m ≡ done (d', m'))
        × IsFifo d'.queue (c ++ ((qe, w) ∷ []))
        × (record d' { queue = d.queue } ≡ d)
        × IsHeld m' w p e k (n + 1)
        × SameElse w p m m'
  unfolding deliver
  deliver-IsFifo qe n d c m v out h =
      let (m', r, h', same) = hold-IsHeld n h in
      let (q', s, v') = insertwork-IsFifo d.queue c qe w v out in
      (record d { queue = q' }, m', rw (r, s), v', refl, h', same)

  module _ (test : AoeDev → Bool) (addr : ℕ → ℕ) (entry : ℕ → Option ℕ)
      (grant : (i : ℕ) → entry i ≡ some (addr i)) where
    pub offer-Offered :
        (i : ℕ) (ds : List AoeDev) (cs : List Cells) (n : ℕ) (m : Memory)
        → Queued ds cs
        → Room test addr i cs
        → IsHeld m w p e k n
        → Offered w p e k test addr i ds cs n m (offer test w entry i ds m)
    unfolding offer
    offer-Offered i [] [] n m v room h = (
      [],
      m,
      refl,
      tt,
      tt,
      subst (IsHeld m w p e k) (omega arith) h,
      record { works = λ v d. refl; pkts = λ q d. refl },
    )
    offer-Offered i [] (c ∷ cs) n m v room h = absurd v
    offer-Offered i (d ∷ ds) [] n m v room h = absurd v
    offer-Offered i (d ∷ ds) (c ∷ cs) n m v room h = elim (Bool-cases (test d)) [
      | inl hit ↦
          let (d1, m1, r1, v1, s1, h1, same1) = deliver-IsFifo (addr i) n d c m v.0 room.0 h in
          let (ds2, m2, r2, v2, s2, h2, same2) =
            offer-Offered (i + 1) ds cs (n + 1) m1 v.1 room.1 h1 in
          rw hit (
            d1 ∷ ds2,
            m2,
            rw (grant i, r1, r2),
            (v1, v2),
            (s1, s2),
            subst (IsHeld m2 w p e k) (omega arith) h2,
            SameElse-trans same1 same2,
          )
      | inr miss ↦
          let (ds2, m2, r2, v2, s2, h2, same2) = offer-Offered (i + 1) ds cs n m v.1 room.1 h in
          rw miss (
            d ∷ ds2,
            m2,
            rw r2,
            (v.0, v2),
            (refl, s2),
            subst (IsHeld m2 w p e k) (omega arith) h2,
            same2,
          )
    ]
