-- ===== src/Network/Delivery.antt =====
-- What `processpacket` does with a request: the queues, the counters and the memory afterwards.
use qaoed.Base.{
  ℕ, zero, suc, ◌+◌, ℤ, to_size, ◌≡◌, refl, ap, subst, ◌∙◌, inl, inr, List, [], ◌∷◌, ◌++◌, none,
  some, true, false, arith, Outcome, done, if◌then◌else◌, Bool-cases, ltb, ◌==◌, length,
}
use qaoed.Wire.{Host, AoeHdr, aoe_hdr_size, eth_p_aoe}
use qaoed.Wire.Layout.{load_aoe}
use qaoed.Queue.Chain.{Cells}
use qaoed.Conf.{AoeDev}
use qaoed.Memory.{Memory, WorkEntry, Pkt, workdestroy, set_work, set_pkt}
use qaoed.Memory.Lifetime.{
  IsHeld, IsFreed, SameElse, SameElse-trans, workdestroy-IsHeld, workdestroy-IsFreed,
  pktdestroy-last,
}
use qaoed.Network.{
  Net, Allocs, is_at, is_response, is_broadcast, fresh_work, offer, dispatch, drop_packet, classify,
  processpacket,
}
use qaoed.Network.Offer.{Queued, SameButQueues, Room, offered, count, offer-Offered}

-- n holders are left; with none, both are freed.
abbrev pub Fate : Memory → ℕ → ℕ → WorkEntry → Pkt → ℕ → Type 0
Fate m w p e k zero = IsFreed m w p
Fate m w p e k (suc n) = IsHeld m w p e k (suc n)

pub workdestroy-Fate :
    (n : ℕ) {m : Memory} {w p : ℕ} {e : WorkEntry} {k : Pkt}
    → IsHeld m w p e k (suc n)
    → (m' : Memory) × (workdestroy (some w) m ≡ done m') × Fate m' w p e k n × SameElse w p m m'
workdestroy-Fate zero h = workdestroy-IsFreed h
workdestroy-Fate (suc n) h = workdestroy-IsHeld n h

-- How many queues get the work.
abbrev pub holders : ℕ → ℕ → List AoeDev → ℕ
holders shelf slot ds =
    count (is_at shelf slot) ds + (if is_broadcast shelf slot then length ds else 0)

-- The queues afterwards: first those of the devices with the address, then, for a broadcast, all.
abbrev pub delivered : (addr bcast_addr : ℕ → ℕ) → ℕ → ℕ → ℕ → List AoeDev → List Cells → List Cells
delivered addr bcast_addr w shelf slot ds cs =
    let cs1 = offered (is_at shelf slot) addr w 0 ds cs in
    if is_broadcast shelf slot then offered (λ _. true) bcast_addr w 0 ds cs1 else cs1

count_all : (ds es : List AoeDev) → SameButQueues ds es → count (λ _. true) es ≡ length ds
count_all [] [] s = refl
count_all [] (e ∷ es) s = absurd s
count_all (d ∷ ds) [] s = absurd s
count_all (d ∷ ds) (e ∷ es) s = omega (arith, count_all ds es s.1)

offered_all :
    (addr : ℕ → ℕ) (w i : ℕ) (ds es : List AoeDev) (cs : List Cells)
    → SameButQueues ds es
    → offered (λ _. true) addr w i es cs ≡ offered (λ _. true) addr w i ds cs
offered_all addr w i [] [] cs s = refl
offered_all addr w i [] (e ∷ es) cs s = absurd s
offered_all addr w i (d ∷ ds) [] cs s = absurd s
offered_all addr w i (d ∷ ds) (e ∷ es) [] s = refl
offered_all addr w i (d ∷ ds) (e ∷ es) (c ∷ cs) s =
    ap (λ l. (c ++ ((addr i, w) ∷ [])) ∷ l) (offered_all addr w (i + 1) ds es cs s.1)

SameButQueues-trans :
    (ds es fs : List AoeDev) → SameButQueues ds es → SameButQueues es fs → SameButQueues ds fs
SameButQueues-trans [] [] [] s t = tt
SameButQueues-trans [] [] (f ∷ fs) s t = absurd t
SameButQueues-trans [] (e ∷ es) fs s t = absurd s
SameButQueues-trans (d ∷ ds) [] fs s t = absurd s
SameButQueues-trans (d ∷ ds) (e ∷ es) [] s t = absurd t
SameButQueues-trans (d ∷ ds) (e ∷ es) (f ∷ fs) s t = (
  ap (λ (x : AoeDev). record x { queue = d.queue }) t.0 ∙ s.0,
  SameButQueues-trans ds es fs s.1 t.1,
)

-- A packet that `processpacket` takes for a request to a shelf and a slot.
pub record IsRequest (host : Host) (p : ℕ) (len : ℤ) (s : Net) (k : Pkt) (aoe : AoeHdr)
    : Type 0 where
  pub long : ltb (to_size len) aoe_hdr_size ≡ false
  pub packet : s.mem.pkts p ≡ some (record k { refcount = 1 })
  pub rest : List ℕ
  pub header : load_aoe host.order k.raw ≡ done (aoe, rest)
  pub proto : (host.ntohs aoe.eth.h_proto == eth_p_aoe) ≡ true
  pub request : is_response host aoe.ver_flags ≡ false

-- `malloc` gives the work entry an unused address, and each queue entry one that is not in its queue.
pub record IsGranted (al : Allocs) (w : ℕ) (addr bcast_addr : ℕ → ℕ) (cs cs1 : List Cells)
    : Type 0 where
  pub work : al.work ≡ some w
  pub entry : (i : ℕ) → al.entry i ≡ some (addr i)
  pub bcast_entry : (i : ℕ) → al.bcast_entry i ≡ some (bcast_addr i)
  pub room : Room (λ _. true) addr 0 cs
  pub bcast_room : Room (λ _. true) bcast_addr 0 cs1

-- What a request leaves behind.
abbrev pub Delivers : ℕ → ℕ → WorkEntry → Pkt → ℕ → List Cells → Net → Outcome Net → Type 0
Delivers w p e k n cs s r =
    (s' : Net) × (r ≡ done s')
    × Queued s'.devices cs
    × SameButQueues s.devices s'.devices
    × Fate s'.mem w p e k n
    × SameElse w p s.mem s'.mem

module _ (al : Allocs) (w p : ℕ) (addr bcast_addr : ℕ → ℕ) where
  -- The second loop, after the first.
  second_loop :
      (shelf slot : ℕ) (ds ds1 : List AoeDev) (cs1 : List Cells) (n : ℕ) (m1 : Memory)
      {e : WorkEntry} {k : Pkt}
      → ((i : ℕ) → al.bcast_entry i ≡ some (bcast_addr i))
      → SameButQueues ds ds1
      → Queued ds1 cs1
      → Room (λ _. true) bcast_addr 0 cs1
      → IsHeld m1 w p e k n
      → (ds2 : List AoeDev) × (m2 : Memory) × ((if is_broadcast shelf slot
            then offer (λ _. true) w al.bcast_entry 0 ds1 m1
            else done (ds1, m1))
          ≡ done (ds2, m2))
        × Queued ds2
            (if is_broadcast shelf slot then offered (λ _. true) bcast_addr w 0 ds cs1 else cs1)
        × SameButQueues ds ds2
        × IsHeld m2 w p e k (n + (if is_broadcast shelf slot then length ds else 0))
        × SameElse w p m1 m2
  second_loop shelf slot ds ds1 cs1 n m1 {e} {k} grant same v room h =
      elim (Bool-cases (is_broadcast shelf slot)) [
        | inl yes_all ↦
            let (ds2, m2, r2, v2, s2, h2, same2) =
              offer-Offered (λ _. true) bcast_addr al.bcast_entry grant 0 ds1 cs1 n m1 v room h in
            rw yes_all (
              ds2,
              m2,
              r2,
              subst (Queued ds2) (offered_all bcast_addr w 0 ds ds1 cs1 same) v2,
              SameButQueues-trans ds ds1 ds2 same s2,
              subst (IsHeld m2 w p e k) (ap (λ c. n + c) (count_all ds ds1 same)) h2,
              same2,
            )
        | inr addressed ↦ rw addressed (
          ds1,
          m1,
          refl,
          v,
          same,
          subst (IsHeld m1 w p e k) (omega arith) h,
          record { works = λ v d. refl; pkts = λ q d. refl },
        )
      ]

  dispatch-Delivers :
      (ifentry : ℕ) (len : ℤ) (shelf slot : ℕ) (s : Net) (cs : List Cells) (k : Pkt)
      → IsGranted al w addr bcast_addr cs (offered (is_at shelf slot) addr w 0 s.devices cs)
      → s.mem.pkts p ≡ some (record k { refcount = 1 })
      → Queued s.devices cs
      → Delivers w p
          (fresh_work ifentry p len)
          k
          (holders shelf slot s.devices)
          (delivered addr bcast_addr w shelf slot s.devices cs)
          s
          (dispatch (some w) al ifentry p len shelf slot s)
  unfolding dispatch
  dispatch-Delivers ifentry len shelf slot s cs k g at_p v =
      let m0 = set_work w (some (fresh_work ifentry p len)) s.mem in
      let h0 : IsHeld m0 w p (fresh_work ifentry p len) k 1 = record {
        at_w = ground arith;
        at_p = at_p;
      } in
      let (ds1, m1, r1, v1, s1, h1, same1) =
        offer-Offered (is_at shelf slot) addr al.entry g.entry 0 s.devices cs 1 m0 v g.room h0 in
      let (ds2, m2, r2, v2, s2, h2, same2) =
        second_loop shelf slot s.devices ds1 (offered (is_at shelf slot) addr w 0 s.devices cs)
          (1 + count (is_at shelf slot) s.devices) m1 g.bcast_entry s1 v1 g.bcast_room h1 in
      let (m3, r3, fate, same3) =
        workdestroy-Fate (holders shelf slot s.devices)
          (subst (IsHeld m2 w p (fresh_work ifentry p len) k) (omega arith) h2) in
      (
        record { devices = ds2; mem = m3 },
        rw (r1, r2, r3),
        v2,
        s2,
        fate,
        SameElse-trans (SameElse-trans first same1) (SameElse-trans same2 same3),
      )
    where
      first : SameElse w p s.mem (set_work w (some (fresh_work ifentry p len)) s.mem)
      first = record { works = λ v d. ground arith; pkts = λ q d. refl }

  -- A request goes to the end of the queue of each device with its shelf and slot, and of every
  -- device if it is a broadcast; nothing else of a device changes. The work entry and the packet end
  -- up counted once for each queue that got them, and are freed at once if none did; the rest of the
  -- memory stays. This supposes that `malloc` gives free addresses.
  pub processpacket-Delivers :
      (host : Host) (ifentry : ℕ) (len : ℤ) (s : Net) (cs : List Cells) (k : Pkt) (aoe : AoeHdr)
      → IsRequest host p len s k aoe
      → IsGranted al w addr bcast_addr cs
          (offered (is_at (host.ntohs aoe.shelf) aoe.slot) addr w 0 s.devices cs)
      → Queued s.devices cs
      → Delivers w p
          (fresh_work ifentry p len)
          k
          (holders (host.ntohs aoe.shelf) aoe.slot s.devices)
          (delivered addr bcast_addr w (host.ntohs aoe.shelf) aoe.slot s.devices cs)
          s
          (processpacket host al ifentry p len s)
  unfolding processpacket classify dispatch
  processpacket-Delivers host ifentry len s cs k aoe q g v =
      rw (q.long, q.packet, q.header, q.proto, q.request, g.work)
        (dispatch-Delivers ifentry len (host.ntohs aoe.shelf) aoe.slot s cs k g q.packet v)

-- Why a packet is dropped: it is too short, of another protocol, or taken for a response.
pub data IsDropped (host : Host) (p : ℕ) (len : ℤ) (s : Net) (k : Pkt) : Type 0 where
  short : ltb (to_size len) aoe_hdr_size ≡ true → IsDropped host p len s k
  other_proto :
      (aoe : AoeHdr) (rest : List ℕ)
      → ltb (to_size len) aoe_hdr_size ≡ false
      → load_aoe host.order k.raw ≡ done (aoe, rest)
      → (host.ntohs aoe.eth.h_proto == eth_p_aoe) ≡ false
      → IsDropped host p len s k
  response :
      (aoe : AoeHdr) (rest : List ℕ)
      → ltb (to_size len) aoe_hdr_size ≡ false
      → load_aoe host.order k.raw ≡ done (aoe, rest)
      → is_response host aoe.ver_flags ≡ true
      → IsDropped host p len s k

drop_packet_lem :
    (p : ℕ) (s : Net) (k : Pkt)
    → s.mem.pkts p ≡ some (record k { refcount = 1 })
    → drop_packet p s ≡ done (record s { mem = set_pkt p none s.mem })
unfolding drop_packet
drop_packet_lem p s k e = rw (pktdestroy-last s.mem p k e)

-- A packet with one holder that is too short, of another protocol or taken for a response is freed,
-- and the devices and the rest of the memory stay as they were.
pub processpacket_drops :
    (host : Host) (al : Allocs) (ifentry p : ℕ) (len : ℤ) (s : Net) (k : Pkt)
    → s.mem.pkts p ≡ some (record k { refcount = 1 })
    → IsDropped host p len s k
    → processpacket host al ifentry p len s ≡ done (record s { mem = set_pkt p none s.mem })
unfolding processpacket classify
processpacket_drops host al ifentry p len s k e (short h) = rw h (drop_packet_lem p s k e)
processpacket_drops host al ifentry p len s k e (other_proto aoe rest long load h) =
    rw (long, e, load, h) (drop_packet_lem p s k e)
processpacket_drops host al ifentry p len s k e (response aoe rest long load h) =
    elim (Bool-cases (host.ntohs aoe.eth.h_proto == eth_p_aoe)) [
      | inl same ↦ rw (long, e, load, same, h) (drop_packet_lem p s k e)
      | inr other ↦ rw (long, e, load, other) (drop_packet_lem p s k e)
    ]
