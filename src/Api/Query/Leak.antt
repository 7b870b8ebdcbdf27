-- ===== src/Api/Query/Leak.antt =====
-- What a request for the status does to the locks.
use qaoed.Base.{
  length, subst, sym, ap, ◌≢◌, ℕ, ◌+◌, ◌≡◌, arith, false, Outcome, done, fault, blocked,
}
use qaoed.Base.Results.{>>=-eq-done}
use qaoed.Conf.{RwLock, QConfig}
use qaoed.Api.Lock.{rdlock, wrlock, unlock, unlock_for}
use qaoed.Api.Query.{Response, Status, status}

-- A reader more, and nobody writes.
abbrev pub IsReadBy : ℕ → RwLock → Type 0
IsReadBy n l = (l.readers ≡ n) × (l.writer ≡ false)

rdlock-IsReadBy : (l m : RwLock) → rdlock l ≡ done m → IsReadBy (l.readers + 1) m
unfolding rdlock
rdlock-IsReadBy l m h = ground arith

pub rdlock-unlock : (l m : RwLock) → rdlock l ≡ done m → unlock m ≡ done l
unfolding rdlock unlock unlock_for
rdlock-unlock l m h = ground arith

IsReadBy-wrlock : (n : ℕ) (l : RwLock) → IsReadBy (n + 1) l → wrlock l ≡ blocked
unfolding wrlock
IsReadBy-wrlock n l h = ground arith

-- The lock is taken, given back and taken again.
pub relock-IsReadBy :
    (l a b c : RwLock)
    → rdlock l ≡ done a
    → unlock a ≡ done b
    → rdlock b ≡ done c
    → IsReadBy (l.readers + 1) c
relock-IsReadBy l a b c e1 e2 e3 =
    let same : l ≡ b = cc (rdlock-unlock l a e1) in
    rdlock-IsReadBy l c (subst (λ (x : RwLock). rdlock x ≡ done c) (sym same) e3)

returned :
    (conf conf' : QConfig) (dev int : RwLock) (a r : Response Status)
    → ◌≡◌ {A = Outcome (QConfig × Response Status)}
        (done (record conf { devlistlock = dev; intlistlock = int }, a))
        (done (conf', r))
    → (a ≡ r) × (dev ≡ conf'.devlistlock)
returned conf conf' dev int a r h = (cc h, cc h)

-- A request for the status tells the numbers of targets and interfaces, but if it returns at all it
-- leaves the list of devices locked for reading: there is one reader more, and whoever then locks
-- the list for writing waits for ever.
status_leaks :
    (conf conf' : QConfig) (r : Response Status)
    → status conf ≡ done (conf', r)
    → (r.arg.num_targets ≡ length conf.devices)
      × (r.arg.num_interfaces ≡ length conf.intlist)
      × (conf'.devlistlock.readers ≡ conf.devlistlock.readers + 1)
      × (wrlock conf'.devlistlock ≡ blocked)
unfolding status
status_leaks conf conf' r h =
    let (dev1, e1, h1) = >>=-eq-done (rdlock conf.devlistlock) _ h in
    let (dev2, e2, h2) = >>=-eq-done (unlock dev1) _ h1 in
    let (dev3, e3, h3) = >>=-eq-done (rdlock dev2) _ h2 in
    let (int1, e4, h4) = >>=-eq-done (unlock conf.intlistlock) _ h3 in
    let (told, left) = returned conf conf' dev3 int1 _ r h4 in
    let read =
      subst (λ (l : RwLock). IsReadBy (conf.devlistlock.readers + 1) l) left
        (relock-IsReadBy conf.devlistlock dev1 dev2 dev3 e1 e2 e3) in
    (
      ap (λ (q : Response Status). q.arg.num_targets) (sym told),
      ap (λ (q : Response Status). q.arg.num_interfaces) (sym told),
      read.0,
      IsReadBy-wrlock conf.devlistlock.readers conf'.devlistlock read,
    )

unlock-fault : (l : RwLock) → IsReadBy 0 l → unlock l ≡ fault
unfolding unlock unlock_for
unlock-fault l h = ground arith

-- The lock of the interfaces is given back though it was not taken: if nobody holds it, the request
-- does not return.
pub status_faults :
    (conf : QConfig) (r : QConfig × Response Status)
    → IsReadBy 0 conf.intlistlock
    → status conf ≢ done r
unfolding status
status_faults conf r free h =
    let (dev1, e1, h1) = >>=-eq-done (rdlock conf.devlistlock) _ h in
    let (dev2, e2, h2) = >>=-eq-done (unlock dev1) _ h1 in
    let (dev3, e3, h3) = >>=-eq-done (rdlock dev2) _ h2 in
    let (int1, e4, h4) = >>=-eq-done (unlock conf.intlistlock) _ h3 in
    absurd (cc (unlock-fault conf.intlistlock free, e4))
