-- ===== src/Start.antt =====
-- The start of the threads: devices.c (qaoed_startworker, qaoed_startdevice, qaoed_devices) and
-- network.c (qaoed_startlistener, qaoed_network, qaoed_intrefup, qaoed_intrefdown). What the system
-- answers is an argument; the interface of a device is a position in the list of interfaces, and a
-- NULL pointer to it is read through.
pub mod Devices
pub mod Counted
pub mod Kept
use qaoed.Base.{
  ℕ, zero, suc, ◌+◌, ◌/◌, ℤ, pos, negsuc, ◌+ℤ◌, eq_ℤ, String, List, [], ◌∷◌, Option, none, some,
  Bool, true, false, not, ◌||◌, Outcome, done, fault, valid, ◌>>=◌, if◌then◌else◌,
}
use qaoed.Queue.{start_queue}
use qaoed.Conf.{Ifst, AoeDev, QConfig}

-- What `stat` tells of a file: whether it is a device, and its size in bytes.
pub record FileStat : Type 0 where
  pub is_device : Bool
  pub st_size : ℕ

-- What the system answers: whether a file can be opened (for synchronous writes or not) and made a
-- stream, what `stat` says, the size of a disk, and whether a mutex, a condition variable and a
-- thread can be had for a device, or a thread and its arguments for an interface.
pub record System : Type 0 where
  pub opens : Bool → String → Bool
  pub fdopens : String → Bool
  pub stat : String → Option FileStat
  pub getsize : String → ℕ
  pub mutex : AoeDev → Bool
  pub cond : AoeDev → Bool
  pub thread : AoeDev → Bool
  pub malloc : Ifst → Bool
  pub listens : Ifst → Bool

-- `interface->refcnt += k` for the interface at a position.
unfoldable pub add_refs : ℤ → ℕ → List Ifst → Outcome (List Ifst)
add_refs k n [] = fault
add_refs k zero (i ∷ is) = done (record i { refcnt = i.refcnt +ℤ k } ∷ is)
add_refs k (suc n) (i ∷ is) = add_refs k n is >>= λ is'. done (i ∷ is')

unfoldable pub intrefup : Option ℕ → List Ifst → Outcome (List Ifst)
intrefup interface is = valid interface >>= λ n. add_refs (pos 1) n is

unfoldable pub intrefdown : Option ℕ → List Ifst → Outcome (List Ifst)
intrefdown interface is = valid interface >>= λ n. add_refs (negsuc 0) n is

-- The device, the interfaces and the return value.
abbrev pub Started : Type 0
Started = AoeDev × List Ifst × ℤ

unfoldable pub startworker : System → AoeDev → List Ifst → Outcome Started
startworker sys d is =
    if not (sys.mutex d) || not (sys.cond d)
    then done (d, is, negsuc 0)
    else (let d' = record d { queue = start_queue d.queue.cells } in
        intrefup d.interface is >>= λ up.
        if sys.thread d
        then done (d', up, pos 0)
        else (intrefdown d.interface up >>= λ down. done (d', down, negsuc 0)))

-- The size of the file is set in blocks of 512 bytes; a failed start leaves the stream as it is.
unfoldable pub start_found :
    System → String → Option FileStat → AoeDev → List Ifst → Outcome Started
start_found sys name none d is = done (d, is, negsuc 0)
start_found sys name (some st) d is =
    let size = if st.is_device then sys.getsize name else st.st_size / 512 in
    startworker sys (record d { size = size }) is

unfoldable pub start_open : System → String → AoeDev → List Ifst → Outcome Started
start_open sys name d is = start_found sys name (sys.stat name) d is

unfoldable pub start_named : System → Option String → AoeDev → List Ifst → Outcome Started
start_named sys none d is = done (d, is, negsuc 0)
start_named sys (some name) d is =
    if d.fp
    then start_open sys name d is
    else if sys.opens (eq_ℤ d.writecache (pos 0)) name
    then if sys.fdopens name
      then start_open sys name (record d { fp = true }) is
      else done (d, is, negsuc 0)
    else done (d, is, negsuc 0)

unfoldable pub startdevice : System → AoeDev → List Ifst → Outcome Started
startdevice sys d is = start_named sys d.devicename d is

-- The loop of `qaoed_devices` ends at the first device that fails.
unfoldable pub start_all : System → List AoeDev → List Ifst → Outcome (List AoeDev × List Ifst × ℤ)
start_all sys [] is = done ([], is, pos 0)
start_all sys (d ∷ ds) is = startdevice sys d is >>= λ s.
    let rest = start_all sys ds s.1 in
    if eq_ℤ s.2 (negsuc 0)
    then done (s.0 ∷ ds, s.1, negsuc 0)
    else (rest >>= λ r. done (s.0 ∷ r.0, r.1, r.2))

unfoldable pub start_devices :
    System → List AoeDev → List Ifst → Outcome (List AoeDev × List Ifst × ℤ)
start_devices sys [] is = done ([], is, negsuc 0)
start_devices sys (d ∷ ds) is = start_all sys (d ∷ ds) is

unfoldable pub devices : System → QConfig → Outcome (QConfig × ℤ)
devices sys conf = start_devices sys conf.devices conf.intlist >>= λ s.
    done (record conf { devices = s.0; intlist = s.1 }, s.2)

-- Whether the listener of an interface runs.
unfoldable pub startlistener : System → Ifst → ℤ
startlistener sys i = if sys.malloc i then if sys.listens i then pos 0 else negsuc 0 else negsuc 0

unfoldable pub network : System → List Ifst → ℤ
network sys [] = pos 0
network sys (i ∷ is) =
    let rest = network sys is in if not (eq_ℤ (startlistener sys i) (pos 0)) then negsuc 0 else rest
