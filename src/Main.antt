-- ===== src/Main.antt =====
-- main.c: the options of the command line, the start and the stop of the threads (qaoed_startup,
-- qaoed_shutdown), the reload on SIGHUP (sighuphandler) and the program itself (qaoed_main, main), with
-- qaoed_startapi of api.c and the files that destroyqcfg of parseconf.c closes. What the system answers
-- is an argument. The release of memory is followed only in that a later read of it is a fault.
pub mod Reload
use qaoed.Base.{
  ℕ, zero, suc, ◌+◌, ℤ, pos, negsuc, eq_ℤ, String, List, [], ◌∷◌, Option, none, some, Bool, true,
  false, ◌&&◌, Outcome, done, fault, ◌>>=◌, ◌==◌, ltb, if◌then◌else◌, length,
}
use qaoed.Conf.{Ifst, AoeDev, QConfig}
use qaoed.Start.{System, startdevice, startlistener, devices, network}
use qaoed.Load.{Loader, Loaded, loaded, null_config, program_exits, incomplete, loadconfig}

-- `struct cmdline`
pub record Options : Type 0 where
  pub background : Bool
  pub cfgfile : String

abbrev pub initial_options : Options
initial_options = record { background = true; cfgfile = "/etc/qaoed.conf" }

-- What `getopt` gives, option by option, with its argument; none is a call of `exit`.
unfoldable pub parse_options : List (ℕ × String) → Options → Option Options
parse_options [] options = some options
parse_options ((i, optarg) ∷ more) options =
    let rest = parse_options more (
      if i == b'f'
      then record options { background = false }
      else record options { cfgfile = optarg }) in
    if (i == b'f') then rest else if (i == b'c') then rest else none

-- How many listeners and workers have a thread.
pub record Threads : Type 0 where
  pub listeners : ℕ
  pub workers : ℕ

-- The interfaces up to the first whose listener does not start.
unfoldable pub count_listeners : System → List Ifst → ℕ
count_listeners sys [] = 0
count_listeners sys (i ∷ is) =
    let rest = count_listeners sys is in if eq_ℤ (startlistener sys i) (pos 0) then rest + 1 else 0

-- The devices up to the first that does not start.
unfoldable pub count_workers : System → List AoeDev → List Ifst → Outcome ℕ
count_workers sys [] is = done 0
count_workers sys (d ∷ ds) is = startdevice sys d is >>= λ s.
    let rest = count_workers sys ds s.1 in
    if eq_ℤ s.2 (negsuc 0) then done 0 else (rest >>= λ n. done (n + 1))

-- `qaoed_startup`, with the threads that run after it. Whether the control socket's thread starts is
-- not looked at.
unfoldable pub startup : System → QConfig → Outcome (QConfig × Threads × ℤ)
startup sys conf = do
  workers ← count_workers sys conf.devices conf.intlist
  r ← devices sys conf
  let listeners = count_listeners sys r.0.intlist
  if eq_ℤ r.1 (negsuc 0)
      then done (r.0, record { listeners = 0; workers = workers }, negsuc 0)
      else done (
        r.0,
        record { listeners = listeners; workers = workers },
        if eq_ℤ (network sys r.0.intlist) (negsuc 0) then negsuc 0 else pos 0,
      )

-- What the system answers at a stop: whether `pthread_cancel` succeeds, and whether a second
-- `pthread_join` of a thread returns, which nothing promises.
pub record Stopping : Type 0 where
  pub cancels : Ifst → Bool
  pub rejoins : Bool

-- The program ended, or it goes on.
pub data Life (A : Type 0) : Type 0 where
  alive : A → Life A
  exited : Life A

abbrev pub Lives : Type 0 → Type 0
Lives A = Outcome (Life A)

abbrev pub and_lives : {A B : Type 0} → Lives A → (A → Lives B) → Lives B
and_lives m f = m >>= λ r. elim r [ alive a ↦ f a | exited ↦ done exited ]

-- The first n interfaces have a thread; the identifier of any other was never set.
unfoldable pub cancel_listeners : Stopping → ℕ → List Ifst → Lives (Unit {0})
cancel_listeners stop n [] = done (alive tt)
cancel_listeners stop zero (i ∷ is) = fault
cancel_listeners stop (suc n) (i ∷ is) =
    let rest = cancel_listeners stop n is in if stop.cancels i then rest else done exited

-- A worker that cannot be cancelled is only logged.
unfoldable pub cancel_workers : ℕ → List AoeDev → Lives (Unit {0})
cancel_workers n [] = done (alive tt)
cancel_workers zero (d ∷ ds) = fault
cancel_workers (suc n) (d ∷ ds) = cancel_workers n ds

-- The last loop waits for the threads of the interfaces a second time, in place of the devices'.
unfoldable pub join_again : Stopping → List Ifst → Lives (Unit {0})
join_again stop [] = done (alive tt)
join_again stop (i ∷ is) = if stop.rejoins then done (alive tt) else fault

unfoldable pub shutdown : Stopping → Threads → QConfig → Lives (Unit {0})
shutdown stop threads conf =
    and_lives (cancel_listeners stop threads.listeners conf.intlist)
      λ _. and_lives (cancel_workers threads.workers conf.devices) λ _. join_again stop conf.intlist

-- The loop over the devices in `destroyqcfg`: `fclose` of a stream that is not there is a fault.
unfoldable pub destroyqcfg : List AoeDev → Outcome (Unit {0})
destroyqcfg [] = done tt
destroyqcfg (d ∷ ds) = if d.fp then destroyqcfg ds else fault

-- The daemon: the running configuration, its threads, and whether SIGHUP calls the handler.
pub record Daemon : Type 0 where
  pub curcfg : QConfig
  pub threads : Threads
  pub hears : Bool

-- What the environment answers to one signal.
pub record Hup : Type 0 where
  pub loader : Loader
  pub depth : ℕ
  pub sys : System
  pub stop : Stopping
  pub again : System

-- Once the new configuration failed to start: it is stopped and destroyed, the old one is started
-- again, and if that succeeds a line goes to the log of the configuration that was destroyed.
unfoldable pub revert : Hup → Daemon → QConfig → Threads → Lives Daemon
revert hup d conf threads = and_lives (shutdown hup.stop threads conf) λ _.
    destroyqcfg conf.devices >>= λ _. startup hup.again d.curcfg >>= λ s.
    if eq_ℤ s.2 (pos 0)
    then fault
    else done (alive (record { curcfg = s.0; threads = s.1; hears = true }))

unfoldable pub replace : Hup → Daemon → QConfig × Threads × ℤ → Lives Daemon
replace hup d s =
    if eq_ℤ s.2 (pos 0)
    then (destroyqcfg d.curcfg.devices >>= λ _.
        done (alive (record { curcfg = s.0; threads = s.1; hears = true })))
    else revert hup d s.0 s.1

-- The signal is ignored from the start of the handler on; the handler that has no new configuration
-- returns before it takes that back. A load that is not followed to its end counts as a fault.
unfoldable pub reload : Hup → Daemon → Loaded → Lives Daemon
reload hup d null_config = done (alive (record d { hears = false }))
reload hup d program_exits = done exited
reload hup d incomplete = fault
reload hup d (loaded conf) =
    and_lives (shutdown hup.stop d.threads d.curcfg) λ _. startup hup.sys conf >>= replace hup d

unfoldable pub sighuphandler : Hup → String → Daemon → Lives Daemon
sighuphandler hup cfgfile d = loadconfig hup.loader hup.depth cfgfile >>= reload hup d

-- One SIGHUP, and any number of them.
unfoldable pub signal : Hup → String → Daemon → Lives Daemon
signal hup cfgfile d = if d.hears then sighuphandler hup cfgfile d else done (alive d)

unfoldable pub signals : List Hup → String → Daemon → Lives Daemon
signals [] cfgfile d = done (alive d)
signals (hup ∷ hups) cfgfile d = and_lives (signal hup cfgfile d) (signals hups cfgfile)

-- The start of a configuration that was loaded; its result is not looked at.
unfoldable pub begin : System → QConfig → Lives Daemon
begin sys conf =
    startup sys conf >>= λ s. done (alive (record { curcfg = s.0; threads = s.1; hears = true }))

-- `qaoed_main` up to its endless loop; the last argument says whether `fork` returns in the parent.
unfoldable pub qaoed_main : Loader → ℕ → System → Options → Bool → Lives Daemon
qaoed_main loader depth sys options parent = loadconfig loader depth options.cfgfile >>= λ r.
    elim r [
      | null_config ↦ done exited
      | program_exits ↦ done exited
      | incomplete ↦ fault
      | loaded conf ↦ if options.background && parent then done exited else begin sys conf
    ]

-- `main`
unfoldable pub main : List (ℕ × String) → Loader → ℕ → System → Bool → Lives Daemon
main args loader depth sys parent = elim (parse_options args initial_options) [
  | none ↦ done exited
  | some options ↦ qaoed_main loader depth sys options parent
]
