-- ===== src/Api/Add.antt =====
-- api.c processTARGET_ADD, and from parseconf.c the default values of a device (referencelog,
-- qaoed_devdefaults). The start of the device, and what fresh memory holds, are arguments.
pub mod Exclusive
use qaoed.Base.{
  ℕ, ◌+◌, ◌%◌, ℤ, pos, negsuc, eq_ℤ, String, str_eq, List, [], ◌∷◌, ◌++◌, Option, none, some, Bool,
  true, false, not, ◌&&◌, Outcome, done, valid, ◌>>=◌, ◌==◌, if◌then◌else◌, get_elem?,
}
use qaoed.Queue.{same_ptr}
use qaoed.Conf.{Logging, AoeDev, QConfig}
use qaoed.Api.{TargetInfo, api_allok, api_failure, is_empty, referenceint}

-- The loop of `referencelog`; `n` is the position of the head of the list.
unfoldable pub find_log : String → List Logging → ℕ → Option ℕ
find_log name [] n = none
find_log name (l ∷ ls) n = if str_eq name l.name then some n else find_log name ls (n + 1)

unfoldable pub referencelog : String → List Logging → Option ℕ
referencelog name loglist = find_log name loglist 0

-- A pointer, or another one if it is NULL.
abbrev pub or_else : Option ℕ → Option ℕ → Option ℕ
or_else none other = other
or_else (some i) other = some i

-- A value, or another one if it is -1.
abbrev pub if_unset : ℤ → ℤ → ℤ
if_unset v other = if eq_ℤ v (negsuc 0) then other else v

-- The values that a device takes from the default one, whose slot goes up when it is taken.
unfoldable pub take_defaults : Option AoeDev → AoeDev → AoeDev × Option AoeDev
take_defaults none dev = (dev, none)
take_defaults (some d) dev = (
  record dev {
    shelf = if dev.shelf == 0xffff then d.shelf else dev.shelf;
    slot = if dev.slot == 0xff then d.slot else dev.slot;
    writecache = if_unset dev.writecache d.writecache;
    broadcast = if_unset dev.broadcast d.broadcast;
    interface = or_else dev.interface d.interface;
    wacl = or_else dev.wacl d.wacl;
    racl = or_else dev.racl d.racl;
    cfgracl = or_else dev.cfgracl d.cfgracl;
    cfgsetacl = or_else dev.cfgsetacl d.cfgsetacl;
    log = or_else dev.log d.log;
  },
  some (record d { slot = if dev.slot == 0xff then (d.slot + 1) % 256 else d.slot }),
)

unfoldable pub devdefaults : QConfig → AoeDev → AoeDev × QConfig
devdefaults conf dev =
    let (dev', default) = take_defaults conf.devdefault dev in
    (
      record dev' {
        log = or_else dev'.log (referencelog "default" conf.loglist);
        writecache = if_unset dev'.writecache (pos 1);
        broadcast = if_unset dev'.broadcast (pos 1);
      },
      record conf { devdefault = default },
    )

-- The new device, over what fresh memory holds.
unfoldable pub new_device : AoeDev → TargetInfo → QConfig → AoeDev
new_device fresh t conf = record fresh {
  devicename = some t.devicename;
  shelf = t.shelf;
  slot = t.slot;
  broadcast = t.broadcast;
  writecache = t.writecache;
  interface = if is_empty t.ifname then none else referenceint t.ifname conf.intlist;
  log = none;
  fp = false;
  cfg_len = 0;
  wacl = none;
  racl = none;
  cfgsetacl = none;
  cfgracl = none;
}

-- `strcmp(device->devicename, newdevice->devicename) != 0`
unfoldable pub other_file : AoeDev → AoeDev → Outcome Bool
other_file d new = do a ← valid d.devicename; b ← valid new.devicename; done (not (str_eq a b))

-- Two devices at one shelf and slot, on one interface or for two files.
unfoldable pub conflicts : AoeDev → AoeDev → Outcome Bool
conflicts d new =
    if (d.slot == new.slot) && (d.shelf == new.shelf)
    then if same_ptr d.interface new.interface then done true else other_file d new
    else done false

-- The loop over the devices ends at the first conflict.
unfoldable pub any_conflict : List AoeDev → AoeDev → Outcome Bool
any_conflict [] new = done false
any_conflict (d ∷ ds) new = do bad ← conflicts d new; if bad then done true else any_conflict ds new

-- The error code and the argument of a reply.
abbrev pub Reply : Type 0
Reply = ℕ × Option TargetInfo

-- Once the start of the device has returned.
unfoldable pub append_target :
    Option AoeDev → TargetInfo → QConfig → Outcome (QConfig × Option Reply)
append_target none t conf = done (conf, some (api_failure, some t))
append_target (some started) t conf = do
  i ← valid started.interface
  iface ← valid (get_elem? conf.intlist i)
  name ← valid started.devicename
  done (
    record conf { devices = conf.devices ++ (started ∷ []) },
    some (
      api_allok,
      some (record {
        devicename = name;
        shelf = started.shelf;
        slot = started.slot;
        ifname = iface.ifname;
        writecache = started.writecache;
        broadcast = started.broadcast;
      }),
    ),
  )

-- A conflict ends the command without a reply.
unfoldable pub admit_target :
    (AoeDev → Option AoeDev) → TargetInfo → AoeDev → QConfig → Outcome (QConfig × Option Reply)
admit_target start t new conf = do
  bad ← any_conflict conf.devices new
  if bad then done (conf, none) else append_target (start new) t conf

-- `processTARGET_ADD`; the second argument is what `malloc` returns.
unfoldable pub target_add :
    (AoeDev → Option AoeDev)
    → Option AoeDev
    → TargetInfo
    → QConfig
    → Outcome (QConfig × Option Reply)
target_add start none t conf = done (conf, some (api_failure, none))
target_add start (some fresh) t conf =
    let (new, conf') = devdefaults conf (new_device fresh t conf) in admit_target start t new conf'
