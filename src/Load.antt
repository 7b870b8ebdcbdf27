-- ===== src/Load.antt =====
-- parseconf.c: qaoed_loadconfig, from the name of a file to the configuration of the daemon. What the
-- system and the C library answer are arguments. The model of a load ends where a structure is
-- incomplete: an access list or a log target without a name, whose `name` stays NULL, with which the
-- code goes on and reads through NULL at the next comparison that reaches it; and an interface whose
-- name or `next` no statement has set, with which it goes on by what the memory held.
pub mod Sound
pub mod Cycle
use qaoed.Base.{
  ℕ, ◌+◌, ℤ, negsuc, eq_ℤ, String, List, [], ◌∷◌, ◌++◌, Option, none, some, Bool, true, false,
  Outcome, done, fault, valid, ◌>>=◌, if◌then◌else◌, get_elem?,
}
use qaoed.Acl.{AclHdr}
use qaoed.Conf.{Logging, Ifst, AoeDev, QConfig}
use qaoed.Rcfg.{Cfg, null, assignment, block}
use qaoed.Rcfg.Tokens.Include.{Files, Checks}
use qaoed.Rcfg.Readconfig.{Reading, config, no_config, program_ended, readconfig}
use qaoed.Log.{openlogs}
use qaoed.Parse.{Logs}
use qaoed.Parse.Global.{readglobal}
use qaoed.Parse.LogTargets.{
  Tail, ends, unset, cyclic, past, LogSection, LogChain, LogMemory, create_log,
}
use qaoed.Parse.Interfaces.{IntEntry, IntChain, IntLibrary, IntStore, find_interfaces}
use qaoed.Parse.Acl.{AclLibrary, AclSection, Acls, find_acl}
use qaoed.Parse.Dev.{DevLibrary, Devs, find_dflt, find_dev}
use qaoed.Parse.Finish.{finish}
use qaoed.Config.{NetSystem}

-- What the system and the C library answer during a load.
pub record Loader : Type 0 where
  pub checks : Checks
  pub files : Files
  pub same_text : String → String → Bool
  pub logs : LogMemory
  pub fopens : String → Bool
  pub interfaces : IntLibrary
  pub acls : AclLibrary
  pub refcnt : ℤ
  pub devices : DevLibrary
  pub sys : NetSystem
  pub stat : String → Bool
  pub fresh : QConfig

-- The configuration, NULL, the end of the program, or a structure that is incomplete: what the code
-- makes of the rest of such a file is not followed.
pub data Loaded : Type 0 where
  loaded : QConfig → Loaded
  null_config : Loaded
  program_exits : Loaded
  incomplete : Loaded

-- The elements of a list, if each of them is complete.
unfoldable pub complete : {A B : Type 0} → (A → Option B) → List A → Option (List B)
complete f [] = some []
complete f (x ∷ xs) = elim (f x) [
  | none ↦ none
  | some y ↦ elim (complete f xs) [ none ↦ none | some ys ↦ some (y ∷ ys) ]
]

-- `parseLOG` may leave the name NULL; such a load is not followed.
abbrev pub complete_log : LogSection → Option Logging
complete_log s = elim s.name [
  | none ↦ none
  | some name ↦ some (record {
    name = name;
    log_level = s.log_level;
    logtype = s.logtype;
    syslog_facility = s.syslog_facility;
    syslog_level = s.syslog_level;
    filename = s.filename;
  })
]

abbrev pub complete_int : IntEntry → Option Ifst
complete_int e = if e.named then some e.entry else none

-- `parseACL` does not set the reference counter, and may leave the name NULL; such a load is not
-- followed.
abbrev pub complete_acl : ℤ → AclSection → Option AclHdr
complete_acl refcnt s = elim s.name [
  | none ↦ none
  | some name ↦ some (record {
    name = name;
    aclnum = s.aclnum;
    refcnt = refcnt;
    defaultpolicy = s.defaultpolicy;
    acl = s.acl;
    log = s.log;
  })
]

abbrev pub first_device : List AoeDev → Option AoeDev
first_device [] = none
first_device (d ∷ ds) = some d

abbrev pub to_loaded : Option QConfig → Loaded
to_loaded none = null_config
to_loaded (some conf) = loaded conf

-- The targets that a section made for itself stand behind the list: only "default" is looked up from
-- here on, which the list has.
unfoldable pub load_devices :
    Loader → Cfg → QConfig → List Ifst → List AclHdr → Logs → Outcome Loaded
load_devices l c conf is acls logs =
    let dflt = find_dflt l.devices is c (record { devlist = []; acls = acls; logs = logs }) in
    let devs =
      find_dev l.devices is c (record { devlist = []; acls = dflt.acls; logs = dflt.logs }) in
    finish l.sys l.stat (record conf {
      intlist = is;
      acllist = devs.acls;
      devdefault = first_device dflt.devlist;
      devices = devs.devlist;
      loglist = devs.logs.loglist ++ devs.logs.strays;
    })
    >>= λ r. done (to_loaded r)

unfoldable pub load_acls : Loader → Cfg → QConfig → List Ifst → Logs → Outcome Loaded
load_acls l c conf is logs = do
  r ← find_acl l.acls c (done (record { acllist = []; aclnumplan = conf.aclnumplan; logs = logs }))
  elim (complete (complete_acl l.refcnt) r.acllist) [
    | none ↦ done incomplete
    | some acls ↦ load_devices l c (record conf { aclnumplan = r.aclnumplan }) is acls r.logs
  ]

-- The list of interfaces, if its end and its names are set.
abbrev pub complete_ints : IntChain → Option (List Ifst)
complete_ints chain = elim chain.tail [
  | ends ↦ complete complete_int chain.entries
  | unset ↦ none
  | cyclic ↦ none
]

unfoldable pub load_found : Loader → Cfg → QConfig → IntStore → Outcome Loaded
load_found l c conf st = elim st.iflist [
  | none ↦ done null_config
  | some n ↦ valid (get_elem? st.chains n) >>= λ chain. elim (complete_ints chain) [
    | none ↦ done incomplete
    | some is ↦ load_acls l c conf is st.logs
  ]
]

unfoldable pub load_interfaces : Loader → Cfg → QConfig → Outcome Loaded
load_interfaces l c conf =
    find_interfaces (record (l.interfaces) { log_level = conf.log_level }) c
      (record { chains = []; iflist = none; logs = record { loglist = conf.loglist; strays = [] } })
    >>= load_found l c conf

-- `openlogs` walks the list, and goes round for ever if that has no end.
unfoldable pub load_opened : Loader → Cfg → QConfig → Tail → List Logging × ℤ → Outcome Loaded
load_opened l c conf tail (logs, ret) =
    if eq_ℤ ret (negsuc 0)
    then done null_config
    else (past tail logs >>= λ logs'. load_interfaces l c (record conf { loglist = logs' }))

unfoldable pub load_chain : Loader → Cfg → QConfig → LogChain → Outcome Loaded
load_chain l c conf chain = elim (complete complete_log chain.logs) [
  | none ↦ done incomplete
  | some logs ↦ openlogs l.fopens logs >>= load_opened l c conf chain.tail
]

unfoldable pub load_logs : Loader → Cfg → QConfig → Outcome Loaded
load_logs l c conf = create_log l.same_text l.logs c >>= load_chain l c conf

-- The children of the header of the tree.
unfoldable pub load_tree : Loader → Cfg → Outcome Loaded
load_tree l c = elim (readglobal l.same_text none l.fresh c) [
  | none ↦ done null_config
  | some conf ↦ load_logs l c conf
]

-- A tree is a header over what the file holds; none is for an empty one.
unfoldable pub load_reading : Loader → Reading → Outcome Loaded
load_reading l no_config = done null_config
load_reading l program_ended = done program_exits
load_reading l (config null) = done null_config
load_reading l (config (assignment lvalue rvalue next)) = done null_config
load_reading l (config (block filename null next)) = done null_config
load_reading l (config (block filename (assignment lvalue rvalue rest) next)) =
    load_tree l (assignment lvalue rvalue rest)
load_reading l (config (block filename (block lvalue inner rest) next)) =
    load_tree l (block lvalue inner rest)

-- The fuel is one more than the depth of the includes.
unfoldable pub loadconfig : Loader → ℕ → String → Outcome Loaded
loadconfig l fuel filename = readconfig l.checks l.files fuel filename >>= load_reading l
