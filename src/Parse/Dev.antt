-- ===== src/Parse/Dev.antt =====
-- parseconf.c: devices (parsedevacl, parseDEV, findDFLT, findDEV). `atoi`, `strcasecmp` and the
-- memory that `malloc` gives are arguments.
use qaoed.Base.{
  ℕ, ◌%◌, ◌^◌, ℤ, pos, negsuc, eq_ℤ, to_size, String, str_eq, List, [], ◌∷◌, ◌++◌, Option, none,
  some, Bool, true, false, ◌||◌, if◌then◌else◌,
}
use qaoed.Acl.{AclHdr, referenceacl, aclrefup}
use qaoed.Conf.{Logging, Ifst, AoeDev}
use qaoed.Rcfg.{Cfg, null, assignment, block}
use qaoed.Api.{referenceint}
use qaoed.Parse.{Logs, resolve_log, loglvresolv, find_sections}

pub record DevLibrary : Type 0 where
  pub atoi : String → ℤ
  pub same_text : String → String → Bool
  pub memory : Option Logging
  pub fresh : AoeDev

-- What a section changes: its device, the access lists and the logging targets.
pub record Section : Type 0 where
  pub dev : AoeDev
  pub acls : List AclHdr
  pub logs : Logs

-- An access list that is named counts one user more.
unfoldable pub reference : String → List AclHdr → Option ℕ × List AclHdr
reference name acls = let acl = referenceacl name acls in (acl, aclrefup acl acls)

-- One statement of the acl section of a device; none is for a keyword that is not known.
unfoldable pub dev_acl_statement : String → String → Section → Option Section
dev_acl_statement lvalue rvalue s =
    let (acl, acls) = reference rvalue s.acls in
    if str_eq lvalue "read"
    then some (record s { dev = record (s.dev) { racl = acl }; acls = acls })
    else if str_eq lvalue "write"
    then some (record s { dev = record (s.dev) { wacl = acl }; acls = acls })
    else if str_eq lvalue "cfgread" || str_eq lvalue "discover"
    then some (record s { dev = record (s.dev) { cfgracl = acl }; acls = acls })
    else if str_eq lvalue "cfgset"
    then some (record s { dev = record (s.dev) { cfgsetacl = acl }; acls = acls })
    else none

-- `parsedevacl`, with whether it returns 0. Blocks are passed over.
unfoldable pub parsedevacl : Cfg → Section → Section × Bool
parsedevacl null s = (s, true)
parsedevacl (assignment lvalue rvalue next) s = elim (dev_acl_statement lvalue rvalue s) [
  | none ↦ (s, false)
  | some s' ↦ parsedevacl next s'
]
parsedevacl (block lvalue inner next) s = parsedevacl next s

-- The conversions of an `int` to `unsigned short` and `unsigned char`.
abbrev pub to_u16 : ℤ → ℕ
to_u16 n = to_size n % 2 ^ 16

abbrev pub to_u8 : ℤ → ℕ
to_u8 n = to_size n % 2 ^ 8

abbrev pub on_or_off : String → ℤ
on_or_off rvalue = if str_eq rvalue "off" then pos 0 else pos 1

unfoldable pub dev_log : DevLibrary → String → Section → Section
dev_log lib name s =
    let (log, logs) = resolve_log lib.memory name s.logs in
    record s { dev = record (s.dev) { log = log }; logs = logs }

-- One assignment of a device section.
unfoldable pub dev_statement : DevLibrary → List Ifst → String → String → Section → Option Section
dev_statement lib intlist lvalue rvalue s =
    if str_eq lvalue "shelf"
    then some (record s { dev = record (s.dev) { shelf = to_u16 (lib.atoi rvalue) } })
    else if str_eq lvalue "slot"
    then some (record s { dev = record (s.dev) { slot = to_u8 (lib.atoi rvalue) } })
    else if str_eq lvalue "log-level"
    then some (record s { dev = record (s.dev) { log_level = loglvresolv lib.same_text rvalue } })
    else if str_eq lvalue "log"
    then some (dev_log lib rvalue s)
    else if str_eq lvalue "target"
    then some (record s { dev = record (s.dev) { devicename = some rvalue } })
    else if str_eq lvalue "interface"
    then some (record s { dev = record (s.dev) { interface = referenceint rvalue intlist } })
    else if str_eq lvalue "writecache"
    then some (record s { dev = record (s.dev) { writecache = on_or_off rvalue } })
    else if str_eq lvalue "broadcast"
    then some (record s { dev = record (s.dev) { broadcast = on_or_off rvalue } })
    else none

unfoldable pub dev_statements : DevLibrary → List Ifst → Cfg → Section → Section × Bool
dev_statements lib intlist null s = (s, true)
dev_statements lib intlist (assignment lvalue rvalue next) s =
    elim (dev_statement lib intlist lvalue rvalue s) [
      | none ↦ (s, false)
      | some s' ↦ dev_statements lib intlist next s'
    ]
dev_statements lib intlist (block lvalue inner next) s =
    let (s', ok) = if str_eq lvalue "acl" then parsedevacl inner s else (s, true) in
    let rest = dev_statements lib intlist next s' in if ok then rest else (s', false)

-- A device before its section is read: no address, no file, no access lists.
unfoldable pub blank_device : AoeDev → AoeDev
blank_device fresh = record fresh {
  devicename = none;
  interface = none;
  writecache = negsuc 0;
  broadcast = negsuc 0;
  shelf = 0xffff;
  slot = 0xff;
  log = none;
  fp = false;
  cfg_len = 0;
  wacl = none;
  racl = none;
  cfgsetacl = none;
  cfgracl = none;
}

-- The devices read so far, with the access lists and the logging targets.
pub record Devs : Type 0 where
  pub devlist : List AoeDev
  pub acls : List AclHdr
  pub logs : Logs

-- `parseDEV` returns NULL for a bad section, whatever was read before it.
unfoldable pub parse_dev : DevLibrary → List Ifst → Cfg → Devs → Devs
parse_dev lib intlist c st =
    let (s, ok) =
      dev_statements lib intlist c
        (record { dev = blank_device lib.fresh; acls = st.acls; logs = st.logs }) in
    record { devlist = if ok then st.devlist ++ (s.dev ∷ []) else []; acls = s.acls; logs = s.logs }

-- `findDEV` over the children of the header of the tree.
unfoldable pub find_dev : DevLibrary → List Ifst → Cfg → Devs → Devs
find_dev lib intlist c st = find_sections "device" (parse_dev lib intlist) c st

-- The first default device, whose options default to on once a block has been read.
unfoldable pub default_options : Devs → Devs
default_options st = elim st.devlist [
  | [] ↦ st
  | d ∷ ds ↦ record st {
    devlist =
        record d {
          writecache = if eq_ℤ d.writecache (negsuc 0) then pos 1 else d.writecache;
          broadcast = if eq_ℤ d.broadcast (negsuc 0) then pos 1 else d.broadcast;
        }
        ∷ ds;
  }
]

-- The loop of `findDFLT`, in which every block that is no default section is searched as a whole.
unfoldable pub default_sections : DevLibrary → List Ifst → Cfg → Devs → Devs
default_sections lib intlist null st = st
default_sections lib intlist (assignment lvalue rvalue next) st =
    default_sections lib intlist next st
default_sections lib intlist (block lvalue inner next) st = default_sections lib intlist next (
    if str_eq lvalue "default"
    then parse_dev lib intlist inner st
    else default_options (default_sections lib intlist inner st))

unfoldable pub find_dflt : DevLibrary → List Ifst → Cfg → Devs → Devs
find_dflt lib intlist c st = default_options (default_sections lib intlist c st)
