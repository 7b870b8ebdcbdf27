-- ===== src/Api/Query.antt =====
-- api.c: the queries of the control socket (processSTATUSrequest, processTARGET_LIST,
-- processTARGET_DETAILS, processACL_LIST, processACL_STATUS, processINT_LIST,
-- processINTERFACE_STATUS). The results of `malloc` are arguments; a `strcpy` past the end of a field
-- is a fault.
pub mod Leak
pub mod Listed
use qaoed.Base.{
  ℕ, zero, suc, ◌+◌, ◌*◌, ℤ, pos, String, str_eq, List, [], ◌∷◌, Option, none, some, Bool, true,
  false, not, Outcome, done, fault, valid, ◌>>=◌, ◌==◌, ltb, if◌then◌else◌, length, get_elem?,
  codes, replicate,
}
use qaoed.Acl.{AclEntry, AclHdr}
use qaoed.Conf.{Logging, Ifst, AoeDev, RwLock, QConfig}
use qaoed.Api.{TargetInfo, api_allok, api_failure, is_target, referenceint}
use qaoed.Api.Lock.{rdlock, unlock}

-- `struct qaoed_status`
pub record Status : Type 0 where
  pub num_targets : ℕ
  pub num_interfaces : ℕ
  pub num_threads : ℕ

-- `struct qaoed_target_info_detailed`
pub record TargetDetails : Type 0 where
  pub info : TargetInfo
  pub wacl : String
  pub racl : String
  pub cfgsetacl : String
  pub cfgracl : String
  pub log : String
  pub log_level : ℤ
  pub cfg_len : ℕ
  pub cfg : List ℕ

-- `struct qaoed_acl_info`
pub record AclInfo : Type 0 where
  pub name : String
  pub aclnumber : ℕ
  pub defaultpolicy : ℕ

-- `struct qaoed_if_info`
pub record IfInfo : Type 0 where
  pub name : String
  pub hwaddr : List ℕ
  pub mtu : ℤ

-- What a reply carries: its error code, the length that its header announces, the length that is
-- sent after the header, and what that is.
pub record Response (A : Type 0) : Type 0 where
  pub error : ℕ
  pub arg_len : ℕ
  pub sent : ℕ
  pub arg : A

-- The sizes of the structures of include/api.h.
abbrev pub sizeof_status : ℕ
sizeof_status = 12

abbrev pub sizeof_target_info : ℕ
sizeof_target_info = 152

abbrev pub sizeof_target_info_detailed : ℕ
sizeof_target_info_detailed = 1284

abbrev pub sizeof_acl_info : ℕ
sizeof_acl_info = 128

abbrev pub sizeof_acl_entry : ℕ
sizeof_acl_entry = 7

abbrev pub sizeof_if_info : ℕ
sizeof_if_info = 32

abbrev pub sizeof_interface_cmd : ℕ
sizeof_interface_cmd = 24

abbrev pub ok_reply : {A : Type 0} → ℕ → A → Response A
ok_reply n a = record { error = api_allok; arg_len = n; sent = n; arg = a }

-- The lock that is taken a second time is that of the devices; the one of the interfaces is not.
unfoldable pub status : QConfig → Outcome (QConfig × Response Status)
status conf = do
  dev1 ← rdlock conf.devlistlock
  let num_targets = length conf.devices
  dev2 ← unlock dev1
  dev3 ← rdlock dev2
  let num_interfaces = length conf.intlist
  int1 ← unlock conf.intlistlock
  done (
    record conf { devlistlock = dev3; intlistlock = int1 },
    ok_reply sizeof_status (record {
      num_targets = num_targets;
      num_interfaces = num_interfaces;
      num_threads = num_interfaces + num_targets + 2;
    }),
  )

-- `strcpy` into a field of n bytes.
unfoldable pub strcpy : ℕ → String → Outcome String
strcpy n s = if ltb (length (codes s)) n then done s else fault

-- The first n characters: `strncpy` into a field that was zero.
unfoldable pub strncpy : ℕ → String → String
strncpy zero s = String.[]
strncpy (suc n) String.[] = String.[]
strncpy (suc n) (String.◌∷◌ c s) = String.◌∷◌ c (strncpy n s)

-- The second loop over a list, which ends when its counter does.
unfoldable pub fill : {A B : Type 0} → (A → Outcome B) → ℕ → List A → Outcome (List B)
fill describe zero xs = done []
fill describe (suc cnt) [] = done []
fill describe (suc cnt) (x ∷ xs) = do y ← describe x; ys ← fill describe cnt xs; done (y ∷ ys)

unfoldable pub target_info : List Ifst → AoeDev → Outcome TargetInfo
target_info intlist d = do
  devicename ← valid d.devicename
  copied ← strcpy 120 devicename
  i ← valid d.interface
  iface ← valid (get_elem? intlist i)
  ifname ← strcpy 20 iface.ifname
  done (record {
    devicename = copied;
    shelf = d.shelf;
    slot = d.slot;
    ifname = ifname;
    writecache = d.writecache;
    broadcast = d.broadcast;
  })

-- Nothing is sent if there is no memory.
unfoldable pub target_list :
    Bool → QConfig → Outcome (QConfig × Option (Response (List TargetInfo)))
target_list malloc conf = do
  held ← rdlock conf.devlistlock
  let cnt = length conf.devices
  list ← (if malloc then fill (target_info conf.intlist) cnt conf.devices else done [])
  free ← unlock held
  done (
    record conf { devlistlock = free },
    if malloc then some (ok_reply (cnt * sizeof_target_info) list) else none,
  )

-- The name of an access list, cut to its field of 20 bytes.
unfoldable pub acl_field : List AclHdr → Option ℕ → Outcome String
acl_field acls none = done ""
acl_field acls (some n) = do acl ← valid (get_elem? acls n); done (strncpy 19 acl.name)

unfoldable pub log_field : List Logging → Option ℕ → Outcome String
log_field logs none = done ""
log_field logs (some n) = do log ← valid (get_elem? logs n); done (strncpy 19 log.name)

unfoldable pub target_details_of : QConfig → AoeDev → Outcome TargetDetails
target_details_of conf d = do
  info ← target_info conf.intlist d
  wacl ← acl_field conf.acllist d.wacl
  racl ← acl_field conf.acllist d.racl
  cfgsetacl ← acl_field conf.acllist d.cfgsetacl
  cfgracl ← acl_field conf.acllist d.cfgracl
  log ← log_field conf.loglist d.log
  done (record {
    info = info;
    wacl = wacl;
    racl = racl;
    cfgsetacl = cfgsetacl;
    cfgracl = cfgracl;
    log = log;
    log_level = d.log_level;
    cfg_len = d.cfg_len;
    cfg = d.cfg;
  })

-- The last device that matches is described; `tg` is what the memory holds.
unfoldable pub search_target :
    QConfig → TargetInfo → List AoeDev → TargetDetails → Outcome TargetDetails
search_target conf t [] tg = done tg
search_target conf t (d ∷ ds) tg =
    (if is_target conf.intlist t d then target_details_of conf d else done tg)
    >>= search_target conf t ds

-- The first argument is what `malloc` returns.
unfoldable pub target_details :
    Option TargetDetails
    → TargetInfo
    → QConfig
    → Outcome (QConfig × Option (Response TargetDetails))
target_details fresh t conf = do
  held ← rdlock conf.devlistlock
  found ← elim fresh [
    | none ↦ done none
    | some tg ↦ search_target conf t conf.devices tg >>= λ tg'. done (some tg')
  ]
  free ← unlock held
  done (
    record conf { devlistlock = free },
    elim found [ none ↦ none | some tg ↦ some (ok_reply sizeof_target_info_detailed tg) ],
  )

unfoldable pub acl_info : AclHdr → Outcome AclInfo
acl_info acl = do
  name ← strcpy 120 acl.name
  done (record { name = name; aclnumber = acl.aclnum; defaultpolicy = acl.defaultpolicy })

unfoldable pub acl_list : Bool → QConfig → Outcome (Option (Response (List AclInfo)))
acl_list malloc conf =
    let cnt = length conf.acllist in
    if malloc
    then (fill acl_info cnt conf.acllist >>= λ list.
        done (some (ok_reply (cnt * sizeof_acl_info) list)))
    else done none

-- The search ends at the first access list for which `strcmp` is not 0.
unfoldable pub search_acl : String → List AclHdr → Option AclHdr
search_acl name [] = none
search_acl name (a ∷ acls) = if not (str_eq a.name name) then some a else search_acl name acls

-- A row of an access list: its rule and its address.
unfoldable pub acl_entry : AclEntry → Outcome (ℕ × List ℕ)
acl_entry e = done (e.rule, e.h_dest)

unfoldable pub acl_status :
    Bool → AclInfo → QConfig → Outcome (Option (Response (List (ℕ × List ℕ))))
acl_status malloc req conf = elim (search_acl req.name conf.acllist) [
  | none ↦ done (some (record { error = api_failure; arg_len = 0; sent = 0; arg = [] }))
  | some acl ↦
      let cnt = length acl.acl in
      if malloc
      then (fill acl_entry cnt acl.acl >>= λ list.
          done (some (ok_reply (cnt * sizeof_acl_entry) list)))
      else done none
]

abbrev pub hwaddr_of : Option (List ℕ) → List ℕ
hwaddr_of none = replicate 6 0
hwaddr_of (some a) = a

unfoldable pub if_info : Ifst → Outcome IfInfo
if_info i = do
  name ← strcpy 20 i.ifname
  done (record { name = name; hwaddr = hwaddr_of i.hwaddr; mtu = i.mtu })

-- The lock is released after the reply.
unfoldable pub int_list : Bool → QConfig → Outcome (QConfig × Option (Response (List IfInfo)))
int_list malloc conf = do
  held ← rdlock conf.intlistlock
  let cnt = length conf.intlist
  list ← (if malloc then fill if_info cnt conf.intlist else done [])
  free ← unlock held
  done (
    record conf { intlistlock = free },
    if malloc then some (ok_reply (cnt * sizeof_if_info) list) else none,
  )

abbrev pub no_info : IfInfo
no_info = record { name = ""; hwaddr = replicate 6 0; mtu = pos 0 }

-- The header announces a `qaoed_if_info`, and what is sent has the size of a `qaoed_interface_cmd`.
unfoldable pub interface_status : String → QConfig → Outcome (Response IfInfo)
interface_status ifname conf = elim (referenceint ifname conf.intlist) [
  | none ↦ done (record {
    error = api_failure;
    arg_len = sizeof_if_info;
    sent = sizeof_interface_cmd;
    arg = no_info;
  })
  | some n ↦ valid (get_elem? conf.intlist n) >>= λ i. if_info i >>= λ info. done (record {
    error = api_allok;
    arg_len = sizeof_if_info;
    sent = sizeof_interface_cmd;
    arg = info;
  })
]
