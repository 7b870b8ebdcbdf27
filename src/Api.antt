-- ===== src/Api.antt =====
-- api.c: the commands of the control socket that change the configuration (processTARGET_SETACL,
-- processTARGET_DEL, processTARGET_ADD, processINTERFACE_SETMTU), and from parseconf.c what they use
-- (referenceint, qaoed_devdefaults). A name field of a request is a text; a reply is its error code
-- and the argument that comes with it. The lists are held while a command runs, so it is one step.
pub mod Lock
pub mod Query
pub mod Dispatch
pub mod Interface
pub mod Acls
pub mod Targets
pub mod Socket
pub mod Add
use qaoed.Base.{
  ℕ, zero, suc, ◌+◌, ◌%◌, ℤ, pos, negsuc, eq_ℤ, ltb_ℤ, String, str_eq, List, [], ◌∷◌, ◌++◌, Option,
  none, some, Bool, true, false, not, ◌&&◌, ◌||◌, Outcome, done, fault, valid, ◌>>=◌, ◌==◌, ltb,
  if◌then◌else◌, get_elem?,
}
use qaoed.Acl.{AclHdr, referenceacl, aclrefup, aclrefdown}
use qaoed.Queue.{same_ptr}
use qaoed.Conf.{Ifst, AoeDev, QConfig}

abbrev pub api_allok : ℕ
api_allok = 0

abbrev pub api_failure : ℕ
api_failure = 2

-- `struct qaoed_target_info`
pub record TargetInfo : Type 0 where
  pub devicename : String
  pub shelf : ℕ
  pub slot : ℕ
  pub ifname : String
  pub writecache : ℤ
  pub broadcast : ℤ

-- The fields of `struct qaoed_target_info_detailed` that a request uses.
pub record TargetAcls : Type 0 where
  pub info : TargetInfo
  pub wacl : String
  pub racl : String
  pub cfgsetacl : String
  pub cfgracl : String

-- The loop of `referenceint`; `n` is the position of the head of the list.
unfoldable pub find_int : String → List Ifst → ℕ → Option ℕ
find_int name [] n = none
find_int name (i ∷ is) n = if str_eq name i.ifname then some n else find_int name is (n + 1)

unfoldable pub referenceint : String → List Ifst → Option ℕ
referenceint name intlist = find_int name intlist 0

abbrev pub is_empty : String → Bool
is_empty name = str_eq name ""

-- The test that finds the target of a request.
unfoldable pub is_target : List Ifst → TargetInfo → AoeDev → Bool
is_target intlist t d =
    ((d.slot == t.slot) && (d.shelf == t.shelf))
    && (is_empty t.ifname || same_ptr d.interface (referenceint t.ifname intlist))

-- One access list of a device is taken away, and another one is put in its place.
unfoldable pub swap_acl : String → Option ℕ → List AclHdr → Option ℕ × List AclHdr
swap_acl name old acls =
    let acls' = aclrefdown old acls in
    let new = referenceacl name acls' in
    if is_empty name then (none, acls') else (new, aclrefup new acls')

-- A name that no access list has.
unfoldable pub is_unknown : String → Option ℕ → Bool
is_unknown name (some i) = false
is_unknown name none = not (is_empty name)

-- The body of the loop of `processTARGET_SETACL`; the last result says whether a name was unknown.
unfoldable pub set_acls : TargetAcls → AoeDev → List AclHdr → AoeDev × List AclHdr × Bool
set_acls t d acls =
    let (w, acls1) = swap_acl t.wacl d.wacl acls in
    let (r, acls2) = swap_acl t.racl d.racl acls1 in
    let (s, acls3) = swap_acl t.cfgsetacl d.cfgsetacl acls2 in
    let (c, acls4) = swap_acl t.cfgracl d.cfgracl acls3 in
    (
      record d { wacl = w; racl = r; cfgsetacl = s; cfgracl = c },
      acls4,
      (is_unknown t.wacl w || is_unknown t.racl r)
          || (is_unknown t.cfgsetacl s || is_unknown t.cfgracl c),
    )

unfoldable pub set_devices :
    (AoeDev → Bool) → TargetAcls → List AoeDev → List AclHdr → List AoeDev × List AclHdr × Bool
set_devices test t [] acls = ([], acls, false)
set_devices test t (d ∷ ds) acls =
    let (d', acls1, bad) = if test d then set_acls t d acls else (d, acls, false) in
    let (ds', acls2, worse) = set_devices test t ds acls1 in (d' ∷ ds', acls2, bad || worse)

unfoldable pub target_setacl : TargetAcls → QConfig → QConfig × ℕ
target_setacl t conf =
    let (ds, acls, bad) = set_devices (is_target conf.intlist t.info) t conf.devices conf.acllist in
    (record conf { devices = ds; acllist = acls }, if bad then api_failure else api_allok)

unfoldable pub count_targets : (AoeDev → Bool) → List AoeDev → ℕ
count_targets test [] = 0
count_targets test (d ∷ ds) = (if test d then 1 else 0) + count_targets test ds

unfoldable pub unlink_targets : (AoeDev → Bool) → List AoeDev → List AoeDev
unlink_targets test [] = []
unlink_targets test (d ∷ ds) =
    let rest = unlink_targets test ds in if test d then rest else d ∷ rest

-- `processTARGET_DEL`; the first argument is what `pthread_cancel` returns. After the loop `device` is
-- NULL, and `qaoed_intrefdown(device->interface)` reads through it.
unfoldable pub target_del : ℤ → TargetInfo → QConfig → Outcome (QConfig × ℕ)
target_del ret t conf =
    let test = is_target conf.intlist t in
    let cnt = count_targets test conf.devices in
    if ltb 1 cnt || (cnt == 0)
    then done (conf, api_failure)
    else if eq_ℤ ret (negsuc 0)
    then done (record conf { devices = unlink_targets test conf.devices }, api_failure)
    else fault

-- `processINTERFACE_SETMTU` for the interface at a position. The first argument is what the system
-- says is the MTU of an interface; the last result is the MTU that the reply names.
unfoldable pub set_mtu : (String → ℤ) → ℤ → Option ℕ → List Ifst → List Ifst × ℕ × ℤ
set_mtu getifmtu mtu none is = (is, api_failure, mtu)
set_mtu getifmtu mtu (some n) [] = ([], api_failure, mtu)
set_mtu getifmtu mtu (some zero) (i ∷ is) =
    let wanted = if eq_ℤ mtu (negsuc 0) then getifmtu i.ifname else mtu in
    if ltb_ℤ (getifmtu i.ifname) wanted
    then (i ∷ is, api_failure, i.mtu)
    else (record i { mtu = wanted } ∷ is, api_allok, wanted)
set_mtu getifmtu mtu (some (suc n)) (i ∷ is) =
    let (is', error, told) = set_mtu getifmtu mtu (some n) is in (i ∷ is', error, told)

unfoldable pub interface_setmtu : (String → ℤ) → String → ℤ → QConfig → QConfig × ℕ × ℤ
interface_setmtu getifmtu ifname mtu conf =
    let (is, error, told) = set_mtu getifmtu mtu (referenceint ifname conf.intlist) conf.intlist in
    (record conf { intlist = is }, error, told)
