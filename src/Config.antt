-- ===== src/Config.antt =====
-- parseconf.c: what is done with a configuration once it is read (qaoed_defaultconfig,
-- qaoed_openinterfaces, qaoed_validateconfig), with qaoed_opensock and getifhwaddr of
-- arch/linux_net.c. What the system answers is an argument; a wrong kind of file is only logged.
pub mod Clashes
pub mod Valid
pub mod Interfaces
use qaoed.Base.{
  ℕ, ◌+◌, ℤ, pos, negsuc, ◌+ℤ◌, eq_ℤ, ltb_ℤ, String, List, [], ◌∷◌, Option, none, some, Bool, true,
  false, not, ◌||◌, Outcome, done, valid, ◌>>=◌, ◌==◌, if◌then◌else◌, get_elem?,
}
use qaoed.Acl.{AclHdr}
use qaoed.Conf.{Logging, Ifst, AoeDev, QConfig}
use qaoed.Api.Add.{devdefaults, conflicts}

-- The loop of `qaoed_defaultconfig` over the devices that are left.
unfoldable pub default_all : List AoeDev → QConfig → List AoeDev × QConfig
default_all [] conf = ([], conf)
default_all (d ∷ ds) conf =
    let (d', conf') = devdefaults conf d in
    let (ds', conf'') = default_all ds conf' in (d' ∷ ds', conf'')

unfoldable pub defaultconfig : QConfig → QConfig
defaultconfig conf =
    let (ds, conf') = default_all conf.devices conf in record conf' { devices = ds }

-- What the system says about interfaces: whether the calls for a raw socket succeed, the hardware
-- address and the MTU (-1 if the call fails).
pub record NetSystem : Type 0 where
  pub connects : String → Bool
  pub hwaddr : String → Option (List ℕ)
  pub mtu : String → ℤ

unfoldable pub opensock : NetSystem → Ifst → Option Ifst
opensock sys i = if sys.connects i.ifname then some (record i { buffsize = pos 1518 }) else none

unfoldable pub getifhwaddr : NetSystem → Ifst → Ifst
getifhwaddr sys i = elim (sys.hwaddr i.ifname) [ none ↦ i | some a ↦ record i { hwaddr = some a } ]

-- An MTU of 0 stands for that of the system, and the buffer is made to hold it.
unfoldable pub fit_mtu : ℤ → Ifst → Ifst
fit_mtu system i =
    let mtu = if eq_ℤ i.mtu (pos 0) then system else i.mtu in
    record i { mtu = mtu; buffsize = if ltb_ℤ i.buffsize mtu then mtu +ℤ pos 14 else i.buffsize }

-- What the loop of `qaoed_openinterfaces` does with one interface, and whether it goes on.
unfoldable pub open_interface : NetSystem → Ifst → Ifst × Bool
open_interface sys i = elim (opensock sys i) [
  | none ↦ (i, false)
  | some i' ↦
      let i'' = fit_mtu (sys.mtu i.ifname) (getifhwaddr sys i') in
      (i'', not (ltb_ℤ (sys.mtu i.ifname) i''.mtu))
]

-- The loop ends at the first interface that fails.
unfoldable pub open_all : NetSystem → List Ifst → List Ifst × ℤ
open_all sys [] = ([], pos 0)
open_all sys (i ∷ is) =
    let (i', ok) = open_interface sys i in
    let (is', ret) = open_all sys is in if ok then (i' ∷ is', ret) else (i' ∷ is, negsuc 0)

unfoldable pub open_interfaces : NetSystem → List Ifst → List Ifst × ℤ
open_interfaces sys [] = ([], negsuc 0)
open_interfaces sys (i ∷ is) = open_all sys (i ∷ is)

unfoldable pub openinterfaces : NetSystem → QConfig → QConfig × ℤ
openinterfaces sys conf =
    let (is, ret) = open_interfaces sys conf.intlist in (record conf { intlist = is }, ret)

-- A loop that ends at the first element to which it objects.
unfoldable pub any_bad {ℓ} : {A : Type ℓ} → (A → Outcome Bool) → List A → Outcome Bool
any_bad bad [] = done false
any_bad bad (x ∷ xs) = bad x >>= λ b. if b then done true else any_bad bad xs

-- `log->logtype == LOGTYPE_ERR`
unfoldable pub is_broken : List Logging → ℕ → Outcome Bool
is_broken loglist n = do log ← valid (get_elem? loglist n); done (eq_ℤ log.logtype (negsuc 0))

-- An access list needs no logging target, an interface does.
unfoldable pub bad_log : Bool → List Logging → Option ℕ → Outcome Bool
bad_log required loglist none = done required
bad_log required loglist (some n) = is_broken loglist n

unfoldable pub bad_acl : List Logging → AclHdr → Outcome Bool
bad_acl loglist acl = bad_log false loglist acl.log

unfoldable pub bad_interface : List Logging → Ifst → Outcome Bool
bad_interface loglist i =
    bad_log true loglist i.log >>= λ b. done (if b then true else eq_ℤ i.mtu (pos 0))

unfoldable pub bad_file : (String → Bool) → AoeDev → Outcome Bool
bad_file stat d = done (elim d.devicename [ none ↦ true | some name ↦ not (stat name) ])

unfoldable pub unattached : AoeDev → Outcome Bool
unattached d = done (elim d.interface [ none ↦ true | some i ↦ false ])

unfoldable pub unaddressed : AoeDev → Outcome Bool
unaddressed d = done ((d.slot == 0xff) || (d.shelf == 0xffff))

-- The inner loop for the device at `i`, over the devices from `j` on.
unfoldable pub clashes_from : ℕ → AoeDev → ℕ → List AoeDev → Outcome Bool
clashes_from i d j [] = done false
clashes_from i d j (s ∷ ss) =
    let rest = clashes_from i d (j + 1) ss in
    if i == j then rest else (conflicts d s >>= λ bad. if bad then done true else rest)

-- The outer loop, over the devices from `i` on.
unfoldable pub any_clash : List AoeDev → ℕ → List AoeDev → Outcome Bool
any_clash devices i [] = done false
any_clash devices i (d ∷ ds) =
    clashes_from i d 0 devices >>= λ bad. if bad then done true else any_clash devices (i + 1) ds

-- Go on unless a loop has returned -1.
unfoldable pub unless : Outcome Bool → Outcome ℤ → Outcome ℤ
unless m next = m >>= λ bad. if bad then done (negsuc 0) else next

unfoldable pub validateconfig : (String → Bool) → QConfig → Outcome ℤ
validateconfig stat conf = unless (any_bad (bad_acl conf.loglist) conf.acllist) (
    unless (any_bad (bad_interface conf.loglist) conf.intlist) (
      unless (any_bad (bad_file stat) conf.devices) (
        unless (any_bad unattached conf.devices) (
          unless (any_bad unaddressed conf.devices)
            (unless (any_clash conf.devices 0 conf.devices) (done (pos 0)))))))
