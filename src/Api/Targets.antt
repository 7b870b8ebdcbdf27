-- ===== src/Api/Targets.antt =====
-- What a deletion and a change of the MTU can come to.
use qaoed.Base.{
  ℕ, zero, suc, ◌≡◌, arith, ℤ, negsuc, eq_ℤ, ltb_ℤ, ◌≤ℤ◌, String, List, [], ◌∷◌, Option, none, some,
  Bool, true, false, inl, inr, Bool-cases, Outcome, done, fault, if◌then◌else◌, ◌==◌, ◌||◌, ltb,
  All,
}
use qaoed.Conf.{Ifst, QConfig}
use qaoed.Api.{
  TargetInfo, api_failure, is_target, count_targets, target_del, set_mtu, interface_setmtu,
  referenceint,
}

-- A deletion never reports success: if the command returns at all, its reply is a failure.
target_del_fails :
    (ret : ℤ) (t : TargetInfo) (conf conf' : QConfig) (error : ℕ)
    → target_del ret t conf ≡ done (conf', error)
    → error ≡ api_failure
unfolding target_del
target_del_fails ret t conf conf' error =
    branches (ltb 1 cnt || (cnt == 0)) (eq_ℤ ret (negsuc 0)) conf _
  where
    cnt : ℕ
    cnt = count_targets (is_target conf.intlist t) conf.devices

    branches :
        (a b : Bool) (c d : QConfig)
        → let r : Outcome (QConfig × ℕ) =
            if a then done (c, api_failure) else if b then done (d, api_failure) else fault in
          r ≡ done (conf', error) → error ≡ api_failure
    branches true b c d h = cc h
    branches false true c d h = cc h
    branches false false c d h = absurd (cc h)

-- No interface has a larger MTU than the system says.
abbrev pub AllFit : (String → ℤ) → List Ifst → Type 0
AllFit getifmtu is = All (λ (i : Ifst). i.mtu ≤ℤ getifmtu i.ifname) is

set_mtu-AllFit :
    (getifmtu : String → ℤ) (mtu : ℤ) (n : Option ℕ) (is : List Ifst)
    → AllFit getifmtu is
    → AllFit getifmtu (set_mtu getifmtu mtu n is).0
unfolding set_mtu
set_mtu-AllFit getifmtu mtu none is v = v
set_mtu-AllFit getifmtu mtu (some n) [] v = v
set_mtu-AllFit getifmtu mtu (some zero) (i ∷ is) v =
    let wanted = if eq_ℤ mtu (negsuc 0) then getifmtu i.ifname else mtu in
    elim (Bool-cases (ltb_ℤ (getifmtu i.ifname) wanted)) [
      | inl large ↦ rw large v
      | inr fits ↦ rw fits (ground arith, v.1)
    ]
set_mtu-AllFit getifmtu mtu (some (suc n)) (i ∷ is) v =
    (v.0, set_mtu-AllFit getifmtu mtu (some n) is v.1)

-- A request for an MTU, given or automatic, keeps every interface within what the system allows it.
pub interface_setmtu-AllFit :
    (getifmtu : String → ℤ) (ifname : String) (mtu : ℤ) (conf : QConfig)
    → AllFit getifmtu conf.intlist
    → AllFit getifmtu (interface_setmtu getifmtu ifname mtu conf).0.intlist
unfolding interface_setmtu
interface_setmtu-AllFit getifmtu ifname mtu conf v =
    set_mtu-AllFit getifmtu mtu (referenceint ifname conf.intlist) conf.intlist v
