-- ===== src/Config/Interfaces.antt =====
-- The interfaces after qaoed_openinterfaces.
use qaoed.Base.{
  if◌then◌else◌, eq_ℤ, ◌≡◌, refl, arith, ℤ, pos, negsuc, ◌≤ℤ◌, +ℤ_parts, List, [], ◌∷◌, true, false,
  inl, inr, Bool-cases, Option-cases, not, ltb_ℤ, ◌∙◌, ap, ◌≢◌, ◌+ℤ◌,
}
use qaoed.Conf.{Ifst, QConfig}
use qaoed.Config.{
  NetSystem, opensock, getifhwaddr, fit_mtu, open_interface, open_all, open_interfaces,
  openinterfaces,
}

-- An interface that is ready for packets, and the one it was made from: it has a socket, its MTU is
-- the configured one or that of the system, the system allows it, and the buffer holds it.
pub record IsReady (sys : NetSystem) (old new : Ifst) : Type 0 where
  pub connected : sys.connects old.ifname ≡ true
  pub named : new.ifname ≡ old.ifname
  pub allowed : new.mtu ≤ℤ sys.mtu old.ifname
  pub held : new.mtu ≤ℤ new.buffsize
  pub chosen : new.mtu ≡ (if eq_ℤ old.mtu (pos 0) then sys.mtu old.ifname else old.mtu)

abbrev pub AllReady : NetSystem → List Ifst → List Ifst → Type 0
AllReady sys [] [] = Unit
AllReady sys [] (j ∷ js) = ⊥
AllReady sys (i ∷ is) [] = ⊥
AllReady sys (i ∷ is) (j ∷ js) = IsReady sys i j × AllReady sys is js

-- There are interfaces, and all of them are ready.
abbrev pub AllOpen : NetSystem → List Ifst → List Ifst → Type 0
AllOpen sys is js = (js ≢ []) × AllReady sys is js

pub AllReady-AllOpen :
    (sys : NetSystem) (is js : List Ifst) → is ≢ [] → AllReady sys is js → AllOpen sys is js
AllReady-AllOpen sys [] js ne ready = absurd (ne refl)
AllReady-AllOpen sys (i ∷ is) [] ne ready = absurd ready
AllReady-AllOpen sys (i ∷ is) (j ∷ js) ne ready = ((λ e. cc e), ready)

getifhwaddr_same :
    (sys : NetSystem) (i : Ifst)
    → ((getifhwaddr sys i).ifname ≡ i.ifname) × ((getifhwaddr sys i).mtu ≡ i.mtu)
unfolding getifhwaddr
getifhwaddr_same sys i =
    elim (Option-cases (sys.hwaddr i.ifname))
      as (λ _. ((getifhwaddr sys i).ifname ≡ i.ifname) × ((getifhwaddr sys i).mtu ≡ i.mtu)) [
        | inl e ↦ rw (e, getifhwaddr) (refl, refl)
        | inr (a, e) ↦ rw (e, getifhwaddr) (refl, refl)
      ]

fit_mtu_lem :
    (system : ℤ) (i : Ifst)
    → not (ltb_ℤ system (fit_mtu system i).mtu) ≡ true
    → ((fit_mtu system i).mtu ≤ℤ system)
      × ((fit_mtu system i).mtu ≤ℤ (fit_mtu system i).buffsize)
      × ((fit_mtu system i).mtu ≡ (if eq_ℤ i.mtu (pos 0) then system else i.mtu))
unfolding fit_mtu
fit_mtu_lem system i h =
    let mtu = if eq_ℤ i.mtu (pos 0) then system else i.mtu in
    (ground arith, held mtu i.buffsize, refl)
  where
    held : (mtu buffsize : ℤ) → mtu ≤ℤ (if ltb_ℤ buffsize mtu then mtu +ℤ pos 14 else buffsize)
    held mtu buffsize = ground (arith, +ℤ_parts mtu (pos 14))

fit_mtu-opensock :
    (sys : NetSystem) (i : Ifst)
    → let j = getifhwaddr sys (record i { buffsize = pos 1518 }) in
      let k = fit_mtu (sys.mtu i.ifname) j in
      sys.connects i.ifname ≡ true → not (ltb_ℤ (sys.mtu i.ifname) k.mtu) ≡ true → IsReady sys i k
fit_mtu-opensock sys i c h =
    let j = getifhwaddr sys (record i { buffsize = pos 1518 }) in
    let (same_name, same_mtu) = getifhwaddr_same sys (record i { buffsize = pos 1518 }) in
    let (a, b, e) = fit_mtu_lem (sys.mtu i.ifname) j h in
    record {
      connected = c;
      named = unfold fit_mtu in same_name;
      allowed = a;
      held = b;
      chosen = e ∙ ap (λ (m : ℤ). if eq_ℤ m (pos 0) then sys.mtu i.ifname else m) same_mtu;
    }

open_interface-IsReady :
    (sys : NetSystem) (i : Ifst)
    → (open_interface sys i).1 ≡ true
    → IsReady sys i (open_interface sys i).0
unfolding open_interface opensock
open_interface-IsReady sys i h = elim (Bool-cases (sys.connects i.ifname)) [
  | inl c ↦
      rw (c, open_interface, opensock)
        (fit_mtu-opensock sys i c (rw (c, open_interface, opensock) at h))
  | inr c ↦ let bad : false ≡ true = rw (c, open_interface, opensock) at h in absurd (cc bad)
]

open_all-AllReady :
    (sys : NetSystem) (is : List Ifst)
    → (open_all sys is).1 ≡ pos 0
    → AllReady sys is (open_all sys is).0
unfolding open_all
open_all-AllReady sys [] h = tt
open_all-AllReady sys (i ∷ is) h = elim (Bool-cases (open_interface sys i).1) [
  | inl ok ↦ rw ok (open_interface-IsReady sys i ok, open_all-AllReady sys is (rw ok at h))
  | inr bad ↦ let e : negsuc 0 ≡ pos 0 = rw bad at h in absurd (cc e)
]

open_interfaces-AllReady :
    (sys : NetSystem) (is : List Ifst)
    → (open_interfaces sys is).1 ≡ pos 0
    → (is ≢ []) × AllReady sys is (open_interfaces sys is).0
unfolding open_interfaces
open_interfaces-AllReady sys [] h = absurd (cc h)
open_interfaces-AllReady sys (i ∷ is) h = (λ e. cc e, open_all-AllReady sys (i ∷ is) h)

-- If the interfaces are opened with success, there is at least one; each has a socket and keeps its
-- name, its MTU is the configured one or, for 0, that of the system, it is not above what the system
-- says, and the buffer size is at least the MTU.
pub openinterfaces-AllReady :
    (sys : NetSystem) (conf : QConfig)
    → (openinterfaces sys conf).1 ≡ pos 0
    → (conf.intlist ≢ []) × AllReady sys conf.intlist (openinterfaces sys conf).0.intlist
unfolding openinterfaces
openinterfaces-AllReady sys conf h = open_interfaces-AllReady sys conf.intlist h
