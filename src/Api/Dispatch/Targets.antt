-- ===== src/Api/Dispatch/Targets.antt =====
-- Devices that stay the same targets, and the removal of some, keep the others apart.
use qaoed.Base.{
  negsuc, eq_ℤ, ℕ, ◌≡◌, refl, subst, ℤ, List, [], ◌∷◌, Bool, true, false, inl, inr, Bool-cases,
  Outcome, done, fault, if◌then◌else◌, ◌==◌, ◌||◌, ltb, All,
}
use qaoed.Acl.{AclHdr}
use qaoed.Conf.{AoeDev, QConfig}
use qaoed.Api.{
  api_failure, TargetInfo, TargetAcls, set_acls, set_devices, unlink_targets, target_del,
  count_targets, is_target,
}
use qaoed.Api.Add.Exclusive.{Apart, Exclusive}
use qaoed.Start.Devices.{SameTarget, SameTarget-self}

Apart-SameTarget :
    (a a' b b' : AoeDev) → SameTarget a a' → SameTarget b b' → Apart a b → Apart a' b'
Apart-SameTarget a a' b b' s t h =
    rw (s.slot, s.shelf, s.interface, s.devicename, t.slot, t.shelf, t.interface, t.devicename) h

-- The devices are the same targets, one by one.
abbrev pub SameTargets : List AoeDev → List AoeDev → Type 0
SameTargets [] [] = Unit
SameTargets [] (e ∷ es) = ⊥
SameTargets (d ∷ ds) [] = ⊥
SameTargets (d ∷ ds) (e ∷ es) = SameTarget d e × SameTargets ds es

free-SameTargets :
    (a a' : AoeDev) (ds es : List AoeDev)
    → SameTarget a a'
    → SameTargets ds es
    → All (Apart a) ds
    → All (Apart a') es
free-SameTargets a a' [] [] s t h = tt
free-SameTargets a a' [] (e ∷ es) s t h = absurd t
free-SameTargets a a' (d ∷ ds) [] s t h = absurd t
free-SameTargets a a' (d ∷ ds) (e ∷ es) s t h =
    (Apart-SameTarget a a' d e s t.0 h.0, free-SameTargets a a' ds es s t.1 h.1)

pub Exclusive-SameTargets : (ds es : List AoeDev) → SameTargets ds es → Exclusive ds → Exclusive es
Exclusive-SameTargets [] [] t v = tt
Exclusive-SameTargets [] (e ∷ es) t v = absurd t
Exclusive-SameTargets (d ∷ ds) [] t v = absurd t
Exclusive-SameTargets (d ∷ ds) (e ∷ es) t v =
    (free-SameTargets d e ds es t.0 t.1 v.0, Exclusive-SameTargets ds es t.1 v.1)

set_acls-SameTarget :
    (t : TargetAcls) (d : AoeDev) (acls : List AclHdr) → SameTarget d (set_acls t d acls).0
unfolding set_acls
set_acls-SameTarget t d acls = record {
  shelf = refl;
  slot = refl;
  interface = refl;
  devicename = refl;
}

pub set_devices-SameTargets :
    (test : AoeDev → Bool) (t : TargetAcls) (ds : List AoeDev) (acls : List AclHdr)
    → SameTargets ds (set_devices test t ds acls).0
unfolding set_devices
set_devices-SameTargets test t [] acls = tt
set_devices-SameTargets test t (d ∷ ds) acls = (head (test d), set_devices-SameTargets test t ds _)
  where
    head : (b : Bool) → SameTarget d (if b then set_acls t d acls else (d, acls, false)).0
    head true = set_acls-SameTarget t d acls
    head false = SameTarget-self d

free-unlink_targets :
    (test : AoeDev → Bool) (a : AoeDev) (ds : List AoeDev)
    → All (Apart a) ds
    → All (Apart a) (unlink_targets test ds)
unfolding unlink_targets
free-unlink_targets test a [] h = tt
free-unlink_targets test a (d ∷ ds) h = elim (Bool-cases (test d)) [
  | inl e ↦ rw e (free-unlink_targets test a ds h.1)
  | inr e ↦ rw e (h.0, free-unlink_targets test a ds h.1)
]

Exclusive-unlink_targets :
    (test : AoeDev → Bool) (ds : List AoeDev) → Exclusive ds → Exclusive (unlink_targets test ds)
unfolding unlink_targets
Exclusive-unlink_targets test [] v = tt
Exclusive-unlink_targets test (d ∷ ds) v = elim (Bool-cases (test d)) [
  | inl e ↦ rw e (Exclusive-unlink_targets test ds v.1)
  | inr e ↦ rw e (free-unlink_targets test d ds v.0, Exclusive-unlink_targets test ds v.1)
]

pub target_del-Exclusive :
    (ret : ℤ) (t : TargetInfo) (conf conf' : QConfig) (error : ℕ)
    → Exclusive conf.devices
    → target_del ret t conf ≡ done (conf', error)
    → Exclusive conf'.devices
unfolding target_del
target_del-Exclusive ret t conf conf' error v =
    branches (ltb 1 cnt || (cnt == 0)) (eq_ℤ ret (negsuc 0))
  where
    test : AoeDev → Bool
    test = is_target conf.intlist t

    cnt : ℕ
    cnt = count_targets test conf.devices

    branches :
        (a b : Bool)
        → ◌≡◌ {A = Outcome (QConfig × ℕ)}
            (if a
              then done (conf, api_failure)
              else if b
              then done (record conf { devices = unlink_targets test conf.devices }, api_failure)
              else fault)
            (done (conf', error))
        → Exclusive conf'.devices
    branches true b h =
        let e : conf ≡ conf' = cc h in subst (λ (c : QConfig). Exclusive c.devices) e v
    branches false true h =
        let e : record conf { devices = unlink_targets test conf.devices } ≡ conf' = cc h in
        subst (λ (c : QConfig). Exclusive c.devices) e
          (Exclusive-unlink_targets test conf.devices v)
    branches false false h = absurd (cc h)
