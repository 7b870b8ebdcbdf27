-- ===== src/Api/Add/Exclusive.antt =====
-- Any two devices of the configuration differ in shelf or slot, or serve one file on two interfaces.
use qaoed.Base.{
  ℕ, ◌≡◌, ◌≢◌, ◌↔◌, ◌⊎◌, inl, inr, Bool-cases, refl, sym, ap, arith, subst, String, str_eq,
  str_eq_iff, List, [], ◌∷◌, ◌++◌, Option, none, some, Bool, true, false, not, ◌&&◌, ◌==◌, Outcome,
  done, valid, ◌>>=◌, if◌then◌else◌, get_elem?, All, All-append,
}
use qaoed.Queue.{same_ptr}
use qaoed.Base.Results.{>>=-eq-done}
use qaoed.Conf.{AoeDev, QConfig}
use qaoed.Api.{TargetInfo}
use qaoed.Api.Add.{
  devdefaults, new_device, other_file, conflicts, any_conflict, append_target, admit_target,
  target_add, Reply,
}

-- Both have a file, and it is the same one.
abbrev pub SameFile : Option String → Option String → Type 0
SameFile a b = (name : String) × (a ≡ some name) × (b ≡ some name)

-- Two devices differ in slot or in shelf, or they serve one file on two interfaces.
abbrev pub Apart : AoeDev → AoeDev → Type 0
Apart d e =
    ((d.slot ≢ e.slot) ⊎ (d.shelf ≢ e.shelf))
    ⊎ ((d.interface ≢ e.interface) × SameFile d.devicename e.devicename)

-- Any two devices of the list are apart.
abbrev pub Exclusive : List AoeDev → Type 0
Exclusive [] = Unit
Exclusive (d ∷ ds) = All (Apart d) ds × Exclusive ds

same_ptr-false : (a b : Option ℕ) → (same_ptr a b ≡ false) ↔ (a ≢ b)
same_ptr-false none none = (λ h. absurd (cc h), λ h. absurd (h refl))
same_ptr-false none (some b) = (λ h e. absurd (cc e), λ h. refl)
same_ptr-false (some a) none = (λ h e. absurd (cc e), λ h. refl)
same_ptr-false (some a) (some b) = (λ h e. let same : a ≡ b = cc e in ground arith, λ h. unequal h)
  where
    unequal : some a ≢ some b → same_ptr (some a) (some b) ≡ false
    unequal h = elim (Bool-cases (a == b)) [
      | inl e ↦ let same : a ≡ b = ground arith in absurd (h (ap some same))
      | inr e ↦ e
    ]

number-differs : (a b : ℕ) → ((a == b) ≡ false) ↔ (a ≢ b)
number-differs a b = (λ h e. ground arith, λ h. ground arith)

other_file-SameFile :
    (d e : AoeDev) → (other_file d e ≡ done false) ↔ SameFile d.devicename e.devicename
unfolding other_file
other_file-SameFile d e = named d.devicename e.devicename
  where
    named :
        (a b : Option String)
        → ((valid a >>= λ x. valid b >>= λ y. done (not (str_eq x y))) ≡ done false) ↔ SameFile a b
    named none b = (λ h. absurd (cc h), λ h. absurd (cc h.1))
    named (some x) none = (λ h. absurd (cc h), λ h. absurd (cc h.2))
    named (some x) (some y) = (
      λ h. let same : x ≡ y = ground (arith, str_eq_iff x y) in (x, refl, ap some (sym same)),
      λ h.
          let same : x ≡ y = cc (h.1, h.2) in
          let test : str_eq x y ≡ true = (str_eq_iff x y).1 same in rw test,
    )

-- The test of the code, as it is written, against what it is for.
conflict_test :
    (a b c : Bool) (m : Outcome Bool)
    → ((if a && b then if c then done true else m else done false) ≡ done false)
      ↔ (((a ≡ false) ⊎ (b ≡ false)) ⊎ ((c ≡ false) × (m ≡ done false)))
conflict_test false b c m = (λ h. inl (inl refl), λ h. refl)
conflict_test true false c m = (λ h. inl (inr refl), λ h. refl)
conflict_test true true true m = (
  λ h. absurd (cc h),
  λ h. elim h [
    | inl x ↦ elim x [ inl e ↦ absurd (cc e) | inr e ↦ absurd (cc e) ]
    | inr x ↦ absurd (cc x.0)
  ],
)
conflict_test true true false m = (
  λ h. inr (refl, h),
  λ h. elim h [ inl x ↦ elim x [ inl e ↦ absurd (cc e) | inr e ↦ absurd (cc e) ] | inr x ↦ x.1 ],
)

-- The code's test objects to two devices exactly if they are not apart.
pub conflicts-Apart : (d e : AoeDev) → (conflicts d e ≡ done false) ↔ Apart d e
unfolding conflicts
conflicts-Apart d e =
    let test =
      conflict_test (d.slot == e.slot) (d.shelf == e.shelf) (same_ptr d.interface e.interface)
        (other_file d e) in
    let slot = number-differs d.slot e.slot in
    let shelf = number-differs d.shelf e.shelf in
    let ptr = same_ptr-false d.interface e.interface in
    let file = other_file-SameFile d e in
    (
      λ h. elim (test.0 h) [
        | inl x ↦ inl (elim x [ inl n ↦ inl (slot.0 n) | inr n ↦ inr (shelf.0 n) ])
        | inr x ↦ inr (ptr.0 x.0, file.0 x.1)
      ],
      λ h. test.1 (elim h [
        | inl x ↦ inl (elim x [ inl n ↦ inl (slot.1 n) | inr n ↦ inr (shelf.1 n) ])
        | inr x ↦ inr (ptr.1 x.0, file.1 x.1)
      ]),
    )

distinct : true ≡ false → ⊥
distinct e = cc e

any_conflict-none :
    (ds : List AoeDev) (new : AoeDev) → any_conflict ds new ≡ done false → All (λ d. Apart d new) ds
unfolding any_conflict
any_conflict-none [] new h = tt
any_conflict-none (d ∷ ds) new h =
    let (bad, e, after) =
      >>=-eq-done (conflicts d new) (λ bad. if bad then done true else any_conflict ds new) h in
    step (any_conflict-none ds new) bad e after
  where
    step :
        (any_conflict ds new ≡ done false → All (λ d. Apart d new) ds)
        → (bad : Bool) → conflicts d new ≡ done bad
        → (if bad then done true else any_conflict ds new) ≡ done false
        → All (λ d. Apart d new) (d ∷ ds)
    step others true e after = absurd (distinct (cc after))
    step others false e after = ((conflicts-Apart d new).0 e, others after)

Exclusive-snoc :
    (ds : List AoeDev) (new : AoeDev)
    → Exclusive ds
    → All (λ d. Apart d new) ds
    → Exclusive (ds ++ (new ∷ []))
Exclusive-snoc [] new v h = (tt, tt)
Exclusive-snoc (d ∷ ds) new v h =
    (All-append (Apart d) ds (new ∷ []) v.0 (h.0, tt), Exclusive-snoc ds new v.1 h.1)

-- What the start of a device leaves as it is.
pub record IsStart (start : AoeDev → Option AoeDev) : Type 0 where
  pub shelf : (a b : AoeDev) → start a ≡ some b → b.shelf ≡ a.shelf
  pub slot : (a b : AoeDev) → start a ≡ some b → b.slot ≡ a.slot
  pub interface : (a b : AoeDev) → start a ≡ some b → b.interface ≡ a.interface
  pub devicename : (a b : AoeDev) → start a ≡ some b → b.devicename ≡ a.devicename

module _ (start : AoeDev → Option AoeDev) (starts : IsStart start) where
  Apart-started :
      (ds : List AoeDev) (a b : AoeDev)
      → start a ≡ some b
      → All (λ d. Apart d a) ds
      → All (λ d. Apart d b) ds
  Apart-started [] a b e h = tt
  Apart-started (d ∷ ds) a b e h = (
    rw (starts.shelf a b e, starts.slot a b e, starts.interface a b e, starts.devicename a b e) h.0,
    Apart-started ds a b e h.1,
  )

  append_target-Exclusive :
      (r : Option AoeDev) (t : TargetInfo) (new : AoeDev) (conf conf' : QConfig)
      (reply : Option Reply)
      → start new ≡ r
      → Exclusive conf.devices
      → All (λ d. Apart d new) conf.devices
      → append_target r t conf ≡ done (conf', reply)
      → Exclusive conf'.devices
  unfolding append_target
  append_target-Exclusive none t new conf conf' reply e v free h =
      let same : conf ≡ conf' = cc h in subst (λ (c : QConfig). Exclusive c.devices) same v
  append_target-Exclusive (some b) t new conf conf' reply e v free h =
      let (i, e1, h1) = >>=-eq-done (valid b.interface) _ h in
      let (iface, e2, h2) = >>=-eq-done (valid (get_elem? conf.intlist i)) _ h1 in
      let (name, e3, h3) = >>=-eq-done (valid b.devicename) _ h2 in
      let same : record conf { devices = conf.devices ++ (b ∷ []) } ≡ conf' = cc h3 in
      subst (λ (c : QConfig). Exclusive c.devices) same
        (Exclusive-snoc conf.devices b v (Apart-started conf.devices new b e free))

  admit_target-Exclusive :
      (t : TargetInfo) (new : AoeDev) (conf conf' : QConfig) (reply : Option Reply)
      → Exclusive conf.devices
      → admit_target start t new conf ≡ done (conf', reply)
      → Exclusive conf'.devices
  unfolding admit_target
  admit_target-Exclusive t new conf conf' reply v h =
      let (bad, e, after) =
        >>=-eq-done (any_conflict conf.devices new)
          (λ bad. if bad then done (conf, none) else append_target (start new) t conf) h in
      step bad e after
    where
      step :
          (bad : Bool)
          → any_conflict conf.devices new ≡ done bad
          → (if bad then done (conf, none) else append_target (start new) t conf)
            ≡ done (conf', reply)
          → Exclusive conf'.devices
      step true e after =
          let same : conf ≡ conf' = cc after in subst (λ (c : QConfig). Exclusive c.devices) same v
      step false e after =
          append_target-Exclusive (start new) t new conf conf' reply refl v
            (any_conflict-none conf.devices new e) after

  -- A new target keeps the devices exclusive: two devices share shelf and slot only if they serve one
  -- file on two interfaces. This supposes that the start of a device leaves its address, its
  -- interface and its file as they are.
  pub target_add-Exclusive :
      (fresh : Option AoeDev) (t : TargetInfo) (conf conf' : QConfig) (reply : Option Reply)
      → Exclusive conf.devices
      → target_add start fresh t conf ≡ done (conf', reply)
      → Exclusive conf'.devices
  unfolding target_add devdefaults
  target_add-Exclusive none t conf conf' reply v h =
      let same : conf ≡ conf' = cc h in subst (λ (c : QConfig). Exclusive c.devices) same v
  target_add-Exclusive (some fresh) t conf conf' reply v h =
      let r = devdefaults conf (new_device fresh t conf) in
      admit_target-Exclusive t r.0 r.1 conf' reply v h
