-- ===== src/Config/Valid.antt =====
-- What qaoed_validateconfig accepts.
use qaoed.Base.{
  ℕ, ◌≡◌, ◌≢◌, ◌↔◌, refl, ap, subst, arith, ℤ, pos, negsuc, eq_ℤ, String, List, [], ◌∷◌, Option,
  none, some, Bool, true, false, not, inl, inr, Bool-cases, Outcome, done, fault, blocked, valid,
  ◌>>=◌, if◌then◌else◌, get_elem?, All,
}
use qaoed.Acl.{AclHdr}
use qaoed.Conf.{Logging, Ifst, AoeDev, QConfig}
use qaoed.Api.Add.Exclusive.{Exclusive}
use qaoed.Config.Clashes.{Fine, or_else-Fine, any_clash-Exclusive}
use qaoed.Config.{
  any_bad, is_broken, bad_log, bad_acl, bad_interface, bad_file, unattached, unaddressed, unless,
  validateconfig,
}

-- The pointer is to a logging target whose type is known.
abbrev pub LogWorks : List Logging → ℕ → Type 0
LogWorks loglist n = (l : Logging) × (get_elem? loglist n ≡ some l) × (l.logtype ≢ negsuc 0)

abbrev pub LogFits : Bool → List Logging → Option ℕ → Type 0
LogFits required loglist none = required ≡ false
LogFits required loglist (some n) = LogWorks loglist n

-- What the code asks of a configuration. Of a path it asks that `stat` succeeds: that it is no regular
-- file and no block device is only logged.
pub record IsSound (stat : String → Bool) (conf : QConfig) : Type 0 where
  pub acls : All (λ (a : AclHdr). LogFits false conf.loglist a.log) conf.acllist
  pub interfaces :
      All (λ (i : Ifst). LogFits true conf.loglist i.log × (i.mtu ≢ pos 0)) conf.intlist
  pub files :
      All
        (λ (d : AoeDev). (name : String) × (d.devicename ≡ some name) × (stat name ≡ true))
        conf.devices
  pub attached : All (λ (d : AoeDev). (i : ℕ) × (d.interface ≡ some i)) conf.devices
  pub addressed : All (λ (d : AoeDev). (d.slot ≢ 0xff) × (d.shelf ≢ 0xffff)) conf.devices
  pub exclusive : Exclusive conf.devices

any_bad-Fine {ℓ} :
    {A : Type ℓ} (bad : A → Outcome Bool) (P : A → Type 0) (each : (x : A) → Fine (bad x) ↔ P x)
    (xs : List A)
    → Fine (any_bad bad xs) ↔ All P xs
unfolding any_bad
any_bad-Fine bad P each [] = (λ h. tt, λ h. refl)
any_bad-Fine bad P each (x ∷ xs) =
    let both = or_else-Fine (bad x) (any_bad bad xs) in
    let ih = any_bad-Fine bad P each xs in
    (λ h. let (a, b) = both.0 h in ((each x).0 a, ih.0 b), λ h. both.1 ((each x).1 h.0, ih.1 h.1))

eq_ℤ_iff : (a b : ℤ) → (eq_ℤ a b ≡ false) ↔ (a ≢ b)
eq_ℤ_iff (pos a) (pos b) = (λ h e. ground arith, λ h. ground arith)
eq_ℤ_iff (pos a) (negsuc b) = (λ h e. cc e, λ h. refl)
eq_ℤ_iff (negsuc a) (pos b) = (λ h e. cc e, λ h. refl)
eq_ℤ_iff (negsuc a) (negsuc b) = (λ h e. ground arith, λ h. ground arith)

type_works :
    (o : Option Logging)
    → Fine (valid o >>= λ log. done (eq_ℤ log.logtype (negsuc 0)))
      ↔ ((l : Logging) × (o ≡ some l) × (l.logtype ≢ negsuc 0))
type_works none = (λ h. absurd (cc h), λ w. absurd (cc w.1))
type_works (some l) =
    let e = eq_ℤ_iff l.logtype (negsuc 0) in
    (
      λ h. (l, refl, e.0 (cc h)),
      λ w.
          let same : l ≡ w.0 = cc w.1 in
          ap done (e.1 (λ z. w.2 (subst (λ (k : Logging). k.logtype ≡ negsuc 0) same z))),
    )

bad_log-Fine :
    (required : Bool) (loglist : List Logging) (o : Option ℕ)
    → Fine (bad_log required loglist o) ↔ LogFits required loglist o
unfolding bad_log is_broken
bad_log-Fine required loglist none = (λ h. cc h, λ h. ap done h)
bad_log-Fine required loglist (some n) = type_works (get_elem? loglist n)

bad_acl-Fine :
    (loglist : List Logging) (acl : AclHdr)
    → Fine (bad_acl loglist acl) ↔ LogFits false loglist acl.log
unfolding bad_acl
bad_acl-Fine loglist acl = bad_log-Fine false loglist acl.log

bad_interface-Fine :
    (loglist : List Logging) (i : Ifst)
    → Fine (bad_interface loglist i) ↔ (LogFits true loglist i.log × (i.mtu ≢ pos 0))
unfolding bad_interface
bad_interface-Fine loglist i = both (bad_log true loglist i.log) (bad_log-Fine true loglist i.log)
  where
    both :
        (m : Outcome Bool)
        → Fine m ↔ LogFits true loglist i.log
        → Fine (m >>= λ b. done (if b then true else eq_ℤ i.mtu (pos 0)))
          ↔ (LogFits true loglist i.log × (i.mtu ≢ pos 0))
    both (done true) l = (λ h. absurd (cc h), λ h. absurd (cc (l.1 h.0)))
    both (done false) l =
        let e = eq_ℤ_iff i.mtu (pos 0) in (λ h. (l.0 refl, e.0 (cc h)), λ h. ap done (e.1 h.1))
    both fault l = (λ h. absurd (cc h), λ h. absurd (cc (l.1 h.0)))
    both blocked l = (λ h. absurd (cc h), λ h. absurd (cc (l.1 h.0)))

bad_file-Fine :
    (stat : String → Bool) (d : AoeDev)
    → Fine (bad_file stat d) ↔ ((name : String) × (d.devicename ≡ some name) × (stat name ≡ true))
unfolding bad_file
bad_file-Fine stat d = named d.devicename
  where
    named :
        (o : Option String)
        → Fine (done (elim o [ none ↦ true | some name ↦ not (stat name) ]))
          ↔ ((name : String) × (o ≡ some name) × (stat name ≡ true))
    named none = (λ h. absurd (cc h), λ w. absurd (cc w.1))
    named (some n) = (
      λ h. (n, refl, elim (Bool-cases (stat n)) [ inl e ↦ e | inr e ↦ absurd (ground arith) ]),
      λ w. let same : n ≡ w.0 = cc w.1 in let e : stat n ≡ true = cc w.2 in rw e,
    )

unattached-Fine : (d : AoeDev) → Fine (unattached d) ↔ ((i : ℕ) × (d.interface ≡ some i))
unfolding unattached
unattached-Fine d = attached d.interface
  where
    attached :
        (o : Option ℕ)
        → Fine (done (elim o [ none ↦ true | some i ↦ false ])) ↔ ((i : ℕ) × (o ≡ some i))
    attached none = (λ h. absurd (cc h), λ w. absurd (cc w.1))
    attached (some i) = (λ h. (i, refl), λ w. refl)

unaddressed-Fine : (d : AoeDev) → Fine (unaddressed d) ↔ ((d.slot ≢ 0xff) × (d.shelf ≢ 0xffff))
unfolding unaddressed
unaddressed-Fine d = (λ h. (ground arith, ground arith), λ h. ground arith)

unless-pos :
    (m : Outcome Bool) (next : Outcome ℤ)
    → (unless m next ≡ done (pos 0)) ↔ (Fine m × (next ≡ done (pos 0)))
unfolding unless
unless-pos (done true) next = (λ h. absurd (cc h), λ h. absurd (cc h.0))
unless-pos (done false) next = (λ h. (refl, h), λ h. h.1)
unless-pos fault next = (λ h. absurd (cc h), λ h. absurd (cc h.0))
unless-pos blocked next = (λ h. absurd (cc h), λ h. absurd (cc h.0))

-- The validation of a configuration returns 0 exactly if its access lists have no broken logging
-- target, its interfaces have a working one and an MTU, its devices have a path that can be stat-ed,
-- an interface, a shelf and a slot, and any two of them differ in shelf or slot or serve one file on
-- two interfaces. Of what kind the file is plays no part: a directory is accepted.
pub validateconfig-IsSound :
    (stat : String → Bool) (conf : QConfig)
    → (validateconfig stat conf ≡ done (pos 0)) ↔ IsSound stat conf
unfolding validateconfig
validateconfig-IsSound stat conf =
    let a = any_bad-Fine (bad_acl conf.loglist) _ (λ x. bad_acl-Fine conf.loglist x) conf.acllist in
    let b =
      any_bad-Fine (bad_interface conf.loglist) _ (bad_interface-Fine conf.loglist) conf.intlist in
    let c = any_bad-Fine (bad_file stat) _ (bad_file-Fine stat) conf.devices in
    let d = any_bad-Fine unattached _ unattached-Fine conf.devices in
    let e = any_bad-Fine unaddressed _ unaddressed-Fine conf.devices in
    let f = any_clash-Exclusive conf.devices in
    (
      λ h.
          let ha = (unless-pos _ _).0 h in
          let hb = (unless-pos _ _).0 ha.1 in
          let hc = (unless-pos _ _).0 hb.1 in
          let hd = (unless-pos _ _).0 hc.1 in
          let he = (unless-pos _ _).0 hd.1 in
          let hf = (unless-pos _ _).0 he.1 in
          record {
            acls = a.0 ha.0;
            interfaces = b.0 hb.0;
            files = c.0 hc.0;
            attached = d.0 hd.0;
            addressed = e.0 he.0;
            exclusive = f.0 hf.0;
          },
      λ s. (unless-pos _ _).1 (
        a.1 s.acls,
        (unless-pos _ _).1 (
          b.1 s.interfaces,
          (unless-pos _ _).1 (
            c.1 s.files,
            (unless-pos _ _).1 (
              d.1 s.attached,
              (unless-pos _ _).1 (e.1 s.addressed, (unless-pos _ _).1 (f.1 s.exclusive, refl)),
            ),
          ),
        ),
      ),
    )
