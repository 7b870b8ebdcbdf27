-- ===== src/Api/Acls.antt =====
-- The reference counters of the access lists and the pointers of the devices to them.
use qaoed.Base.{
  ℕ, zero, suc, ◌+◌, ◌<◌, ◌≡◌, refl, ◌∙◌, ap, arith, ℤ, pos, negsuc, pos_part, neg_part, ◌+ℤ◌,
  +ℤ_parts, eq_of_parts, String, List, [], ◌∷◌, Option, none, some, Bool, true, false, inl, inr,
  Bool-cases, if◌then◌else◌, ◌==◌, length,
}
use qaoed.Acl.{AclHdr, add_refcnt, aclrefup, aclrefdown, referenceacl}
use qaoed.Conf.{AoeDev, QConfig}
use qaoed.Api.{TargetAcls, is_empty, is_target, swap_acl, set_acls, set_devices, target_setacl}

-- The counter of the access list at a position.
abbrev pub refcnt_at : ℕ → List AclHdr → ℤ
refcnt_at i [] = pos 0
refcnt_at zero (a ∷ acls) = a.refcnt
refcnt_at (suc i) (a ∷ acls) = refcnt_at i acls

-- How many of the pointers lead to the position.
abbrev pub hits : ℕ → Option ℕ → ℕ
hits i none = 0
hits i (some j) = if j == i then 1 else 0

abbrev pub uses : ℕ → AoeDev → ℕ
uses i d = hits i d.wacl + hits i d.racl + hits i d.cfgsetacl + hits i d.cfgracl

abbrev pub all_uses : ℕ → List AoeDev → ℕ
all_uses i [] = 0
all_uses i (d ∷ ds) = uses i d + all_uses i ds

-- The counter c has become c', when m pointers have become n: c' + m = c + n, written without signs.
record IsMoved (c c' : ℤ) (m n : ℕ) : Type 0 where
  parts : pos_part c' + neg_part c + m ≡ neg_part c' + pos_part c + n

refcnt_at-add_refcnt :
    (k : ℤ) (n i : ℕ) (acls : List AclHdr)
    → i < length acls
    → refcnt_at i (add_refcnt k n acls)
      ≡ (if n == i then refcnt_at i acls +ℤ k else refcnt_at i acls)
unfolding add_refcnt
refcnt_at-add_refcnt k n i [] h = absurd (omega arith)
refcnt_at-add_refcnt k zero zero (a ∷ acls) h = refl
refcnt_at-add_refcnt k zero (suc i) (a ∷ acls) h = ground arith
refcnt_at-add_refcnt k (suc n) zero (a ∷ acls) h = ground arith
refcnt_at-add_refcnt k (suc n) (suc i) (a ∷ acls) h =
    ground (arith, refcnt_at-add_refcnt k n i acls (omega arith))

length-add_refcnt :
    (k : ℤ) (n : ℕ) (acls : List AclHdr) → length (add_refcnt k n acls) ≡ length acls
unfolding add_refcnt
length-add_refcnt k n [] = refl
length-add_refcnt k zero (a ∷ acls) = refl
length-add_refcnt k (suc n) (a ∷ acls) = ap suc (length-add_refcnt k n acls)

IsMoved-trans :
    (a b c : ℤ) (m m' n n' : ℕ)
    → IsMoved a b m n
    → IsMoved b c m' n'
    → IsMoved a c (m + m') (n + n')
IsMoved-trans a b c m m' n n' p q = record { parts = omega (arith, p.parts, q.parts) }

aclrefdown-IsMoved :
    (i : ℕ) (old : Option ℕ) (acls : List AclHdr)
    → i < length acls
    → IsMoved (refcnt_at i acls) (refcnt_at i (aclrefdown old acls)) (hits i old) 0
unfolding aclrefdown
aclrefdown-IsMoved i none acls h = record { parts = omega arith }
aclrefdown-IsMoved i (some n) acls h = elim (Bool-cases (n == i)) [
  | inl same ↦
      rw (refcnt_at-add_refcnt (negsuc 0) n i acls h, same)
        (record { parts = omega (arith, +ℤ_parts (refcnt_at i acls) (negsuc 0)) })
  | inr other ↦
      rw (refcnt_at-add_refcnt (negsuc 0) n i acls h, other) (record { parts = omega arith })
]

aclrefup-IsMoved :
    (i : ℕ) (new : Option ℕ) (acls : List AclHdr)
    → i < length acls
    → IsMoved (refcnt_at i acls) (refcnt_at i (aclrefup new acls)) 0 (hits i new)
unfolding aclrefup
aclrefup-IsMoved i none acls h = record { parts = omega arith }
aclrefup-IsMoved i (some n) acls h = elim (Bool-cases (n == i)) [
  | inl same ↦
      rw (refcnt_at-add_refcnt (pos 1) n i acls h, same)
        (record { parts = omega (arith, +ℤ_parts (refcnt_at i acls) (pos 1)) })
  | inr other ↦ rw (refcnt_at-add_refcnt (pos 1) n i acls h, other) (record { parts = omega arith })
]

length-aclrefdown :
    (old : Option ℕ) (acls : List AclHdr) → length (aclrefdown old acls) ≡ length acls
unfolding aclrefdown
length-aclrefdown none acls = refl
length-aclrefdown (some n) acls = length-add_refcnt (negsuc 0) n acls

length-aclrefup : (new : Option ℕ) (acls : List AclHdr) → length (aclrefup new acls) ≡ length acls
unfolding aclrefup
length-aclrefup none acls = refl
length-aclrefup (some n) acls = length-add_refcnt (pos 1) n acls

-- What a change of pointers does: the length stays, and each counter moves with the pointers.
record IsKept (acls acls' : List AclHdr) (m n : ℕ → ℕ) : Type 0 where
  same_length : length acls' ≡ length acls
  moved : (i : ℕ) → i < length acls → IsMoved (refcnt_at i acls) (refcnt_at i acls') (m i) (n i)

IsKept-trans :
    (a b c : List AclHdr) (m m' n n' : ℕ → ℕ)
    → IsKept a b m n
    → IsKept b c m' n'
    → IsKept a c (λ i. m i + m' i) (λ i. n i + n' i)
IsKept-trans a b c m m' n n' p q = record {
  same_length = q.same_length ∙ p.same_length;
  moved = λ i h.
      IsMoved-trans (refcnt_at i a) (refcnt_at i b) (refcnt_at i c) (m i) (m' i) (n i) (n' i)
        (p.moved i h) (q.moved i (omega (arith, p.same_length)));
}

swap_acl-IsKept :
    (name : String) (old : Option ℕ) (acls : List AclHdr)
    → IsKept acls
        (swap_acl name old acls).1
        (λ i. hits i old)
        (λ i. hits i (swap_acl name old acls).0)
unfolding swap_acl
swap_acl-IsKept name old acls = elim (Bool-cases (is_empty name)) [
  | inl gone ↦ rw gone (record {
    same_length = length-aclrefdown old acls;
    moved = λ i h. aclrefdown-IsMoved i old acls h;
  })
  | inr named ↦
      let down = aclrefdown old acls in
      let new = referenceacl name down in
      rw named (record {
        same_length = length-aclrefup new down ∙ length-aclrefdown old acls;
        moved = λ i h.
            let p = aclrefdown-IsMoved i old acls h in
            let q = aclrefup-IsMoved i new down (omega (arith, length-aclrefdown old acls)) in
            record { parts = omega (arith, p.parts, q.parts) };
      })
]

set_acls-IsKept :
    (t : TargetAcls) (d : AoeDev) (acls : List AclHdr)
    → IsKept acls (set_acls t d acls).1 (λ i. uses i d) (λ i. uses i (set_acls t d acls).0)
unfolding set_acls
set_acls-IsKept t d acls =
    let a1 = (swap_acl t.wacl d.wacl acls).1 in
    let a2 = (swap_acl t.racl d.racl a1).1 in
    let a3 = (swap_acl t.cfgsetacl d.cfgsetacl a2).1 in
    let k1 = swap_acl-IsKept t.wacl d.wacl acls in
    let k2 = swap_acl-IsKept t.racl d.racl a1 in
    let k3 = swap_acl-IsKept t.cfgsetacl d.cfgsetacl a2 in
    let k4 = swap_acl-IsKept t.cfgracl d.cfgracl a3 in
    IsKept-trans acls a3 _ _ _ _ _
      (IsKept-trans acls a2 a3 _ _ _ _ (IsKept-trans acls a1 a2 _ _ _ _ k1 k2) k3) k4

set_one-IsKept :
    (b : Bool) (t : TargetAcls) (d : AoeDev) (acls : List AclHdr)
    → let r = (if b then set_acls t d acls else (d, acls, false)) in
      IsKept acls r.1 (λ i. uses i d) (λ i. uses i r.0)
set_one-IsKept true t d acls = set_acls-IsKept t d acls
set_one-IsKept false t d acls = record {
  same_length = refl;
  moved = λ i h. record { parts = omega arith };
}

set_devices-IsKept :
    (test : AoeDev → Bool) (t : TargetAcls) (ds : List AoeDev) (acls : List AclHdr)
    → IsKept acls
        (set_devices test t ds acls).1
        (λ i. all_uses i ds)
        (λ i. all_uses i (set_devices test t ds acls).0)
unfolding set_devices
set_devices-IsKept test t [] acls = record {
  same_length = refl;
  moved = λ i h. record { parts = omega arith };
}
set_devices-IsKept test t (d ∷ ds) acls =
    let r = (if test d then set_acls t d acls else (d, acls, false)) in
    IsKept-trans acls r.1 (set_devices test t ds r.1).1 (λ i. uses i d) (λ i. all_uses i ds)
      (λ i. uses i r.0) (λ i. all_uses i (set_devices test t ds r.1).0)
      (set_one-IsKept (test d) t d acls) (set_devices-IsKept test t ds r.1)

-- A request that sets the access lists of a target moves the counter of every access list by the
-- pointers to it that the devices have gained, less those they have lost: a counter that told the
-- number of pointers before does so afterwards. No access list comes or goes.
pub target_setacl_balanced :
    (t : TargetAcls) (conf : QConfig) (i : ℕ)
    → i < length conf.acllist
    → let conf' = (target_setacl t conf).0 in
      (length conf'.acllist ≡ length conf.acllist)
      × (refcnt_at i conf'.acllist +ℤ pos (all_uses i conf.devices)
          ≡ refcnt_at i conf.acllist +ℤ pos (all_uses i conf'.devices))
unfolding target_setacl
target_setacl_balanced t conf i h =
    let k = set_devices-IsKept (is_target conf.intlist t.info) t conf.devices conf.acllist in
    let r = set_devices (is_target conf.intlist t.info) t conf.devices conf.acllist in
    let m = k.moved i h in
    (
      k.same_length,
      eq_of_parts _ _ (
          omega (
            arith,
            m.parts,
            +ℤ_parts (refcnt_at i r.1) (pos (all_uses i conf.devices)),
            +ℤ_parts (refcnt_at i conf.acllist) (pos (all_uses i r.0)),
          )),
    )
