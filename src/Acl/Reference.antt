-- ===== src/Acl/Reference.antt =====
-- The lookups of acl.c and the reference counters.
use qaoed.Base.{
  ℕ, zero, suc, ◌+◌, ◌<◌, ◌≡◌, refl, ◌≢◌, ◌⊎◌, inl, inr, false, String, Option, none, some, List,
  [], ◌∷◌, arith, str_eq, str_eq_iff, get_elem?, Bool-cases, All,
}
use qaoed.Acl.{AclHdr, find_name, referenceacl}

-- The list at position i is the first one named `name`.
pub record FirstNamed (name : String) (acls : List AclHdr) (i : ℕ) (a : AclHdr) : Type 0 where
  pub at_i : get_elem? acls i ≡ some a
  pub named : name ≡ a.name
  pub first : (j : ℕ) (b : AclHdr) → j < i → get_elem? acls j ≡ some b → name ≢ b.name

-- What a lookup by name reports, with the positions counted from n.
abbrev pub Finds : String → List AclHdr → ℕ → Option ℕ → Type 0
Finds name acls n r =
    ((r ≡ none) × All (λ a. name ≢ a.name) acls)
    ⊎ ((i : ℕ) × (a : AclHdr) × (r ≡ some (n + i)) × FirstNamed name acls i a)

ne_of_str_eq : (s t : String) → str_eq s t ≡ false → s ≢ t
ne_of_str_eq s t h e = cc ((str_eq_iff s t).1 e)

FirstNamed-cons :
    {name : String} {acls : List AclHdr} {i : ℕ} {a : AclHdr} (b : AclHdr)
    → name ≢ b.name
    → FirstNamed name acls i a
    → FirstNamed name (b ∷ acls) (suc i) a
FirstNamed-cons {name} {acls} {i} {a} b other f = record {
  at_i = f.at_i;
  named = f.named;
  first = earlier;
}
  where
    earlier : (j : ℕ) (c : AclHdr) → j < suc i → get_elem? (b ∷ acls) j ≡ some c → name ≢ c.name
    earlier zero c h e = ground arith
    earlier (suc j) c h e = f.first j c (omega arith) e

Finds-cons :
    {name : String} {acls : List AclHdr} {r : Option ℕ} (n : ℕ) (b : AclHdr)
    → name ≢ b.name
    → Finds name acls (n + 1) r
    → Finds name (b ∷ acls) n r
Finds-cons n b other (inl (e, all)) = inl (e, (other, all))
Finds-cons n b other (inr (i, a, e, f)) = inr (suc i, a, ground arith, FirstNamed-cons b other f)

find_name-Finds :
    (name : String) (acls : List AclHdr) (n : ℕ) → Finds name acls n (find_name name acls n)
unfolding find_name
find_name-Finds name [] n = inl (refl, tt)
find_name-Finds name (a ∷ acls) n = elim (Bool-cases (str_eq name a.name)) [
  | inl same ↦ rw same (
      inr (
        0,
        a,
        ground arith,
        record {
          at_i = refl;
          named = (str_eq_iff name a.name).0 same;
          first = λ j b h e. absurd (omega arith);
        },
      ))
  | inr other ↦
      rw other (Finds-cons n a (ne_of_str_eq name a.name other) (find_name-Finds name acls (n + 1)))
]

-- `referenceacl` returns the position of the first access list with the name, and NULL exactly when
-- no access list has it.
pub referenceacl-Finds :
    (name : String) (acls : List AclHdr) → Finds name acls 0 (referenceacl name acls)
unfolding referenceacl
referenceacl-Finds name acls = find_name-Finds name acls 0
