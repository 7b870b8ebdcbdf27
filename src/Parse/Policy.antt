-- ===== src/Parse/Policy.antt =====
-- What an access list that is read grants.
use qaoed.Base.{
  str_eq, str_eq_iff, ◌≡◌, ◌≢◌, ◌↔◌, ◌⊎◌, inl, inr, refl, ap, ◌∙◌, subst, arith, ℕ, ℤ, pos, eq_ℤ,
  String, List, [], ◌∷◌, ◌++◌, Option, none, some, Bool, true, false, Bool-cases, Outcome, done,
  ◌==◌, if◌then◌else◌, All, All-append, not, ◌||◌, same_bytes,
}
use qaoed.Base.Results.{>>=-eq-done}
use qaoed.Acl.{AclEntry, AclHdr, acl_accept, acl_reject, acl_error, match_rows, aclmatch}
use qaoed.Rcfg.{Cfg, null, assignment, block, first}
use qaoed.Parse.{Logs, resolve_log}
use qaoed.Parse.Acl.{
  AclLibrary, AclSection, aclmac, aclpolicy, is, acl_row, acl_log, acl_statement, acl_statements,
}

-- `strcmp` is 0 exactly on equal texts.
abbrev pub IsStrcmp : AclLibrary → Type 0
IsStrcmp lib = (a b : String) → (lib.strcmp a b ≡ pos 0) ↔ (a ≡ b)

-- Neither the rows nor the policy accept.
abbrev pub Denies : AclSection → Type 0
Denies s = (s.defaultpolicy ≢ acl_accept) × All (λ (row : AclEntry). row.rule ≢ acl_accept) s.acl

-- No statement of the section accepts an address or makes acceptance the policy.
abbrev pub GrantsNothing : Cfg → Type 0
GrantsNothing null = Unit
GrantsNothing (assignment lvalue rvalue next) =
    (lvalue ≢ "accept") × ((lvalue ≢ "policy") ⊎ (rvalue ≢ "accept")) × GrantsNothing next
GrantsNothing (block lvalue inner next) = ⊥

eq_zero : (z : ℤ) → eq_ℤ z (pos 0) ≡ true → z ≡ pos 0
eq_zero z h = ground arith

no_accept : (b : Bool) → (if b then acl_reject else acl_error) ≢ acl_accept
no_accept true e = absurd (omega arith)
no_accept false e = absurd (omega arith)

module _ (lib : AclLibrary) (law : IsStrcmp lib) where
  aclpolicy-ne-accept : (p : String) → p ≢ "accept" → aclpolicy lib p ≢ acl_accept
  unfolding aclpolicy
  aclpolicy-ne-accept p ne e = elim (Bool-cases (eq_ℤ (lib.strcmp p "accept") (pos 0))) [
    | inl t ↦ ne ((law p "accept").0 (eq_zero (lib.strcmp p "accept") t))
    | inr f ↦ no_accept (eq_ℤ (lib.strcmp p "reject") (pos 1)) (rw f at e)
  ]

  with_row-Denies :
      (s : AclSection) (row : AclEntry)
      → row.rule ≢ acl_accept
      → Denies s
      → Denies (record s { acl = s.acl ++ (row ∷ []) })
  with_row-Denies s row ne d =
      (d.0, All-append (λ (r : AclEntry). r.rule ≢ acl_accept) s.acl (row ∷ []) d.1 (ne, tt))

  acl_row-Denies :
      (lvalue mac : String) (s s' : AclSection)
      → lvalue ≢ "accept"
      → Denies s
      → acl_row lib lvalue mac s ≡ some s'
      → Denies s'
  unfolding acl_row
  acl_row-Denies lvalue mac s s' ne d h =
      tested (not (is lib lvalue "accept") || not (is lib lvalue "reject")) (aclmac lib mac) h
    where
      tested :
          (b : Bool) (o : Option (List ℕ))
          → ◌≡◌ {A = Option AclSection}
              (if b
                then elim o [
                  | none ↦ none
                  | some h_dest ↦ some (record s {
                    acl =
                        s.acl
                        ++ (record { rule = aclpolicy lib lvalue; h_dest = h_dest; mask = 48 }
                            ∷ []);
                  })
                ]
                else none)
              (some s')
          → Denies s'
      tested false o h = absurd (cc h)
      tested true none h = absurd (cc h)
      tested true (some a) h =
          let row : AclEntry = record { rule = aclpolicy lib lvalue; h_dest = a; mask = 48 } in
          let same : record s { acl = s.acl ++ (row ∷ []) } ≡ s' = cc h in
          subst (λ (x : AclSection). Denies x) same
            (with_row-Denies s row (aclpolicy-ne-accept lvalue ne) d)

  is-ne : (a b : String) → is lib a b ≡ true → a ≡ b
  is-ne a b h = (law a b).0 (eq_zero (lib.strcmp a b) h)

-- Whatever section comes out, it denies.
abbrev Yields : Outcome (Option AclSection × Logs) → Type 0
Yields m = (s' : AclSection) (logs' : Logs) → m ≡ done (some s', logs') → Denies s'

Yields-if :
    (b : Bool) (m n : Outcome (Option AclSection × Logs))
    → (b ≡ true → Yields m)
    → Yields n
    → Yields (if b then m else n)
Yields-if true m n p q = p refl
Yields-if false m n p q = q

Yields-done : (s : AclSection) (logs : Logs) → Denies s → Yields (done (some s, logs))
Yields-done s logs d s' logs' h =
    let same : s ≡ s' = cc h in subst (λ (x : AclSection). Denies x) same d

Yields-none : (logs : Logs) → Yields (done (none, logs))
Yields-none logs s' logs' h = absurd (cc h)

module _ (lib : AclLibrary) (law : IsStrcmp lib) where
  policy-ne-accept :
      (lvalue rvalue : String)
      → ((lvalue ≢ "policy") ⊎ (rvalue ≢ "accept"))
      → is lib lvalue "policy" ≡ true
      → aclpolicy lib rvalue ≢ acl_accept
  policy-ne-accept lvalue rvalue (inl ne) e = absurd (ne (is-ne lib law lvalue "policy" e))
  policy-ne-accept lvalue rvalue (inr ne) e = aclpolicy-ne-accept lib law rvalue ne

  acl_statement-Yields :
      (lvalue rvalue : String) (s : AclSection) (logs : Logs)
      → lvalue ≢ "accept"
      → ((lvalue ≢ "policy") ⊎ (rvalue ≢ "accept"))
      → Denies s
      → Yields (acl_statement lib lvalue (some rvalue) s logs)
  unfolding acl_statement acl_log
  acl_statement-Yields lvalue rvalue s logs ne pol d =
      Yields-if (first lvalue == b'n') _ _
        (λ _.
          Yields-if (is lib lvalue "name") _ _
            (λ _. Yields-done (record s { name = some rvalue }) logs d) (Yields-none logs))
        (Yields-if (first lvalue == b'p') _ _
          (λ _.
            Yields-if (is lib lvalue "policy") _ _
              (λ e.
                Yields-done (record s { defaultpolicy = aclpolicy lib rvalue }) logs
                  (policy-ne-accept lvalue rvalue pol e, d.1))
              (Yields-none logs))
          (Yields-if (first lvalue == b'l') _ _
            (λ _.
              Yields-if (is lib lvalue "log") _ _
                (λ _.
                  let r = resolve_log lib.memory rvalue logs in
                  Yields-done (record s { log = r.0 }) r.1 d)
                (Yields-none logs))
            (Yields-if ((first lvalue == b'a') || (first lvalue == b'r')) _ _
              (λ _ s' logs' h. acl_row-Denies lib law lvalue rvalue s s' ne d (cc h))
              (Yields-none logs))))

  acl_statements-Yields :
      (c : Cfg) (s : AclSection) (logs : Logs)
      → GrantsNothing c
      → Denies s
      → Yields (acl_statements lib c s logs)
  unfolding acl_statements
  acl_statements-Yields null s logs g d s' logs' h = Yields-done s logs d s' logs' h
  acl_statements-Yields (block lvalue inner next) s logs g d s' logs' h = absurd g
  acl_statements-Yields (assignment lvalue rvalue next) s logs g d s' logs' h =
      let (r, e, h') = >>=-eq-done (acl_statement lib lvalue (some rvalue) s logs) _ h in
      after (acl_statements-Yields next) r.0 r.1
        (λ t e'.
          acl_statement-Yields lvalue rvalue s logs g.0 g.1 d t r.1
            (e ∙ ap (λ o. done (o, r.1)) e'))
        h'
    where
      after :
          ((t : AclSection) (l : Logs)
            → GrantsNothing next
            → Denies t
            → Yields (acl_statements lib next t l))
          → (o : Option AclSection) (l : Logs) → ((t : AclSection) → o ≡ some t → Denies t)
          → ◌≡◌ {A = Outcome (Option AclSection × Logs)}
              (elim o [ none ↦ done (none, l) | some t ↦ acl_statements lib next t l ])
              (done (some s', logs'))
          → Denies s'
      after ih none l ok h = absurd (cc h)
      after ih (some t) l ok h = ih t l g.2 (ok t refl) s' logs' h

match_rows-ne-accept :
    (policy : ℕ) (h_addr : List ℕ) (rows : List AclEntry)
    → policy ≢ acl_accept
    → All (λ (row : AclEntry). row.rule ≢ acl_accept) rows
    → match_rows policy h_addr rows ≢ acl_accept
unfolding match_rows
match_rows-ne-accept policy h_addr [] ne all = ne
match_rows-ne-accept policy h_addr (row ∷ rows) ne all =
    elim (Bool-cases (same_bytes h_addr row.h_dest)) [
      | inl e ↦ rw e (all.0)
      | inr e ↦ rw e (match_rows-ne-accept policy h_addr rows ne all.1)
    ]

-- An access list whose section in the file accepts no address, and does not make acceptance the
-- policy, accepts nobody once it is read, though the policy "reject" is not understood. This supposes
-- that `strcmp` is 0 exactly on equal texts, and that the list denied what it had before the section.
pub acl_statements_deny :
    (lib : AclLibrary) (c : Cfg) (s s' : AclSection) (logs logs' : Logs) (acl : AclHdr)
    (h_addr : List ℕ)
    → IsStrcmp lib
    → GrantsNothing c
    → Denies s
    → acl_statements lib c s logs ≡ done (some s', logs')
    → acl.acl ≡ s'.acl
    → acl.defaultpolicy ≡ s'.defaultpolicy
    → aclmatch acl h_addr ≢ acl_accept
unfolding aclmatch
acl_statements_deny lib c s s' logs logs' acl h_addr law g d h rows policy =
    let r = acl_statements-Yields lib law c s logs g d s' logs' h in
    rw (rows, policy) (match_rows-ne-accept s'.defaultpolicy h_addr s'.acl r.0 r.1)

reject-ne-accept : ◌≢◌ {A = String} "reject" "accept"
reject-ne-accept e =
    let same : str_eq "reject" "accept" ≡ true = (str_eq_iff "reject" "accept").1 e in
    absurd (cc same)

-- The policy "reject" is read as no policy at all, if `strcmp` is 0 exactly on equal texts.
pub aclpolicy_reject : (lib : AclLibrary) → IsStrcmp lib → aclpolicy lib "reject" ≡ acl_error
unfolding aclpolicy
aclpolicy_reject lib law =
    let same : lib.strcmp "reject" "reject" ≡ pos 0 = (law "reject" "reject").1 refl in
    elim (Bool-cases (eq_ℤ (lib.strcmp "reject" "accept") (pos 0))) [
      | inl e ↦ absurd (reject-ne-accept ((law "reject" "accept").0 (eq_zero _ e)))
      | inr e ↦ rw (e, same)
    ]
