-- ===== src/Parse/Acl.antt =====
-- parseconf.c: access lists (aclmac, aclpolicy, parseACL, findACL). `strcmp` and the conversion of an
-- address by `sscanf` are arguments.
use qaoed.Base.{
  ℕ, ◌+◌, ◌%◌, ℤ, pos, eq_ℤ, String, List, [], ◌∷◌, ◌++◌, Option, none, some, Bool, not, ◌||◌,
  Outcome, done, valid, ◌>>=◌, ◌==◌, if◌then◌else◌, length, map,
}
use qaoed.Acl.{AclEntry, acl_accept, acl_reject, acl_error}
use qaoed.Conf.{Logging}
use qaoed.Rcfg.{Cfg, null, assignment, block, first}
use qaoed.Parse.{Logs, resolve_log, find_sections}

-- The C library: `strcmp`, the values that `sscanf` converts with "%X:%X:%X:%X:%X:%X", and what
-- `malloc` returns for a logging target.
pub record AclLibrary : Type 0 where
  pub strcmp : String → String → ℤ
  pub scan_mac : String → List ℕ
  pub memory : Option Logging

-- An access list as it is read: a section need not give a name.
pub record AclSection : Type 0 where
  pub name : Option String
  pub aclnum : ℕ
  pub defaultpolicy : ℕ
  pub acl : List AclEntry
  pub log : Option ℕ

-- The address, if six values are converted.
unfoldable pub aclmac : AclLibrary → String → Option (List ℕ)
aclmac lib mac =
    let conv = lib.scan_mac mac in if length conv == 6 then some (map (λ v. v % 256) conv) else none

unfoldable pub aclpolicy : AclLibrary → String → ℕ
aclpolicy lib p =
    if eq_ℤ (lib.strcmp p "accept") (pos 0)
    then acl_accept
    else if eq_ℤ (lib.strcmp p "reject") (pos 1)
    then acl_reject
    else acl_error

abbrev pub is : AclLibrary → String → String → Bool
is lib a b = eq_ℤ (lib.strcmp a b) (pos 0)

-- One statement of a section. A block has no value, and its NULL is read through.
unfoldable pub acl_row : AclLibrary → String → String → AclSection → Option AclSection
acl_row lib lvalue mac s =
    if not (is lib lvalue "accept") || not (is lib lvalue "reject")
    then elim (aclmac lib mac) [
      | none ↦ none
      | some h_dest ↦ some (record s {
        acl = s.acl ++ (record { rule = aclpolicy lib lvalue; h_dest = h_dest; mask = 48 } ∷ []);
      })
    ]
    else none

unfoldable pub acl_log : AclLibrary → String → AclSection → Logs → AclSection × Logs
acl_log lib name s logs =
    let (log, logs') = resolve_log lib.memory name logs in (record s { log = log }, logs')

-- The switch on the first character of the name.
unfoldable pub acl_statement :
    AclLibrary → String → Option String → AclSection → Logs → Outcome (Option AclSection × Logs)
acl_statement lib lvalue rvalue s logs =
    if first lvalue == b'n'
    then if is lib lvalue "name"
      then (valid rvalue >>= λ v. done (some (record s { name = some v }), logs))
      else done (none, logs)
    else if first lvalue == b'p'
    then if is lib lvalue "policy"
      then (valid rvalue >>= λ v. done (some (record s { defaultpolicy = aclpolicy lib v }), logs))
      else done (none, logs)
    else if first lvalue == b'l'
    then if is lib lvalue "log"
      then (valid rvalue >>= λ v. let (s', logs') = acl_log lib v s logs in done (some s', logs'))
      else done (none, logs)
    else if (first lvalue == b'a') || (first lvalue == b'r')
    then (valid rvalue >>= λ v. done (acl_row lib lvalue v s, logs))
    else done (none, logs)

-- The loop over the statements ends at the first that is bad.
unfoldable pub acl_statements :
    AclLibrary → Cfg → AclSection → Logs → Outcome (Option AclSection × Logs)
acl_statements lib null s logs = done (some s, logs)
acl_statements lib (assignment lvalue rvalue next) s logs =
    acl_statement lib lvalue (some rvalue) s logs >>= λ r. elim r.0 [
      | none ↦ done (none, r.1)
      | some s' ↦ acl_statements lib next s' r.1
    ]
acl_statements lib (block lvalue inner next) s logs = acl_statement lib lvalue none s logs >>= λ r.
    elim r.0 [ none ↦ done (none, r.1) | some s' ↦ acl_statements lib next s' r.1 ]

-- The access lists read so far, the next number and the logging targets.
pub record Acls : Type 0 where
  pub acllist : List AclSection
  pub aclnumplan : ℕ
  pub logs : Logs

unfoldable pub parse_acl : AclLibrary → Cfg → Acls → Outcome Acls
parse_acl lib c st =
    let new : AclSection = record {
      name = none;
      aclnum = st.aclnumplan;
      defaultpolicy = acl_error;
      acl = [];
      log = none;
    } in
    acl_statements lib c new st.logs >>= λ r. done (record {
      acllist = elim r.0 [ none ↦ [] | some s ↦ st.acllist ++ (s ∷ []) ];
      aclnumplan = st.aclnumplan + 1;
      logs = r.1;
    })

-- `findACL` over the children of the header of the tree.
unfoldable pub find_acl : AclLibrary → Cfg → Outcome Acls → Outcome Acls
find_acl lib c st = find_sections "access-list" (λ inner st. st >>= parse_acl lib inner) c st
