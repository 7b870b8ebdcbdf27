-- ===== src/Parse.antt =====
-- parseconf.c: from the tree of a configuration file to its access lists (parseACL, findACL, aclmac,
-- aclpolicy) and devices (parsedevacl, parseDEV, findDFLT, findDEV), with loglvresolv of logging.c.
-- A list that is built is given back as NULL, here the empty list, when a section is bad.
pub mod Acl
pub mod Dev
pub mod Global
pub mod Finish
pub mod Accepted
pub mod Policy
pub mod LogTargets
pub mod Interfaces
use qaoed.Base.{
  ℕ, ◌+◌, ℤ, pos, negsuc, String, str_eq, List, [], ◌∷◌, ◌++◌, Option, none, some, Bool, true,
  false, if◌then◌else◌, length,
}
use qaoed.Conf.{Logging}
use qaoed.Rcfg.{Cfg, null, assignment, block}
use qaoed.Api.Add.{referencelog}

-- The table `loglevel` of logging.c; the first argument is `strcasecmp(a, b) == 0`.
unfoldable pub level_of : (String → String → Bool) → String → List (String × ℤ) → ℤ
level_of same str [] = negsuc 0
level_of same str ((name, lvl) ∷ levels) = if same str name then lvl else level_of same str levels

unfoldable pub loglvresolv : (String → String → Bool) → String → ℤ
loglvresolv same str =
    level_of same str (
      ("error", pos 4)
      ∷ ("info", pos 3)
      ∷ ("debg", pos 2)
      ∷ ("emerg", pos 1)
      ∷ ("none", pos 0)
      ∷ [])

-- A section may name a logging target that is not there: the pointer then leads to one of its own,
-- of no known type. Pointers go by position, first over the list and then over these.
pub record Logs : Type 0 where
  pub loglist : List Logging
  pub strays : List Logging

-- The pointer that `log = name` gives; the first argument is what `malloc` returns.
unfoldable pub resolve_log : Option Logging → String → Logs → Option ℕ × Logs
resolve_log memory name logs = elim (referencelog name logs.loglist) [
  | some n ↦ (some n, logs)
  | none ↦ elim memory [
    | none ↦ (none, logs)
    | some fresh ↦ (
      some (length logs.loglist + length logs.strays),
      record logs {
        strays = logs.strays ++ (record fresh { name = name; logtype = negsuc 0 } ∷ []);
      },
    )
  ]
]

-- Every block of the name, at any depth but inside one that is found, in the order of the file.
unfoldable pub find_sections {ℓ} : {S : Type ℓ} → String → (Cfg → S → S) → Cfg → S → S
find_sections name section null s = s
find_sections name section (assignment lvalue rvalue next) s = find_sections name section next s
find_sections name section (block lvalue inner next) s =
    find_sections name section next
      (if str_eq lvalue name then section inner s else find_sections name section inner s)
