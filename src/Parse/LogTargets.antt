-- ===== src/Parse/LogTargets.antt =====
-- parseconf.c: logging targets (parseLOG, findLOG, createdefaultlog, createLOG). `parseLOG` does not set
-- the `next` of its structure: whether fresh memory holds NULL there is an argument, and a read of
-- anything else is a fault.
use qaoed.Base.{
  ℕ, suc, ◌-◌, leb, length, take, drop, ℤ, pos, eq_ℤ, String, str_eq, List, [], ◌∷◌, ◌++◌, Option,
  none, some, Bool, true, false, ◌&&◌, Outcome, done, fault, blocked, ◌>>=◌, if◌then◌else◌,
}
use qaoed.Log.{syslgresolv, logtype_syslog, logtype_file}
use qaoed.Rcfg.{Cfg, null, assignment, block}
use qaoed.Parse.{find_sections}

-- What the `next` of the last structure of a list is: NULL, never set, or a structure of the list.
pub data Tail : Type 0 where
  ends unset cyclic : Tail

-- The step past the last structure, in a search that found nothing so far.
abbrev pub past {ℓ} : {A : Type ℓ} → Tail → A → Outcome A
past ends a = done a
past unset a = fault
past cyclic a = blocked

-- A logging target as it is read: a section need not give a name.
pub record LogSection : Type 0 where
  pub name : Option String
  pub log_level : ℤ
  pub logtype : ℤ
  pub syslog_facility : ℤ
  pub syslog_level : ℤ
  pub filename : Option String

-- The list of them; NULL is the list with none.
pub record LogChain : Type 0 where
  pub logs : List LogSection
  pub tail : Tail

-- What fresh memory holds.
pub record LogMemory : Type 0 where
  pub log_level : ℤ
  pub next_null : Bool

abbrev pub fresh_tail : Bool → Tail
fresh_tail next_null = if next_null then ends else unset

-- `LOG_INFO` and `LOG_DAEMON` of syslog.h.
abbrev pub blank_log : Option String → LogMemory → LogSection
blank_log name memory = record {
  name = name;
  log_level = memory.log_level;
  logtype = logtype_syslog;
  syslog_facility = pos 24;
  syslog_level = pos 6;
  filename = none;
}

-- One assignment; none is for a keyword that is not known, or not for this type of target.
unfoldable pub log_statement :
    (String → String → Bool) → String → String → LogSection → Option LogSection
log_statement same lvalue rvalue s =
    if str_eq lvalue "type"
    then some (record s { logtype = if str_eq rvalue "file" then logtype_file else logtype_syslog })
    else if str_eq lvalue "syslog-level" && eq_ℤ s.logtype logtype_syslog
    then some (record s { syslog_level = syslgresolv same rvalue })
    else if str_eq lvalue "syslog-facility" && eq_ℤ s.logtype logtype_syslog
    then some (record s { syslog_facility = syslgresolv same rvalue })
    else if str_eq lvalue "filename"
    then some (record s { filename = some rvalue })
    else if str_eq lvalue "name"
    then some (record s { name = some rvalue })
    else none

-- Blocks are passed over.
unfoldable pub log_statements : (String → String → Bool) → Cfg → LogSection → Option LogSection
log_statements same null s = some s
log_statements same (assignment lvalue rvalue next) s = elim (log_statement same lvalue rvalue s) [
  | none ↦ none
  | some s' ↦ log_statements same next s'
]
log_statements same (block lvalue inner next) s = log_statements same next s

-- The walk to the last structure of a list that is not NULL.
unfoldable pub to_end : LogChain → Outcome (List LogSection)
to_end chain = elim chain.logs [ [] ↦ done [] | s ∷ ss ↦ past chain.tail (s ∷ ss) ]

-- `parseLOG` returns NULL for a bad section, whatever was read before it.
unfoldable pub parse_log : (String → String → Bool) → LogMemory → Cfg → LogChain → Outcome LogChain
parse_log same memory c chain = do
  before ← to_end chain
  done (elim (log_statements same c (blank_log none memory)) [
    | none ↦ record { logs = []; tail = ends }
    | some s ↦ record { logs = before ++ (s ∷ []); tail = fresh_tail memory.next_null }
  ])

-- `findLOG` over the children of the header of the tree.
unfoldable pub find_logging :
    (String → String → Bool) → LogMemory → Cfg → Outcome LogChain → Outcome LogChain
find_logging same memory c chain =
    find_sections "logging" (λ inner m. m >>= parse_log same memory inner) c chain

-- The new target stands at the end of the list.
unfoldable pub createdefaultlog : LogMemory → LogChain → Outcome LogChain
createdefaultlog memory chain = do
  before ← to_end chain
  done (record { logs = before ++ (blank_log (some "default") memory ∷ []); tail = ends })

-- `referencelog` on such a list, with whether it finds the name. A name that is NULL is read through.
unfoldable pub has_name : String → List LogSection → Tail → Outcome Bool
has_name name [] tail = past tail false
has_name name (s ∷ ss) tail = elim s.name [
  | none ↦ fault
  | some n ↦ if str_eq name n then done true else has_name name ss tail
]

-- The structure at a place of the list gets the one at `n` as its next. If that is not behind it, a
-- walk along the list comes back to it.
unfoldable pub set_next : ℕ → ℕ → LogChain → LogChain
set_next place n chain =
    if leb n place
    then record { logs = take (suc place) chain.logs; tail = cyclic }
    else record { logs = take (suc place) chain.logs ++ drop n chain.logs; tail = chain.tail }

-- `log->next = createdefaultlog(loglist)`, where `log` is the last of the list: the function attaches
-- the new target, and returns the head.
unfoldable pub attach_default : LogMemory → LogChain → Outcome LogChain
attach_default memory chain = do
  before ← to_end chain
  created ← createdefaultlog memory chain
  done (set_next (length before - 1) 0 created)

-- The end of `createLOG`, for a list that is not NULL.
unfoldable pub ensure_default : LogMemory → LogChain → Outcome LogChain
ensure_default memory chain = do
  found ← has_name "default" chain.logs chain.tail
  if found then done chain else attach_default memory chain

unfoldable pub create_logs : LogMemory → LogChain → Outcome LogChain
create_logs memory chain = elim chain.logs [
  | [] ↦ createdefaultlog memory chain >>= ensure_default memory
  | s ∷ ss ↦ ensure_default memory chain
]

-- `createLOG`
unfoldable pub create_log : (String → String → Bool) → LogMemory → Cfg → Outcome LogChain
create_log same memory c =
    find_logging same memory c (done (record { logs = []; tail = ends })) >>= create_logs memory
