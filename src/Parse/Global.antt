-- ===== src/Parse/Global.antt =====
-- parseconf.c: the statements outside every section (readglobal).
use qaoed.Base.{ℕ, pos, String, str_eq, Option, none, some, Bool, false, if◌then◌else◌}
use qaoed.Conf.{RwLock, QConfig}
use qaoed.Rcfg.{Cfg, null, assignment, block}
use qaoed.Parse.{loglvresolv}

-- A lock that nobody holds, as `pthread_rwlock_init` leaves it.
abbrev pub free_lock : RwLock
free_lock = record { readers = 0; writer = false }

-- The configuration before it is read, over what fresh memory holds; the first argument is the
-- logging target for messages.
unfoldable pub blank_config : Option ℕ → QConfig → QConfig
blank_config log fresh = record fresh {
  log_level = pos 0;
  log = log;
  sockpath = none;
  aclnumplan = 1;
  devlistlock = free_lock;
  intlistlock = free_lock;
}

-- One assignment; none is for a keyword that is not known. Included files are tokens already.
unfoldable pub global_statement :
    (String → String → Bool) → String → String → QConfig → Option QConfig
global_statement same lvalue rvalue conf =
    if str_eq lvalue "log-level"
    then some (record conf { log_level = loglvresolv same rvalue })
    else if str_eq lvalue "include"
    then some conf
    else if str_eq lvalue "apisocket"
    then some (record conf { sockpath = some rvalue })
    else none

unfoldable pub global_statements : (String → String → Bool) → Cfg → QConfig → Option QConfig
global_statements same null conf = some conf
global_statements same (assignment lvalue rvalue next) conf =
    elim (global_statement same lvalue rvalue conf) [
      | none ↦ none
      | some conf' ↦ global_statements same next conf'
    ]
global_statements same (block lvalue inner next) conf = global_statements same next conf

unfoldable pub readglobal : (String → String → Bool) → Option ℕ → QConfig → Cfg → Option QConfig
readglobal same log fresh c = global_statements same c (blank_config log fresh)
