-- ===== src/Log.antt =====
-- logging.c: the names of facilities (syslgresolv) and the start of the logging targets (logstart,
-- logstart_syslog, logstart_file), and openlogs of parseconf.c. `strcasecmp` and whether a file can be
-- opened are arguments.
pub mod Opened
use qaoed.Base.{
  ℕ, ℤ, pos, negsuc, eq_ℤ, String, List, [], ◌∷◌, Option, none, some, Bool, true, false, Outcome,
  done, valid, ◌>>=◌, if◌then◌else◌,
}
use qaoed.Conf.{Logging}
use qaoed.Parse.{level_of}

-- The values are those of syslog.h.
unfoldable pub syslgresolv : (String → String → Bool) → String → ℤ
syslgresolv same str = level_of same str (
    ("LOG_EMERG", pos 0)
    ∷ ("LOG_ALERT", pos 1)
    ∷ ("LOG_CRIT", pos 2)
    ∷ ("LOG_ERROR", pos 3)
    ∷ ("LOG_WARNING", pos 4)
    ∷ ("LOG_NOTICE", pos 5)
    ∷ ("LOG_INFO", pos 6)
    ∷ ("LOG_DEBUG", pos 7)
    ∷ ("LOG_AUTH", pos 32)
    ∷ ("LOG_DAEMON", pos 24)
    ∷ ("LOG_USER", pos 8)
    ∷ ("LOG_LOCAL0", pos 128)
    ∷ ("LOG_LOCAL1", pos 136)
    ∷ ("LOG_LOCAL2", pos 144)
    ∷ ("LOG_LOCAL3", pos 152)
    ∷ ("LOG_LOCAL4", pos 160)
    ∷ ("LOG_LOCAL5", pos 168)
    ∷ ("LOG_LOCAL6", pos 176)
    ∷ ("LOG_LOCAL7", pos 184)
    ∷ [])

abbrev pub logtype_syslog : ℤ
logtype_syslog = pos 0

abbrev pub logtype_file : ℤ
logtype_file = pos 1

-- A target whose file cannot be opened becomes one of syslog.
unfoldable pub logstart_file : (String → Bool) → Logging → Outcome (Logging × ℤ)
logstart_file fopens log = do
  filename ← valid log.filename
  if fopens filename
      then done (log, pos 0)
      else done (record log { logtype = logtype_syslog }, negsuc 0)

unfoldable pub logstart : (String → Bool) → Logging → Outcome (Logging × ℤ)
logstart fopens log =
    if eq_ℤ log.logtype logtype_syslog
    then done (log, pos 0)
    else if eq_ℤ log.logtype logtype_file
    then logstart_file fopens log
    else done (log, negsuc 0)

-- The loop ends at the first target that does not start.
unfoldable pub openlogs : (String → Bool) → List Logging → Outcome (List Logging × ℤ)
openlogs fopens [] = done ([], pos 0)
openlogs fopens (log ∷ logs) = logstart fopens log >>= λ r.
    let rest = openlogs fopens logs in
    if eq_ℤ r.1 (negsuc 0)
    then done (r.0 ∷ logs, negsuc 0)
    else (rest >>= λ s. done (r.0 ∷ s.0, s.1))
