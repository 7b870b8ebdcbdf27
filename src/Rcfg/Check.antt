-- ===== src/Rcfg/Check.antt =====
-- rcfg/readconf.c: the checks of a token array before it is parsed (countbraces, checktokenlist,
-- checkdatatype, checkargs, validatetokens), with the tables of rcfg/rcfgkw.h. `sscanf` and `strstr`
-- are arguments. The walk over the array is a recursion on the tokens that are left.
pub mod Shape
use qaoed.Base.{
  ℕ, ◌+◌, ℤ, pos, eq_ℤ, String, str_eq, List, [], ◌∷◌, Bool, true, false, not, ◌&&◌, ◌||◌, Outcome,
  done, fault, valid, ◌>>=◌, ◌==◌, ltb, if◌then◌else◌, get_elem?,
}
use qaoed.Rcfg.{first}

-- A check returns 0 or -1, or ends the program.
pub data Verdict : Type 0 where
  accepted rejected exited : Verdict

-- The next check is made if the one before it accepts.
unfoldable pub and_then : Outcome Verdict → Outcome Verdict → Outcome Verdict
and_then m next =
    m >>= λ v. elim v [ accepted ↦ next | rejected ↦ done rejected | exited ↦ done exited ]

abbrev pub keywords : List String
keywords =
    "device" ∷ "default" ∷ "acl" ∷ "slot" ∷ "shelf" ∷ "interface" ∷ "target" ∷ "filename"
    ∷ "access-list" ∷ "name" ∷ "policy" ∷ "accept" ∷ "reject" ∷ "writecache" ∷ "broadcast"
    ∷ "log-level" ∷ "syslog-level" ∷ "syslog-facility" ∷ "persistent-cfg" ∷ "write" ∷ "read"
    ∷ "cfgset" ∷ "cfgread" ∷ "discover" ∷ "logging" ∷ "log" ∷ "type" ∷ "mtu" ∷ "log" ∷ "if" ∷ "="
    ∷ "{" ∷ "}" ∷ ";" ∷ "include" ∷ "apisocket" ∷ []

-- Each keyword with "b" for a block, or the format of its value.
abbrev pub datatype : List (String × String)
datatype =
    ("default", "b")
    ∷ ("access-list", "b")
    ∷ ("device", "b")
    ∷ ("acl", "b")
    ∷ ("logging", "b")
    ∷ ("writecache", "%s;")
    ∷ ("slot", "%d;")
    ∷ ("shelf", "%d;")
    ∷ ("mtu", "%s;")
    ∷ ("target", "%s;")
    ∷ ("cfgread", "%s;")
    ∷ ("read", "%s;")
    ∷ ("type", "%s;")
    ∷ ("if", "%s;")
    ∷ ("log", "%s;")
    ∷ ("write", "%s;")
    ∷ ("filename", "%s;")
    ∷ ("discover", "%s;")
    ∷ ("cfgset", "%s;")
    ∷ ("writecache", "%s;")
    ∷ ("log-level", "%s;")
    ∷ ("syslog-level", "%s;")
    ∷ ("syslog-facility", "%s;")
    ∷ ("persistent-cfg", "%s;")
    ∷ ("broadcast", "%s;")
    ∷ ("apisocket", "%s;")
    ∷ ("include", "%s;")
    ∷ []

abbrev pub arglist : List (String × String)
arglist =
    ("writecache", "on|off")
    ∷ ("type", "syslog|file")
    ∷ ("broadcast", "on|off")
    ∷ ("policy", "accept|reject")
    ∷ ("log-level", "debug|error|info|none")
    ∷ (
      "syslog-level",
      "LOG_EMERG|LOG_ALERT|LOG_CRIT|LOG_ERR|LOG_WARNING|LOG_NOTICE|LOG_INFO|LOG_DEBUG",
    )
    ∷ (
      "syslog-facility",
      "LOG_DAEMON|LOG_LOCAL0|LOG_LOCAL1|LOG_LOCAL2|LOG_LOCAL3|LOG_LOCAL4|LOG_LOCAL5|LOG_LOCAL6|LOG_LOCAL7|LOG_USER",
    )
    ∷ []

-- The loop of `countbraces`: how many tokens are the given text.
unfoldable pub count_token : String → List String → ℕ
count_token s [] = 0
count_token s (t ∷ ts) = (if str_eq t s then 1 else 0) + count_token s ts

unfoldable pub countbraces : List String → Outcome Verdict
countbraces tokens =
    let right = count_token "{" tokens in
    let left = count_token "}" tokens in
    if ltb left right || ltb right left then done rejected else done accepted

unfoldable pub is_keyword : String → List String → Bool
is_keyword t [] = false
is_keyword t (k ∷ ks) = if str_eq t k then true else is_keyword t ks

-- The loop of `checktokenlist`; the Boolean says whether the token before is an `=`.
unfoldable pub check_words : Bool → List String → Outcome Verdict
check_words after_equals [] = done accepted
check_words after_equals (t ∷ ts) =
    let rest = check_words (first t == b'=') ts in
    if is_keyword t keywords || after_equals then rest else done rejected

unfoldable pub checktokenlist : List String → Outcome Verdict
checktokenlist tokens = check_words false tokens

-- What `sscanf(token, format, junkbuff)` returns, and how many bytes it stores.
abbrev pub Scanner : Type 0
Scanner = String → String → ℤ × ℕ

abbrev pub junk_size : ℕ
junk_size = 200

abbrev pub pass_if : Bool → Outcome Verdict
pass_if b = if b then done accepted else done exited

-- A store past the end of `junkbuff` is a fault.
unfoldable pub scan_value : Scanner → String → String → Outcome Verdict
scan_value sscanf format value =
    let (count, stored) = sscanf value format in
    if ltb junk_size stored then fault else pass_if (not (eq_ℤ count (pos 0)))

-- The tokens after a keyword that begins a block.
unfoldable pub check_block : List String → Outcome Verdict
check_block ts = do t ← valid (get_elem? ts 0); pass_if (first t == b'{')

-- The tokens after a keyword that is assigned to.
unfoldable pub check_assignment : Scanner → String → List String → Outcome Verdict
check_assignment sscanf format [] = done exited
check_assignment sscanf format (e ∷ []) = done exited
check_assignment sscanf format (e ∷ value ∷ []) =
    and_then (pass_if (first e == b'=')) (and_then (scan_value sscanf format value) (done exited))
check_assignment sscanf format (e ∷ value ∷ end ∷ ts) =
    and_then (pass_if (first e == b'='))
      (and_then (scan_value sscanf format value) (pass_if (first end == b';')))

-- One entry of the table, at a token and those after it.
unfoldable pub check_entry : Scanner → String → List String → String × String → Outcome Verdict
check_entry sscanf t ts (keyword, format) =
    if str_eq t keyword
    then and_then (if first format == b'b' then check_block ts else done accepted) (
        if (first format == b'"') || (first format == b'%')
        then check_assignment sscanf format ts
        else done accepted)
    else done accepted

unfoldable pub check_entries :
    Scanner → String → List String → List (String × String) → Outcome Verdict
check_entries sscanf t ts [] = done accepted
check_entries sscanf t ts (entry ∷ entries) =
    and_then (check_entry sscanf t ts entry) (check_entries sscanf t ts entries)

-- The loop of `checkdatatype`; the token after an `=` that was looked at is skipped.
unfoldable pub check_types : Scanner → Bool → List String → Outcome Verdict
check_types sscanf skip [] = done accepted
check_types sscanf skip (t ∷ ts) =
    let rest = check_types sscanf (not skip && (first t == b'=')) ts in
    if skip then rest else and_then (check_entries sscanf t ts datatype) rest

unfoldable pub checkdatatype : Scanner → List String → Outcome Verdict
checkdatatype sscanf tokens = check_types sscanf false tokens

-- One entry of the list of arguments: the value is two tokens after the keyword.
unfoldable pub check_arg :
    (String → String → Bool) → String → List String → String × String → Outcome Verdict
check_arg strstr t ts (keyword, allowed) =
    if str_eq t keyword
    then (valid (get_elem? ts 1) >>= λ value.
        if strstr allowed value then done accepted else done rejected)
    else done accepted

unfoldable pub check_arglist :
    (String → String → Bool) → String → List String → List (String × String) → Outcome Verdict
check_arglist strstr t ts [] = done accepted
check_arglist strstr t ts (entry ∷ entries) =
    and_then (check_arg strstr t ts entry) (check_arglist strstr t ts entries)

unfoldable pub checkargs : (String → String → Bool) → List String → Outcome Verdict
checkargs strstr [] = done accepted
checkargs strstr (t ∷ ts) = and_then (check_arglist strstr t ts arglist) (checkargs strstr ts)

unfoldable pub validatetokens : Scanner → (String → String → Bool) → List String → Outcome Verdict
validatetokens sscanf strstr tokens = and_then (countbraces tokens) (
    and_then (checktokenlist tokens)
      (and_then (checkdatatype sscanf tokens) (checkargs strstr tokens)))
