-- ===== src/Tests/Startup.antt =====
-- A configuration file, and the configuration that is read from one.
use qaoed.Base.{
  ◌+ℤ◌, zero, suc, ◌≡◌, ◌≢◌, ◌↔◌, inl, inr, refl, sym, ap, ◌∙◌, arith, pos, String, str_eq,
  str_eq_iff, List, [], ◌∷◌, none, some, Bool, true, false, done, if◌then◌else◌,
}
use qaoed.Acl.{AclHdr, acl_accept, aclmatch}
use qaoed.Conf.{Logging, QConfig}
use qaoed.Rcfg.{Cfg, null, assignment, block, first, processtokens, tokens_of}
use qaoed.Rcfg.Check.{
  Scanner, validatetokens, and_then, countbraces, count_token, checktokenlist, check_words,
  is_keyword, checkdatatype, check_types, check_entries, check_entry, check_block, check_assignment,
  scan_value, checkargs, check_arglist, check_arg,
}
use qaoed.Rcfg.Check.Shape.{Shaped, Allowed, validatetokens-Shaped}
use qaoed.Rcfg.RoundTrip.{processtokens-tokens_of}
use qaoed.Rcfg.Returns.{EqualsInside, processtokens-Returns}
use qaoed.Config.{
  NetSystem, validateconfig, openinterfaces, open_interfaces, open_all, open_interface, opensock,
  getifhwaddr, fit_mtu, defaultconfig, default_all, any_bad, bad_acl, bad_log, is_broken,
  bad_interface, bad_file, unattached, unaddressed, any_clash, clashes_from, unless,
}
use qaoed.Api.Add.{devdefaults, take_defaults, referencelog, find_log, conflicts}
use qaoed.Config.Valid.{IsSound, validateconfig-IsSound}
use qaoed.Config.Interfaces.{AllOpen}
use qaoed.Parse.{Logs}
use qaoed.Parse.Acl.{
  AclLibrary, AclSection, acl_statements, acl_statement, acl_row, aclmac, aclpolicy,
}
use qaoed.Parse.Policy.{IsStrcmp, GrantsNothing, acl_statements_deny}
use qaoed.Parse.Finish.{finish, finish_devices, open_and_check, accept}
use qaoed.Parse.Accepted.{finish-IsSound}
use qaoed.Tests.Setting.{mac, refuse_all, eth0, disk0}
use qaoed.Tests.Control.{conf}

abbrev tree : Cfg
tree =
    block "device" (assignment "slot" "3" (assignment "target" "/dev/sda" null))
      (assignment "apisocket" "/tmp/qaoed" null)

processtokens-tokens_of_example :
    processtokens (tokens_of tree) "qaoed.conf" ≡ done (block "qaoed.conf" tree null)
unfolding first
processtokens-tokens_of_example = processtokens-tokens_of tree "qaoed.conf" (omega arith)

-- `sscanf` finds one value in every token, and every argument is allowed.
abbrev scan : Scanner
scan value format = (pos 1, 4)

abbrev allow : String → String → Bool
allow arguments value = true

validatetokens_example :
    (count_token "{" (tokens_of tree) ≡ count_token "}" (tokens_of tree))
    × Shaped false (tokens_of tree)
    × Allowed allow (tokens_of tree)
unfolding validatetokens and_then countbraces count_token checktokenlist check_words is_keyword
    checkdatatype check_types check_entries check_entry check_block check_assignment scan_value
    checkargs check_arglist check_arg first tokens_of
validatetokens_example = validatetokens-Shaped scan allow (tokens_of tree) refl

-- Tokens that no tree is written with.
abbrev garbage : List String
garbage = "}" ∷ "=" ∷ "{" ∷ []

garbage-EqualsInside : EqualsInside garbage
unfolding first
garbage-EqualsInside zero t e h =
    let same : t ≡ "}" = cc e in absurd (omega (arith, ap first (sym same) ∙ h))
garbage-EqualsInside (suc zero) t e h = omega arith
garbage-EqualsInside (suc (suc zero)) t e h =
    let same : t ≡ "{" = cc e in absurd (omega (arith, ap first (sym same) ∙ h))
garbage-EqualsInside (suc (suc (suc i))) t e h = absurd (cc e)

processtokens-Returns_example :
    (c : Cfg) × (processtokens garbage "qaoed.conf" ≡ done (block "qaoed.conf" c null))
processtokens-Returns_example = processtokens-Returns garbage "qaoed.conf" garbage-EqualsInside

abbrev syslog : Logging
syslog = record {
  name = "default";
  log_level = pos 0;
  logtype = pos 0;
  syslog_facility = pos 24;
  syslog_level = pos 6;
  filename = none;
}

abbrev read : QConfig
read = record conf {
  loglist = syslog ∷ [];
  intlist = record eth0 { log = some 0; mtu = pos 0 } ∷ [];
}

abbrev is_there : String → Bool
is_there name = true

validateconfig_example : (validateconfig is_there read ≡ done (pos 0)) ↔ IsSound is_there read
validateconfig_example = validateconfig-IsSound is_there read

abbrev sys : NetSystem
sys = record { connects = λ name. true; hwaddr = λ name. some (mac 9); mtu = λ name. pos 9000 }

-- What is accepted: the interface has the MTU of the system, and the device its default values.
abbrev accepted : QConfig
accepted = record read {
  log = some 0;
  intlist =
      record eth0 { log = some 0; mtu = pos 9000; buffsize = pos 9014; hwaddr = some (mac 9) } ∷ [];
  devices = record disk0 { log = some 0 } ∷ [];
}

finish-IsSound_example : IsSound is_there accepted × AllOpen sys read.intlist accepted.intlist
unfolding finish finish_devices open_and_check accept openinterfaces open_interfaces open_all
    open_interface opensock getifhwaddr fit_mtu defaultconfig default_all devdefaults take_defaults
    referencelog find_log validateconfig any_bad bad_acl bad_log is_broken bad_interface bad_file
    unattached unaddressed any_clash clashes_from conflicts unless ◌+ℤ◌
finish-IsSound_example = finish-IsSound sys is_there read accepted refl

-- A `strcmp` that tells equal texts, and an address that is read whatever is written.
abbrev lib : AclLibrary
lib = record {
  strcmp = λ a b. if str_eq a b then pos 0 else pos 1;
  scan_mac = λ s. mac 7;
  memory = none;
}

lib-IsStrcmp : IsStrcmp lib
lib-IsStrcmp a b = ground (arith, str_eq_iff a b)

abbrev reject_section : Cfg
reject_section = assignment "reject" "0:1:2:3:4:7" (assignment "policy" "reject" null)

abbrev empty_section : AclSection
empty_section = record { name = none; aclnum = 1; defaultpolicy = 255; acl = []; log = none }

abbrev full_section : AclSection
full_section = record empty_section { acl = record { rule = 255; h_dest = mac 7; mask = 48 } ∷ [] }

abbrev logs : Logs
logs = record { loglist = syslog ∷ []; strays = [] }

abbrev rejecting : AclHdr
rejecting = record refuse_all { acl = full_section.acl; defaultpolicy = 255 }

apart : (a b : String) → str_eq a b ≡ false → a ≢ b
apart a b h e = ground (arith, str_eq_iff a b)

grants_nothing : GrantsNothing reject_section
grants_nothing = (
  apart "reject" "accept" refl,
  inl (apart "reject" "policy" refl),
  (apart "policy" "accept" refl, inr (apart "reject" "accept" refl), tt),
)

acl_statements_deny_example : aclmatch rejecting (mac 7) ≢ acl_accept
unfolding acl_statements acl_statement acl_row aclmac aclpolicy first
acl_statements_deny_example =
    acl_statements_deny lib reject_section empty_section full_section logs logs rejecting (mac 7)
      lib-IsStrcmp grants_nothing (omega arith) refl refl refl
