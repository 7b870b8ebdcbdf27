-- ===== src/Tests/Loading.antt =====
-- The load of a configuration file.
use qaoed.Base.{
  ℕ, ◌≡◌, refl, pos, String, str_eq, List, [], ◌∷◌, Option, none, some, true, false, done,
  if◌then◌else◌,
}
use qaoed.Conf.{QConfig}
use qaoed.Rcfg.{
  Cfg, null, assignment, block, find_end, first, parse_assignment, parse_at, parse_block,
  parse_from, processtokens, recursiveparse,
}
use qaoed.Parse.LogTargets.{
  LogSection, find_logging, create_log, create_logs, createdefaultlog, ensure_default, has_name,
  log_statement, log_statements, parse_log, to_end,
}
use qaoed.Parse.Interfaces.{
  add_reference, attach, find_interfaces, has_ifname, int_references, int_sections, new_reference,
}
use qaoed.Parse.Acl.{find_acl}
use qaoed.Parse.Dev.{
  blank_device, default_options, default_sections, dev_statement, dev_statements, find_dev,
  find_dflt, parse_dev,
}
use qaoed.Config.{
  any_bad, any_clash, bad_acl, bad_file, bad_interface, bad_log, clashes_from, default_all,
  defaultconfig, fit_mtu, getifhwaddr, is_broken, open_all, open_interface, open_interfaces,
  openinterfaces, opensock, unaddressed, unattached, unless, validateconfig,
}
use qaoed.Rcfg.Tokens.Include.{finish_tokens, include_all, include_at, include_checked, tokenize}
use qaoed.Rcfg.Readconfig.{readconfig, to_config}
use qaoed.Load.{
  Loader, loaded, loadconfig, complete, load_acls, load_chain, load_devices, load_found,
  load_interfaces, load_logs, load_opened, load_reading, load_tree,
}
use qaoed.Parse.Finish.{accept, finish, finish_devices, open_and_check}
use qaoed.Rcfg.Tokens.{
  add_token, after_comment, extract, go_on, round, scan_line, scan_lines, scan_rounds, size,
  skip_blanks, skip_comment, strip, take_first, walk, without_first,
}
use qaoed.Rcfg.Check.{
  and_then, check_arg, check_arglist, check_assignment, check_block, check_entries, check_entry,
  check_types, check_words, checkargs, checkdatatype, checktokenlist, count_token, countbraces,
  is_keyword, scan_value, validatetokens,
}
use qaoed.Parse.Global.{blank_config, global_statement, global_statements, readglobal}
use qaoed.Api.Add.{devdefaults, find_log, referencelog, take_defaults}
use qaoed.Api.{find_int, referenceint}
use qaoed.Parse.{find_sections}
use qaoed.Log.{logstart, openlogs}
use qaoed.Tests.Setting.{eth0, disk0}
use qaoed.Tests.Control.{conf}
use qaoed.Tests.Text.{checks}

-- One disk on one interface, and no logging section.
abbrev pub plain : List String
plain =
    "device {\n" ∷ "shelf = 1; slot = 2;\n" ∷ "target = /dev/sda; interface = eth0;\n" ∷ "}\n" ∷ []

abbrev digit : String → Option ℕ
digit s = if str_eq s "1" then some 1 else if str_eq s "2" then some 2 else none

abbrev pub loader_of : List String → Loader
loader_of text = record {
  checks = checks;
  files = record { glob = λ name. none; fopen = λ name. some text };
  same_text = λ a b. str_eq a b;
  logs = record { log_level = pos 0; next_null = true };
  fopens = λ name. true;
  interfaces = record {
    sscanf_int = λ s. none;
    same_text = λ a b. str_eq a b;
    memory = none;
    fresh = eth0;
    next_null = true;
    log_level = pos 0;
  };
  acls = record {
    strcmp = λ a b. if str_eq a b then pos 0 else pos 1;
    scan_mac = λ s. [];
    memory = none;
  };
  refcnt = pos 0;
  devices = record {
    atoi = λ s. elim (digit s) [ none ↦ pos 0 | some n ↦ pos n ];
    same_text = λ a b. str_eq a b;
    memory = none;
    fresh = disk0;
  };
  sys = record { connects = λ name. true; hwaddr = λ name. none; mtu = λ name. pos 1500 };
  stat = λ name. true;
  fresh = conf;
}

abbrev pub conf_read : QConfig
conf_read = record conf {
  log = some 0;
  log_level = pos 0;
  intlist = record eth0 { buffsize = pos 1518; log = some 0 } ∷ [];
  devdefault = none;
  devices =
      record disk0 {
        fp = false;
        racl = none;
        wacl = none;
        cfgsetacl = none;
        cfgracl = none;
        log = some 0;
      }
      ∷ [];
  acllist = [];
  loglist =
      record {
        name = "default";
        log_level = pos 0;
        logtype = pos 0;
        syslog_facility = pos 24;
        syslog_level = pos 6;
        filename = none;
      }
      ∷ [];
  aclnumplan = 1;
}

pub plain_loaded : loadconfig (loader_of plain) 1 "qaoed.conf" ≡ done (loaded conf_read)
unfolding loadconfig readconfig to_config tokenize finish_tokens include_checked include_all
    include_at scan_lines scan_line scan_rounds go_on round skip_comment extract add_token strip
    take_first size walk after_comment without_first skip_blanks first validatetokens and_then
    countbraces count_token checktokenlist check_words is_keyword checkdatatype check_types
    check_entries check_entry check_block check_assignment scan_value checkargs check_arglist
    check_arg processtokens recursiveparse parse_from parse_at parse_block parse_assignment find_end
    find_sections find_logging parse_log to_end log_statements log_statement load_reading load_tree
    load_logs load_chain load_opened load_interfaces load_found load_acls load_devices complete
    readglobal blank_config global_statements global_statement create_log create_logs
    createdefaultlog ensure_default has_name openlogs logstart find_interfaces int_sections
    int_references add_reference new_reference attach has_ifname find_log referencelog find_acl
    find_dflt default_sections default_options find_dev parse_dev dev_statements dev_statement
    blank_device find_int referenceint finish finish_devices open_and_check accept defaultconfig
    default_all devdefaults take_defaults openinterfaces open_interfaces open_all open_interface
    opensock getifhwaddr fit_mtu validateconfig unless any_bad bad_acl bad_interface bad_log
    is_broken bad_file unattached unaddressed any_clash clashes_from
plain_loaded = refl

-- A logging section, whose target is not the default one.
abbrev logged : List String
logged = "logging {\n" ∷ "name = disks; type = syslog;\n" ∷ "}\n" ∷ plain

abbrev logging_section : Cfg
logging_section = assignment "name" "disks" (assignment "type" "syslog" null)

abbrev device_section : Cfg
device_section =
    assignment "shelf" "1"
      (assignment "slot" "2" (assignment "target" "/dev/sda" (assignment "interface" "eth0" null)))

abbrev logged_tree : Cfg
logged_tree = block "logging" logging_section (block "device" device_section null)

abbrev disks_log : LogSection
disks_log = record {
  name = some "disks";
  log_level = pos 0;
  logtype = pos 0;
  syslog_facility = pos 24;
  syslog_level = pos 6;
  filename = none;
}
