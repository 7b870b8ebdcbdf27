-- ===== src/Parse/Finish.antt =====
-- parseconf.c: the end of qaoed_loadconfig, once the sections are read: default values, sockets,
-- validation and the logging target.
use qaoed.Base.{
  ℤ, negsuc, eq_ℤ, String, List, [], ◌∷◌, Option, none, some, Bool, Outcome, done, ◌>>=◌,
  if◌then◌else◌,
}
use qaoed.Conf.{AoeDev, QConfig}
use qaoed.Api.Add.{referencelog}
use qaoed.Config.{NetSystem, defaultconfig, openinterfaces, validateconfig}

-- `conf->log = referencelog("default", conf)` for a configuration that is valid.
unfoldable pub accept : QConfig → ℤ → Option QConfig
accept conf ret =
    if eq_ℤ ret (negsuc 0)
    then none
    else some (record conf { log = referencelog "default" conf.loglist })

-- NULL, or the configuration that the daemon runs with.
unfoldable pub open_and_check : NetSystem → (String → Bool) → QConfig → Outcome (Option QConfig)
open_and_check sys stat conf =
    let (conf', ret) = openinterfaces sys conf in
    if eq_ℤ ret (negsuc 0)
    then done none
    else (validateconfig stat conf' >>= λ r. done (accept conf' r))

unfoldable pub finish_devices :
    NetSystem → (String → Bool) → List AoeDev → QConfig → Outcome (Option QConfig)
finish_devices sys stat [] conf = done none
finish_devices sys stat (d ∷ ds) conf = open_and_check sys stat (defaultconfig conf)

unfoldable pub finish : NetSystem → (String → Bool) → QConfig → Outcome (Option QConfig)
finish sys stat conf = finish_devices sys stat conf.devices conf
