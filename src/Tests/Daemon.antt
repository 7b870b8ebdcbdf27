-- ===== src/Tests/Daemon.antt =====
-- The daemon and its signals.
use qaoed.Base.{◌+ℤ◌, ◌≡◌, ◌⊎◌, ◌∙◌, refl, ap, pos, List, [], ◌∷◌, some, true, false, done, ◌>>=◌}
use qaoed.Conf.{AoeDev, QConfig}
use qaoed.Rcfg.Readconfig.{readconfig, to_config}
use qaoed.Rcfg.Tokens.Include.{tokenize, finish_tokens}
use qaoed.Rcfg.Tokens.{scan_lines}
use qaoed.Start.{
  add_refs, intrefup, startworker, start_found, start_open, start_named, startdevice, start_all,
  start_devices, devices, startlistener, network,
}
use qaoed.Load.{null_config, loadconfig, load_reading}
use qaoed.Main.{
  initial_options, parse_options, alive, count_listeners, count_workers, startup, cancel_listeners,
  cancel_workers, join_again, shutdown, destroyqcfg, Daemon, Hup, replace, reload, sighuphandler,
  signals, signal, and_lives,
}
use qaoed.Main.Reload.{
  StaysDeaf, Switched, History, sighuphandler-Outcomes, signals_ignored, signals-History,
}
use qaoed.Tests.Setting.{eth0}
use qaoed.Tests.Sessions.{system}
use qaoed.Tests.Loading.{loader_of, plain, conf_read, plain_loaded}

-- The configuration of the file once it runs.
abbrev run_device : AoeDev → AoeDev
run_device d = record d { fp = true; size = 8 }

abbrev running_conf : QConfig
running_conf = record conf_read {
  intlist = record eth0 { buffsize = pos 1518; log = some 0; refcnt = pos 1 } ∷ [];
  devices = running conf_read.devices;
}
  where
    running : List AoeDev → List AoeDev
    running [] = []
    running (d ∷ ds) = run_device d ∷ running ds

abbrev daemon : Daemon
daemon = record {
  curcfg = running_conf;
  threads = record { listeners = 1; workers = 1 };
  hears = true;
}

abbrev hup : Hup
hup = record {
  loader = loader_of plain;
  depth = 1;
  sys = system;
  stop = record { cancels = λ i. true; rejoins = true };
  again = system;
}

reloaded : sighuphandler hup "qaoed.conf" daemon ≡ done (alive daemon)
unfolding sighuphandler reload replace shutdown cancel_listeners cancel_workers join_again startup
    count_workers count_listeners devices start_devices start_all startdevice start_named start_open
    start_found startworker intrefup add_refs network startlistener destroyqcfg ◌+ℤ◌
reloaded = ap (λ m. m >>= reload hup daemon) plain_loaded

sighuphandler-Outcomes_example :
    StaysDeaf hup "qaoed.conf" daemon daemon ⊎ Switched hup "qaoed.conf" daemon daemon
sighuphandler-Outcomes_example = sighuphandler-Outcomes hup "qaoed.conf" daemon daemon reloaded

-- The file is empty at the first signal, and whole again at the second.
abbrev emptied : Hup
emptied = record hup { loader = loader_of [] }

emptied_load : loadconfig emptied.loader 1 "qaoed.conf" ≡ done null_config
unfolding loadconfig load_reading readconfig to_config tokenize finish_tokens scan_lines
emptied_load = refl

-- The first signal is heard, the second finds the file empty, the third is ignored.
three_signals :
    signals (hup ∷ emptied ∷ hup ∷ []) "qaoed.conf" daemon
    ≡ done (alive (record daemon { hears = false }))
unfolding signals signal
three_signals =
    ap (λ m. and_lives m (signals (emptied ∷ hup ∷ []) "qaoed.conf")) reloaded
    ∙ signals_ignored emptied (hup ∷ []) "qaoed.conf" daemon refl emptied_load

signals-History_example :
    History (hup ∷ emptied ∷ hup ∷ []) "qaoed.conf" daemon (record daemon { hears = false })
signals-History_example =
    signals-History (hup ∷ emptied ∷ hup ∷ []) "qaoed.conf" daemon (record daemon { hears = false })
      refl three_signals

options_read :
    parse_options ((b'f', "") ∷ (b'c', "/tmp/qaoed.conf") ∷ []) initial_options
    ≡ some (record { background = false; cfgfile = "/tmp/qaoed.conf" })
unfolding parse_options
options_read = refl
