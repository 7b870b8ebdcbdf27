-- ===== src/Load/Sound.antt =====
-- A configuration that is loaded from a file is sound.
use qaoed.Base.{
  ℕ, ℤ, negsuc, eq_ℤ, ◌≡◌, ◌≢◌, String, List, [], Option, none, some, Bool, Outcome, done, valid,
  ◌>>=◌, get_elem?,
}
use qaoed.Base.Ensures.{Ensures, done-Ensures, bind-Ensures, if-Ensures}
use qaoed.Conf.{Logging, Ifst, QConfig}
use qaoed.Acl.{AclHdr}
use qaoed.Rcfg.{Cfg, null, assignment, block}
use qaoed.Rcfg.Readconfig.{Reading, config, no_config, program_ended, readconfig}
use qaoed.Log.{openlogs}
use qaoed.Parse.{Logs}
use qaoed.Parse.Global.{readglobal}
use qaoed.Parse.LogTargets.{Tail, past, LogChain}
use qaoed.Parse.Interfaces.{IntStore}
use qaoed.Parse.Acl.{Acls}
use qaoed.Parse.Finish.{finish}
use qaoed.Parse.Accepted.{finish-IsSound}
use qaoed.Config.Valid.{IsSound}
use qaoed.Load.{
  Loader, Loaded, loaded, null_config, program_exits, incomplete, complete, complete_log,
  complete_acl, complete_ints, to_loaded, load_devices, load_acls, load_found, load_interfaces,
  load_opened, load_chain, load_logs, load_tree, load_reading, loadconfig,
}

-- The results of a load that are no configuration, and sound configurations.
abbrev pub Sound : (String → Bool) → Loaded → Type 0
Sound stat (loaded conf) = IsSound stat conf × (conf.intlist ≢ [])
Sound stat null_config = Unit
Sound stat program_exits = Unit
Sound stat incomplete = Unit

-- A computation whose results are all of that kind.
abbrev AllSound : Loader → Outcome Loaded → Type 0
AllSound l m = Ensures (Sound l.stat) m

to_loaded-Sound :
    (l : Loader) (conf : QConfig) (r : Option QConfig)
    → finish l.sys l.stat conf ≡ done r
    → Sound l.stat (to_loaded r)
to_loaded-Sound l conf none h = tt
to_loaded-Sound l conf (some conf') h =
    let r = finish-IsSound l.sys l.stat conf conf' h in (r.0, (r.1).0)

finish-AllSound :
    (l : Loader) (conf : QConfig)
    → AllSound l (finish l.sys l.stat conf >>= λ r. done (to_loaded r))
finish-AllSound l conf =
    bind-Ensures (Sound l.stat) (finish l.sys l.stat conf) _
      λ r e. done-Ensures (Sound l.stat) (to_loaded r) (to_loaded-Sound l conf r e)

module _ (l : Loader) (c : Cfg) where
  load_devices-AllSound :
      (conf : QConfig) (is : List Ifst) (acls : List AclHdr) (logs : Logs)
      → AllSound l (load_devices l c conf is acls logs)
  unfolding load_devices
  load_devices-AllSound conf is acls logs = finish-AllSound l _

  load_acls-AllSound :
      (conf : QConfig) (is : List Ifst) (logs : Logs) → AllSound l (load_acls l c conf is logs)
  unfolding load_acls
  load_acls-AllSound conf is logs = bind-Ensures {A = Acls} (Sound l.stat) _ _ (λ r e.
      elim (complete (complete_acl l.refcnt) r.acllist)
        as (λ x. AllSound l (elim x [
          | none ↦ done incomplete
          | some acls ↦ load_devices l c (record conf { aclnumplan = r.aclnumplan }) is acls r.logs
        ])) [
          | none ↦ done-Ensures (Sound l.stat) incomplete tt
          | some acls ↦ load_devices-AllSound _ is acls r.logs
        ])

  load_found-AllSound : (conf : QConfig) (st : IntStore) → AllSound l (load_found l c conf st)
  unfolding load_found
  load_found-AllSound conf st =
      elim st.iflist
        as (λ x. AllSound l (elim x [
          | none ↦ done null_config
          | some n ↦ valid (get_elem? st.chains n) >>= λ chain. elim (complete_ints chain) [
            | none ↦ done incomplete
            | some is ↦ load_acls l c conf is st.logs
          ]
        ])) [
          | none ↦ done-Ensures (Sound l.stat) null_config tt
          | some n ↦ bind-Ensures (Sound l.stat) _ _ (λ chain e.
              elim (complete_ints chain)
                as (λ x.
                  AllSound l
                    (elim x [ none ↦ done incomplete | some is ↦ load_acls l c conf is st.logs ])) [
                      | none ↦ done-Ensures (Sound l.stat) incomplete tt
                      | some is ↦ load_acls-AllSound conf is st.logs
                    ])
        ]

  load_interfaces-AllSound : (conf : QConfig) → AllSound l (load_interfaces l c conf)
  unfolding load_interfaces
  load_interfaces-AllSound conf =
      bind-Ensures (Sound l.stat) _ _ (λ st e. load_found-AllSound conf st)

  load_opened-AllSound :
      (conf : QConfig) (tail : Tail) (r : List Logging × ℤ)
      → AllSound l (load_opened l c conf tail r)
  unfolding load_opened
  load_opened-AllSound conf tail (logs, ret) =
      if-Ensures (Sound l.stat) (eq_ℤ ret (negsuc 0)) _ _
        (done-Ensures (Sound l.stat) null_config tt)
        (bind-Ensures (Sound l.stat) (past tail logs) _ (λ logs' e. load_interfaces-AllSound _))

  load_chain-AllSound : (conf : QConfig) (chain : LogChain) → AllSound l (load_chain l c conf chain)
  unfolding load_chain
  load_chain-AllSound conf chain =
      elim (complete complete_log chain.logs)
        as (λ x. AllSound l (elim x [
          | none ↦ done incomplete
          | some logs ↦ openlogs l.fopens logs >>= load_opened l c conf chain.tail
        ])) [
          | none ↦ done-Ensures (Sound l.stat) incomplete tt
          | some logs ↦
              bind-Ensures (Sound l.stat) _ _ (λ r e. load_opened-AllSound conf chain.tail r)
        ]

  load_tree-AllSound : AllSound l (load_tree l c)
  unfolding load_tree load_logs
  load_tree-AllSound =
      elim (readglobal l.same_text none l.fresh c)
        as (λ x. AllSound l (elim x [ none ↦ done null_config | some conf ↦ load_logs l c conf ])) [
          | none ↦ done-Ensures (Sound l.stat) null_config tt
          | some conf ↦ bind-Ensures (Sound l.stat) _ _ (λ chain e. load_chain-AllSound conf chain)
        ]

load_reading-AllSound : (l : Loader) (r : Reading) → AllSound l (load_reading l r)
unfolding load_reading
load_reading-AllSound l no_config = done-Ensures (Sound l.stat) null_config tt
load_reading-AllSound l program_ended = done-Ensures (Sound l.stat) program_exits tt
load_reading-AllSound l (config null) = done-Ensures (Sound l.stat) null_config tt
load_reading-AllSound l (config (assignment lvalue rvalue next)) =
    done-Ensures (Sound l.stat) null_config tt
load_reading-AllSound l (config (block filename null next)) =
    done-Ensures (Sound l.stat) null_config tt
load_reading-AllSound l (config (block filename (assignment lvalue rvalue rest) next)) =
    load_tree-AllSound l _
load_reading-AllSound l (config (block filename (block lvalue inner rest) next)) =
    load_tree-AllSound l _

pub loadconfig-IsSound :
    (l : Loader) (fuel : ℕ) (filename : String) (conf : QConfig)
    → loadconfig l fuel filename ≡ done (loaded conf)
    → IsSound l.stat conf × (conf.intlist ≢ [])
unfolding loadconfig
loadconfig-IsSound l fuel filename conf h =
    bind-Ensures (Sound l.stat) (readconfig l.checks l.files fuel filename) (load_reading l)
      (λ r e. load_reading-AllSound l r) (loaded conf) h
