-- ===== src/Main/Reload.antt =====
-- What a SIGHUP can come to.
use qaoed.Base.{
  ℕ, zero, suc, ◌<◌, ℤ, pos, negsuc, eq_ℤ, ◌≡◌, ◌≢◌, ◌⊎◌, inl, inr, refl, sym, ap, subst, ◌∙◌,
  arith, String, List, [], ◌∷◌, Bool-cases, true, false, done, fault, blocked, if◌then◌else◌,
  length,
}
use qaoed.Base.Ensures.{Ensures, bind-Ensures, done-Ensures, fault-Ensures, if-Ensures}
use qaoed.Conf.{Ifst, QConfig}
use qaoed.Start.Kept.{devices-SameLength}
use qaoed.Start.{System, devices, startlistener, network}
use qaoed.Load.Sound.{loadconfig-IsSound}
use qaoed.Load.{Loaded, loaded, null_config, program_exits, incomplete, loadconfig}
use qaoed.Main.{
  Threads, Stopping, Life, alive, exited, Lives, and_lives, count_listeners, count_workers, startup,
  cancel_listeners, shutdown, destroyqcfg, Daemon, Hup, revert, replace, reload, sighuphandler,
  signal, signals,
}

-- Not every interface has a thread.
abbrev Unstarted : QConfig × Threads × ℤ → Type 0
Unstarted s = s.1.listeners < length s.0.intlist

count_listeners-lt :
    (sys : System) (is : List Ifst)
    → eq_ℤ (network sys is) (negsuc 0) ≡ true
    → count_listeners sys is < length is
unfolding network count_listeners
count_listeners-lt sys [] h = cc h
count_listeners-lt sys (i ∷ is) h = elim (Bool-cases (eq_ℤ (startlistener sys i) (pos 0))) [
  | inl e ↦ let ih = count_listeners-lt sys is (rw e at h) in rw e (omega arith)
  | inr e ↦ rw e (omega arith)
]

abbrev Ends : QConfig × Threads × ℤ → Type 0
Ends s = (s.2 ≡ pos 0) ⊎ Unstarted s

-- A start fails with a listener that does not run, if there is an interface.
startup-Unstarted :
    (sys : System) (conf : QConfig) → 0 < length conf.intlist → Ensures Ends (startup sys conf)
unfolding startup
startup-Unstarted sys conf some_int =
    bind-Ensures Ends (count_workers sys conf.devices conf.intlist) _ λ n e.
      bind-Ensures Ends (devices sys conf) _ λ r e'.
        let same = devices-SameLength sys conf r e' in
        if-Ensures Ends (eq_ℤ r.1 (negsuc 0)) _ _ (done-Ensures Ends _ (inr (omega arith))) (
          done-Ensures Ends _ (elim (Bool-cases (eq_ℤ (network sys r.0.intlist) (negsuc 0))) [
            | inl b ↦ inr (count_listeners-lt sys r.0.intlist b)
            | inr b ↦ inl (rw b)
          ]))

abbrev Exits : {A : Type 0} → Life A → Type 0
Exits r = r ≡ exited

and_lives-Exits :
    {A B : Type 0} (m : Lives A) (f : A → Lives B)
    → Ensures (Exits {A = A}) m
    → Ensures (Exits {A = B}) (and_lives m f)
and_lives-Exits {B = B} m f h =
    bind-Ensures (Exits {A = B}) m _
      λ r e. let x = h r e in rw x (done-Ensures (Exits {A = B}) exited refl)

cancel_listeners-Exits :
    (stop : Stopping) (n : ℕ) (is : List Ifst)
    → n < length is
    → Ensures Exits (cancel_listeners stop n is)
unfolding cancel_listeners
cancel_listeners-Exits stop n [] h = absurd (omega arith)
cancel_listeners-Exits stop zero (i ∷ is) h = fault-Ensures Exits
cancel_listeners-Exits stop (suc n) (i ∷ is) h =
    if-Ensures Exits (stop.cancels i) _ _ (cancel_listeners-Exits stop n is (omega arith))
      (done-Ensures Exits exited refl)

-- A configuration that failed to start is not replaced by the old one: the daemon exits or reads what
-- is not there.
revert-Exits :
    (hup : Hup) (d : Daemon) (s : QConfig × Threads × ℤ)
    → Unstarted s
    → Ensures Exits (revert hup d s.0 s.1)
unfolding revert shutdown
revert-Exits hup d s h =
    and_lives-Exits _ _
      (and_lives-Exits _ _ (cancel_listeners-Exits hup.stop s.1.listeners s.0.intlist h))

-- What a daemon is after a signal that did not end it.
abbrev pub StaysDeaf : Hup → String → Daemon → Daemon → Type 0
StaysDeaf hup cfgfile d d' =
    (loadconfig hup.loader hup.depth cfgfile ≡ done null_config) × (d' ≡ record d { hears = false })

abbrev pub Switched : Hup → String → Daemon → Daemon → Type 0
Switched hup cfgfile d d' =
    (conf : QConfig) × (loadconfig hup.loader hup.depth cfgfile ≡ done (loaded conf))
    × (startup hup.sys conf ≡ done (d'.curcfg, d'.threads, pos 0))
    × (d'.hears ≡ true)

abbrev Result : Hup → String → Daemon → Life Daemon → Type 0
Result hup cfgfile d (alive d') = StaysDeaf hup cfgfile d d' ⊎ Switched hup cfgfile d d'
Result hup cfgfile d exited = Unit

is_zero : (z : ℤ) → eq_ℤ z (pos 0) ≡ true → z ≡ pos 0
is_zero (pos n) h = ground arith
is_zero (negsuc n) h = absurd (cc h)

some_length : (is : List Ifst) → is ≢ [] → 0 < length is
some_length [] h = absurd (h refl)
some_length (i ∷ is) h = omega arith

module _ (hup : Hup) (cfgfile : String) (d : Daemon) where
  abbrev Ok : Life Daemon → Type 0
  Ok = Result hup cfgfile d

  Exits-Ok : (m : Lives Daemon) → Ensures Exits m → Ensures Ok m
  Exits-Ok m h r e = let x = h r e in subst Ok (sym x) tt

  and_lives-Ok :
      {A : Type 0} (m : Lives A) (f : A → Lives Daemon)
      → ((a : A) → Ensures Ok (f a))
      → Ensures Ok (and_lives m f)
  and_lives-Ok {A} m f h = bind-Ensures Ok m _ λ r e. ends r
    where
      ends : (r : Life A) → Ensures Ok (elim r [ alive a ↦ f a | exited ↦ done exited ])
      ends (alive a) = h a
      ends exited = done-Ensures Ok exited tt

  replace-Ok :
      (conf : QConfig) (s : QConfig × Threads × ℤ)
      → loadconfig hup.loader hup.depth cfgfile ≡ done (loaded conf)
      → startup hup.sys conf ≡ done s
      → Ensures Ok (replace hup d s)
  unfolding replace
  replace-Ok conf s read e = elim (Bool-cases (eq_ℤ s.2 (pos 0))) [
    | inl b ↦
        let zero_is = is_zero s.2 b in
        let e' : startup hup.sys conf ≡ done (s.0, s.1, pos 0) =
          e ∙ ap (λ z. done (s.0, s.1, z)) zero_is in
        rw b (
          bind-Ensures Ok (destroyqcfg d.curcfg.devices) _
            (λ u _. done-Ensures Ok _ (inr (conf, read, e', refl))))
    | inr b ↦
        let (sound, some_int) = loadconfig-IsSound hup.loader hup.depth cfgfile conf read in
        rw b (
          Exits-Ok _ (
            revert-Exits hup d s
              (elim (startup-Unstarted hup.sys conf (some_length conf.intlist some_int) s e) [
                | inl z ↦ let no : true ≡ false = rw z at b in absurd (cc no)
                | inr u ↦ u
              ])))
  ]

  reload-Ok :
      (l : Loaded) → loadconfig hup.loader hup.depth cfgfile ≡ done l → Ensures Ok (reload hup d l)
  unfolding reload
  reload-Ok null_config e = done-Ensures Ok _ (inl (e, refl))
  reload-Ok program_exits e = done-Ensures Ok exited tt
  reload-Ok incomplete e = fault-Ensures Ok
  reload-Ok (loaded conf) e =
      and_lives-Ok _ _
        (λ u. bind-Ensures Ok (startup hup.sys conf) _ (λ s e'. replace-Ok conf s e e'))

-- A daemon that outlives a SIGHUP either could not load the file, then it keeps its configuration
-- and its threads and ignores the signal from now on, or it runs the configuration of the file,
-- whose start returned 0. It never runs the old one again.
pub sighuphandler-Outcomes :
    (hup : Hup) (cfgfile : String) (d d' : Daemon)
    → sighuphandler hup cfgfile d ≡ done (alive d')
    → StaysDeaf hup cfgfile d d' ⊎ Switched hup cfgfile d d'
unfolding sighuphandler
sighuphandler-Outcomes hup cfgfile d d' h =
    bind-Ensures (Result hup cfgfile d) (loadconfig hup.loader hup.depth cfgfile) _
      (λ l e. reload-Ok hup cfgfile d l e) (alive d') h

signal_ignored :
    (hup : Hup) (cfgfile : String) (d : Daemon)
    → d.hears ≡ false
    → signal hup cfgfile d ≡ done (alive d)
unfolding signal
signal_ignored hup cfgfile d e =
    ap (λ b. if b then sighuphandler hup cfgfile d else done (alive d)) e

ignored :
    (hups : List Hup) (cfgfile : String) (d : Daemon)
    → d.hears ≡ false
    → signals hups cfgfile d ≡ done (alive d)
unfolding signals
ignored [] cfgfile d e = refl
ignored (hup ∷ hups) cfgfile d e = rw (signal_ignored hup cfgfile d e) (ignored hups cfgfile d e)

-- A SIGHUP at which the file gives no configuration leaves the daemon with the one that it had, for
-- ever: no further signal is handled, whatever the file holds then.
pub signals_ignored :
    (hup : Hup) (hups : List Hup) (cfgfile : String) (d : Daemon)
    → d.hears ≡ true
    → loadconfig hup.loader hup.depth cfgfile ≡ done null_config
    → signals (hup ∷ hups) cfgfile d ≡ done (alive (record d { hears = false }))
unfolding signals signal sighuphandler reload
signals_ignored hup hups cfgfile d hears e = rw (hears, e) (ignored hups cfgfile _ refl)

signal_heard :
    (hup : Hup) (cfgfile : String) (d : Daemon)
    → d.hears ≡ true
    → signal hup cfgfile d ≡ sighuphandler hup cfgfile d
unfolding signal
signal_heard hup cfgfile d e = ap (λ b. if b then sighuphandler hup cfgfile d else done (alive d)) e

-- What a daemon has become after any number of signals: each one gave it the configuration of the
-- file, up to the first at which the file could not be loaded, and the others did nothing.
abbrev pub History : List Hup → String → Daemon → Daemon → Type 0
History [] cfgfile d d' = d' ≡ d
History (hup ∷ hups) cfgfile d d' =
    StaysDeaf hup cfgfile d d'
    ⊎ ((next : Daemon) × Switched hup cfgfile d next × History hups cfgfile next d')

and_lives-alive :
    {A B : Type 0} (m : Lives A) (f : A → Lives B) (b : B)
    → and_lives m f ≡ done (alive b)
    → (a : A) × (m ≡ done (alive a)) × (f a ≡ done (alive b))
and_lives-alive (done (alive a)) f b h = (a, refl, h)
and_lives-alive (done exited) f b h = absurd (cc h)
and_lives-alive fault f b h = absurd (cc h)
and_lives-alive blocked f b h = absurd (cc h)

-- A daemon that listens for SIGHUP and outlives any number of them took over the configuration of the
-- file at each, by a start that returned 0, until the first signal at which the file could not be
-- loaded; from then on it keeps what it had and ignores every signal, whatever the file holds then.
pub signals-History :
    (hups : List Hup) (cfgfile : String) (d d' : Daemon)
    → d.hears ≡ true
    → signals hups cfgfile d ≡ done (alive d')
    → History hups cfgfile d d'
unfolding signals
signals-History [] cfgfile d d' hears h = cc h
signals-History (hup ∷ hups) cfgfile d d' hears h =
    let (next, e, later) = and_lives-alive (signal hup cfgfile d) (signals hups cfgfile) d' h in
    elim (sighuphandler-Outcomes hup cfgfile d next (sym (signal_heard hup cfgfile d hears) ∙ e)) [
      | inl deaf ↦
          let same : next ≡ d' =
            cc (ignored hups cfgfile next (ap (λ (x : Daemon). x.hears) deaf.1), later) in
          inl (deaf.0, sym same ∙ deaf.1)
      | inr switched ↦ inr (next, switched, signals-History hups cfgfile next d' switched.3 later)
    ]
