-- ===== src/Start/Devices.antt =====
-- What the start of a device leaves as it is, and what it sets.
use qaoed.Base.{
  ◌/◌, blocked, ◌≡◌, refl, subst, ℤ, pos, negsuc, eq_ℤ, String, List, Option, none, some, Bool,
  true, false, inl, inr, Bool-cases, Outcome, done, fault, ◌>>=◌, if◌then◌else◌, not, ◌||◌,
}
use qaoed.Base.Results.{>>=-eq-done}
use qaoed.Queue.{start_queue}
use qaoed.Conf.{Ifst, AoeDev, QConfig}
use qaoed.Api.{TargetInfo}
use qaoed.Api.Add.{Reply, target_add}
use qaoed.Api.Add.Exclusive.{Exclusive, IsStart, target_add-Exclusive}
use qaoed.Start.{
  System, FileStat, Started, intrefup, intrefdown, startworker, start_found, start_open,
  start_named, startdevice,
}

-- The address, the interface and the file of a device are what they were.
pub record SameTarget (a b : AoeDev) : Type 0 where
  pub shelf : b.shelf ≡ a.shelf
  pub slot : b.slot ≡ a.slot
  pub interface : b.interface ≡ a.interface
  pub devicename : b.devicename ≡ a.devicename

-- A result for a device that is the same target as another one.
of_done :
    (a d b : AoeDev) (is is' : List Ifst) (ret ret' : ℤ)
    → SameTarget a d
    → ◌≡◌ {A = Outcome Started} (done (d, is, ret)) (done (b, is', ret'))
    → SameTarget a b
of_done a d b is is' ret ret' s h =
    let e : d ≡ b = cc h in subst (λ (x : AoeDev). SameTarget a x) e s

pub SameTarget-self : (a : AoeDev) → SameTarget a a
SameTarget-self a = record { shelf = refl; slot = refl; interface = refl; devicename = refl }

module _ (sys : System) (is is' : List Ifst) (ret : ℤ) where
  startworker-SameTarget :
      (a b : AoeDev) → startworker sys a is ≡ done (b, is', ret) → SameTarget a b
  unfolding startworker
  startworker-SameTarget a b h = prepared (not (sys.mutex a) || not (sys.cond a)) h
    where
      ready : AoeDev
      ready = record a { queue = start_queue a.queue.cells }

      ready-SameTarget : SameTarget a ready
      ready-SameTarget = record { shelf = refl; slot = refl; interface = refl; devicename = refl }

      created :
          (t : Bool) (up : List Ifst)
          → ◌≡◌ {A = Outcome Started}
              (if t
                then done (ready, up, pos 0)
                else (intrefdown a.interface up >>= λ down. done (ready, down, negsuc 0)))
              (done (b, is', ret))
          → SameTarget a b
      created true up h = of_done a ready b up is' (pos 0) ret ready-SameTarget h
      created false up h =
          let (down, e, h') = >>=-eq-done (intrefdown a.interface up) _ h in
          of_done a ready b down is' (negsuc 0) ret ready-SameTarget h'

      prepared :
          (c : Bool)
          → ◌≡◌ {A = Outcome Started}
              (if c
                then done (a, is, negsuc 0)
                else (intrefup a.interface is >>= λ up.
                    if sys.thread a
                    then done (ready, up, pos 0)
                    else (intrefdown a.interface up >>= λ down. done (ready, down, negsuc 0))))
              (done (b, is', ret))
          → SameTarget a b
      prepared true h = of_done a a b is is' (negsuc 0) ret (SameTarget-self a) h
      prepared false h =
          let (up, e, h') = >>=-eq-done (intrefup a.interface is) _ h in
          created (sys.thread a) up h'

  start_found-SameTarget :
      (name : String) (o : Option FileStat) (a b : AoeDev)
      → start_found sys name o a is ≡ done (b, is', ret)
      → SameTarget a b
  unfolding start_found
  start_found-SameTarget name none a b h = of_done a a b is is' (negsuc 0) ret (SameTarget-self a) h
  start_found-SameTarget name (some st) a b h =
      let size = if st.is_device then sys.getsize name else st.st_size / 512 in
      let s = startworker-SameTarget (record a { size = size }) b h in
      record { shelf = s.shelf; slot = s.slot; interface = s.interface; devicename = s.devicename }

  start_open-SameTarget :
      (name : String) (a b : AoeDev)
      → start_open sys name a is ≡ done (b, is', ret)
      → SameTarget a b
  unfolding start_open
  start_open-SameTarget name a b h = start_found-SameTarget name (sys.stat name) a b h

  start_named-SameTarget :
      (o : Option String) (a b : AoeDev)
      → start_named sys o a is ≡ done (b, is', ret)
      → SameTarget a b
  unfolding start_named
  start_named-SameTarget none a b h = of_done a a b is is' (negsuc 0) ret (SameTarget-self a) h
  start_named-SameTarget (some name) a b h =
      opened a.fp (sys.opens (eq_ℤ a.writecache (pos 0)) name) (sys.fdopens name) h
    where
      opened :
          (f o p : Bool)
          → ◌≡◌ {A = Outcome Started}
              (if f
                then start_open sys name a is
                else if o
                then if p
                  then start_open sys name (record a { fp = true }) is
                  else done (a, is, negsuc 0)
                else done (a, is, negsuc 0))
              (done (b, is', ret))
          → SameTarget a b
      opened true o p h = start_open-SameTarget name a b h
      opened false true true h =
          let s = start_open-SameTarget name (record a { fp = true }) b h in
          record {
            shelf = s.shelf;
            slot = s.slot;
            interface = s.interface;
            devicename = s.devicename;
          }
      opened false true false h = of_done a a b is is' (negsuc 0) ret (SameTarget-self a) h
      opened false false p h = of_done a a b is is' (negsuc 0) ret (SameTarget-self a) h

-- The start of a device as a command sees it: the device that runs, or nothing.
unfoldable pub started : System → List Ifst → AoeDev → Option AoeDev
started sys is d = elim (startdevice sys d is) [
  | done s ↦ if eq_ℤ s.2 (pos 0) then some s.0 else none
  | fault ↦ none
  | blocked ↦ none
]

started-SameTarget :
    (sys : System) (is : List Ifst) (a b : AoeDev) → started sys is a ≡ some b → SameTarget a b
unfolding started startdevice
started-SameTarget sys is a b h =
    ran (start_named sys a.devicename a is)
      (λ s e. start_named-SameTarget sys is s.1 s.2 a.devicename a s.0 e) h
  where
    ran :
        (m : Outcome Started)
        → ((s : Started) → m ≡ done s → SameTarget a s.0)
        → ◌≡◌ {A = Option AoeDev}
            (elim m [
              | done s ↦ if eq_ℤ s.2 (pos 0) then some s.0 else none
              | fault ↦ none
              | blocked ↦ none
            ])
            (some b)
        → SameTarget a b
    ran (done s) same h = elim (Bool-cases (eq_ℤ s.2 (pos 0))) [
      | inl e ↦
          let t : s.0 ≡ b = cc (e, h) in subst (λ (x : AoeDev). SameTarget a x) t (same s refl)
      | inr e ↦ absurd (cc (e, h))
    ]
    ran fault same h = absurd (cc h)
    ran blocked same h = absurd (cc h)

started-IsStart : (sys : System) (is : List Ifst) → IsStart (started sys is)
started-IsStart sys is = record {
  shelf = λ a b e. (started-SameTarget sys is a b e).shelf;
  slot = λ a b e. (started-SameTarget sys is a b e).slot;
  interface = λ a b e. (started-SameTarget sys is a b e).interface;
  devicename = λ a b e. (started-SameTarget sys is a b e).devicename;
}

-- A new target that is started by opening its file and creating its worker keeps the devices
-- exclusive, whatever the system answers: two devices share shelf and slot only if they serve one
-- file on two interfaces.
pub started-target_add-Exclusive :
    (sys : System) (fresh : Option AoeDev) (t : TargetInfo) (conf conf' : QConfig)
    (reply : Option Reply)
    → Exclusive conf.devices
    → target_add (started sys conf.intlist) fresh t conf ≡ done (conf', reply)
    → Exclusive conf'.devices
started-target_add-Exclusive sys fresh t conf conf' reply v h =
    target_add-Exclusive (started sys conf.intlist) (started-IsStart sys conf.intlist) fresh t conf
      conf' reply v h
