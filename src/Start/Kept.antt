-- ===== src/Start/Kept.antt =====
-- The start of the devices keeps the interfaces, but for their counters: as many as before are there.
use qaoed.Base.{
  ℕ, zero, suc, ℤ, pos, negsuc, eq_ℤ, ◌≡◌, refl, ◌∙◌, arith, String, List, [], ◌∷◌, Option, none,
  some, not, ◌||◌, valid, ◌>>=◌, length,
}
use qaoed.Base.Ensures.{Ensures, bind-Ensures, done-Ensures, fault-Ensures, if-Ensures}
use qaoed.Conf.{Ifst, AoeDev, QConfig}
use qaoed.Start.{
  FileStat, System, Started, add_refs, intrefup, intrefdown, startworker, start_found, start_open,
  start_named, startdevice, start_all, start_devices, devices,
}

-- A list of interfaces as long as another one.
abbrev pub SameLength : List Ifst → List Ifst → Type 0
SameLength is js = length js ≡ length is

add_refs-SameLength : (k : ℤ) (n : ℕ) (is : List Ifst) → Ensures (SameLength is) (add_refs k n is)
unfolding add_refs
add_refs-SameLength k n [] = fault-Ensures (SameLength [])
add_refs-SameLength k zero (i ∷ is) = done-Ensures (SameLength (i ∷ is)) _ refl
add_refs-SameLength k (suc n) (i ∷ is) =
    bind-Ensures (SameLength (i ∷ is)) (add_refs k n is) _ λ js e.
      let same = add_refs-SameLength k n is js e in
      done-Ensures (SameLength (i ∷ is)) (i ∷ js) (omega arith)

valid-SameLength :
    (k : ℤ) (o : Option ℕ) (is : List Ifst)
    → Ensures (SameLength is) (valid o >>= λ n. add_refs k n is)
valid-SameLength k o is =
    bind-Ensures (SameLength is) (valid o) _ (λ n e. add_refs-SameLength k n is)

-- The same for the interfaces after the start of a device.
abbrev Kept : List Ifst → Started → Type 0
Kept is s = SameLength is s.1

startworker-Kept :
    (sys : System) (d : AoeDev) (is : List Ifst) → Ensures (Kept is) (startworker sys d is)
unfolding startworker intrefup intrefdown
startworker-Kept sys d is =
    if-Ensures (Kept is) (not (sys.mutex d) || not (sys.cond d)) _ _ (done-Ensures (Kept is) _ refl)
      (bind-Ensures (Kept is) (valid d.interface >>= λ n. add_refs (pos 1) n is) _ (λ up e.
        let same = valid-SameLength (pos 1) d.interface is up e in
        if-Ensures (Kept is) (sys.thread d) _ _ (done-Ensures (Kept is) _ same) (
          bind-Ensures (Kept is) (valid d.interface >>= λ n. add_refs (negsuc 0) n up) _ (λ down e'.
            let same' = valid-SameLength (negsuc 0) d.interface up down e' in
            done-Ensures (Kept is) _ (same' ∙ same)))))

start_open-Kept :
    (sys : System) (name : String) (d : AoeDev) (is : List Ifst)
    → Ensures (Kept is) (start_open sys name d is)
unfolding start_open
start_open-Kept sys name d is = found (sys.stat name)
  where
    found : (o : Option FileStat) → Ensures (Kept is) (start_found sys name o d is)
    found none = unfold start_found in (done-Ensures (Kept is) (d, is, negsuc 0) refl)
    found (some st) = unfold start_found in (startworker-Kept sys _ is)

startdevice-Kept :
    (sys : System) (d : AoeDev) (is : List Ifst) → Ensures (Kept is) (startdevice sys d is)
unfolding startdevice
startdevice-Kept sys d is = named d.devicename
  where
    named : (o : Option String) → Ensures (Kept is) (start_named sys o d is)
    named none = unfold start_named in (done-Ensures (Kept is) (d, is, negsuc 0) refl)
    named (some name) =
        unfold start_named in
        (if-Ensures (Kept is) d.fp _ _ (start_open-Kept sys name d is) (
          if-Ensures (Kept is) (sys.opens (eq_ℤ d.writecache (pos 0)) name) _ _
            (if-Ensures (Kept is) (sys.fdopens name) _ _ (start_open-Kept sys name _ is)
              (done-Ensures (Kept is) (d, is, negsuc 0) refl))
            (done-Ensures (Kept is) (d, is, negsuc 0) refl)))

abbrev AllKept : List Ifst → List AoeDev × List Ifst × ℤ → Type 0
AllKept is s = SameLength is s.1

start_all-Kept :
    (sys : System) (ds : List AoeDev) (is : List Ifst) → Ensures (AllKept is) (start_all sys ds is)
unfolding start_all
start_all-Kept sys [] is = done-Ensures (AllKept is) ([], is, pos 0) refl
start_all-Kept sys (d ∷ ds) is = bind-Ensures (AllKept is) (startdevice sys d is) _ λ s e.
    let same = startdevice-Kept sys d is s e in
    if-Ensures (AllKept is) (eq_ℤ s.2 (negsuc 0)) _ _ (done-Ensures (AllKept is) _ same) (
      bind-Ensures (AllKept is) (start_all sys ds s.1) _
        (λ r e'. done-Ensures (AllKept is) _ (start_all-Kept sys ds s.1 r e' ∙ same)))

start_devices-Kept :
    (sys : System) (ds : List AoeDev) (is : List Ifst)
    → Ensures (AllKept is) (start_devices sys ds is)
unfolding start_devices
start_devices-Kept sys [] is = done-Ensures (AllKept is) ([], is, negsuc 0) refl
start_devices-Kept sys (d ∷ ds) is = start_all-Kept sys (d ∷ ds) is

pub devices-SameLength :
    (sys : System) (conf : QConfig)
    → Ensures (λ (s : QConfig × ℤ). SameLength conf.intlist s.0.intlist) (devices sys conf)
unfolding devices
devices-SameLength sys conf =
    bind-Ensures (λ s. SameLength conf.intlist s.0.intlist)
      (start_devices sys conf.devices conf.intlist) _
      λ s e.
        done-Ensures (λ r. SameLength conf.intlist r.0.intlist) _
          (start_devices-Kept sys conf.devices conf.intlist s e)
