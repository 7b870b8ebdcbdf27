-- ===== src/Parse/Accepted.antt =====
-- The configuration that the daemon runs with.
use qaoed.Base.{
  ℕ, ◌⊎◌, fault, blocked, ◌≡◌, refl, sym, ap, ◌∙◌, subst, ℤ, pos, negsuc, eq_ℤ, String, List, [],
  ◌∷◌, Option, none, some, Bool, true, false, inl, inr, Bool-cases, Outcome, done, ◌>>=◌,
  if◌then◌else◌,
}
use qaoed.Base.Results.{>>=-eq-done}
use qaoed.Conf.{Ifst, AoeDev, QConfig}
use qaoed.Api.Add.{devdefaults, referencelog}
use qaoed.Config.{
  NetSystem, default_all, defaultconfig, open_interface, open_all, open_interfaces, openinterfaces,
  unless, validateconfig,
}
use qaoed.Config.Interfaces.{AllOpen, AllReady-AllOpen, openinterfaces-AllReady}
use qaoed.Config.Valid.{IsSound, validateconfig-IsSound}
use qaoed.Parse.Finish.{accept, open_and_check, finish_devices, finish}

default_all_intlist :
    (ds : List AoeDev) (conf : QConfig) → (default_all ds conf).1.intlist ≡ conf.intlist
unfolding default_all devdefaults
default_all_intlist [] conf = refl
default_all_intlist (d ∷ ds) conf = default_all_intlist ds (devdefaults conf d).1

defaultconfig_intlist : (conf : QConfig) → (defaultconfig conf).intlist ≡ conf.intlist
unfolding defaultconfig
defaultconfig_intlist conf = default_all_intlist conf.devices conf

-- A loop ends with 0 or -1.
abbrev IsStatus : ℤ → Type 0
IsStatus r = (r ≡ pos 0) ⊎ (r ≡ negsuc 0)

open_all-IsStatus : (sys : NetSystem) (is : List Ifst) → IsStatus (open_all sys is).1
unfolding open_all
open_all-IsStatus sys [] = inl refl
open_all-IsStatus sys (i ∷ is) = elim (Bool-cases (open_interface sys i).1) [
  | inl e ↦ rw e (open_all-IsStatus sys is)
  | inr e ↦ rw e (inr refl)
]

openinterfaces-IsStatus : (sys : NetSystem) (conf : QConfig) → IsStatus (openinterfaces sys conf).1
unfolding openinterfaces open_interfaces
openinterfaces-IsStatus sys conf = opened conf.intlist
  where
    opened : (is : List Ifst) → IsStatus (open_interfaces sys is).1
    opened [] = inr refl
    opened (i ∷ is) = open_all-IsStatus sys (i ∷ is)

unless-IsStatus :
    (m : Outcome Bool) (next : Outcome ℤ) (r : ℤ)
    → ((s : ℤ) → next ≡ done s → IsStatus s)
    → unless m next ≡ done r
    → IsStatus r
unfolding unless
unless-IsStatus (done true) next r ih h = inr (cc h)
unless-IsStatus (done false) next r ih h = ih r h
unless-IsStatus fault next r ih h = absurd (cc h)
unless-IsStatus blocked next r ih h = absurd (cc h)

validateconfig-IsStatus :
    (stat : String → Bool) (conf : QConfig) (r : ℤ) → validateconfig stat conf ≡ done r → IsStatus r
unfolding validateconfig
validateconfig-IsStatus stat conf r = unless-IsStatus _ _ r (λ r1. unless-IsStatus _ _ r1 (λ r2.
    unless-IsStatus _ _ r2 (λ r3.
      unless-IsStatus _ _ r3
        (λ r4. unless-IsStatus _ _ r4 (λ r5. unless-IsStatus _ _ r5 (λ r6 e. inl (cc e)))))))

accept-some :
    (conf conf' : QConfig) (r : ℤ)
    → accept conf r ≡ some conf'
    → IsStatus r
    → (r ≡ pos 0) × (log : Option ℕ) × (record conf { log = log } ≡ conf')
unfolding accept
accept-some conf conf' r h (inl e) =
    let h' : accept conf (pos 0) ≡ some conf' = ap (accept conf) (sym e) ∙ h in
    (e, referencelog "default" conf.loglist, cc h')
accept-some conf conf' r h (inr e) =
    let h' : accept conf (negsuc 0) ≡ some conf' = ap (accept conf) (sym e) ∙ h in absurd (cc h')

open_and_check-Accepts :
    (sys : NetSystem) (stat : String → Bool) (conf conf' : QConfig)
    → open_and_check sys stat conf ≡ done (some conf')
    → IsSound stat conf' × AllOpen sys conf.intlist conf'.intlist
unfolding open_and_check
open_and_check-Accepts sys stat conf conf' h =
    checked (openinterfaces sys conf).0 (openinterfaces sys conf).1
      (openinterfaces-IsStatus sys conf)
      (λ e.
        let (some_int, ready) = openinterfaces-AllReady sys conf e in
        AllReady-AllOpen sys conf.intlist _ some_int ready)
      h
  where
    valid :
        (next : QConfig) (r : ℤ)
        → validateconfig stat next ≡ done r
        → AllOpen sys conf.intlist next.intlist
        → accept next r ≡ some conf'
        → IsSound stat conf' × AllOpen sys conf.intlist conf'.intlist
    valid next r e ready h =
        let (zero_is, log, same) =
          accept-some next conf' r h (validateconfig-IsStatus stat next r e) in
        let s = (validateconfig-IsSound stat next).0 (e ∙ ap done zero_is) in
        let s' : IsSound stat (record next { log = log }) = record {
          acls = s.acls;
          interfaces = s.interfaces;
          files = s.files;
          attached = s.attached;
          addressed = s.addressed;
          exclusive = s.exclusive;
        } in
        (
          subst (λ (c : QConfig). IsSound stat c) same s',
          subst (λ (c : QConfig). AllOpen sys conf.intlist c.intlist) same ready,
        )

    checked :
        (next : QConfig) (ret : ℤ)
        → IsStatus ret
        → (ret ≡ pos 0 → AllOpen sys conf.intlist next.intlist)
        → ◌≡◌ {A = Outcome (Option QConfig)}
            (if eq_ℤ ret (negsuc 0)
              then done none
              else (validateconfig stat next >>= λ r. done (accept next r)))
            (done (some conf'))
        → IsSound stat conf' × AllOpen sys conf.intlist conf'.intlist
    checked next ret (inr e) ready h =
        let b : eq_ℤ ret (negsuc 0) ≡ true = rw e in
        let h' : ◌≡◌ {A = Outcome (Option QConfig)} (done none) (done (some conf')) = rw b at h in
        absurd (cc h')
    checked next ret (inl e) ready h =
        let b : eq_ℤ ret (negsuc 0) ≡ false = rw e in
        let (r, er, h') = >>=-eq-done (validateconfig stat next) _ (rw b at h) in
        valid next r er (ready e) (cc h')

-- If a configuration is accepted once its sections are read, it is sound: its access lists and
-- interfaces have logging targets that work, each device has a path that can be stat-ed, an interface,
-- a shelf and a slot, and any two of them differ in shelf or slot or serve one file on two interfaces.
-- Its interfaces, of which there is one at least, are those that were read, each with a socket, an MTU
-- that the system allows and a buffer of its size.
pub finish-IsSound :
    (sys : NetSystem) (stat : String → Bool) (conf conf' : QConfig)
    → finish sys stat conf ≡ done (some conf')
    → IsSound stat conf' × AllOpen sys conf.intlist conf'.intlist
unfolding finish
finish-IsSound sys stat conf conf' = listed conf.devices
  where
    listed :
        (ds : List AoeDev)
        → finish_devices sys stat ds conf ≡ done (some conf')
        → IsSound stat conf' × AllOpen sys conf.intlist conf'.intlist
    listed [] h =
        let n : ◌≡◌ {A = Outcome (Option QConfig)} (done none) (done (some conf')) =
          unfold finish_devices in h in
        absurd (cc n)
    listed (d ∷ ds) h =
        let r =
          open_and_check-Accepts sys stat (defaultconfig conf) conf' (unfold finish_devices in h) in
        (
          r.0,
          subst (λ (is : List Ifst). AllOpen sys is conf'.intlist) (defaultconfig_intlist conf) r.1,
        )
