-- ===== src/Api/Interface.antt =====
-- api.c: processINTERFACE_ADD and processINTERFACE_DEL, which no command of a client reaches. The
-- number of the new socket (-1 if there is none), the start of the listener, fresh memory and the end
-- of a thread are arguments.
use qaoed.Base.{
  arith, ℕ, ◌+◌, ℤ, pos, negsuc, eq_ℤ, ltb_ℤ, String, str_eq, List, [], ◌∷◌, ◌++◌, Option, none,
  some, Bool, true, false, ap, sym, ◌∙◌, ◌&&◌, not, ◌≡◌, ◌≢◌, refl, Outcome, done, ◌>>=◌, ltb,
  if◌then◌else◌,
}
use qaoed.Base.Results.{>>=-eq-done}
use qaoed.Conf.{Ifst, QConfig}
use qaoed.Api.{api_allok, api_failure}
use qaoed.Api.Add.{referencelog}
use qaoed.Api.Lock.{rdlock, wrlock, unlock}

-- How many interfaces have another name: `strcmp` is not 0 for these.
unfoldable pub count_others : String → List Ifst → ℕ
count_others name [] = 0
count_others name (i ∷ is) = (if str_eq i.ifname name then 0 else 1) + count_others name is

-- The new interface over fresh memory.
unfoldable pub new_interface : Ifst → String → QConfig → Ifst
new_interface fresh name conf = record fresh {
  ifname = name;
  mtu = pos 1500;
  log = referencelog "default" conf.loglist;
  log_level = conf.log_level;
}

-- The socket is taken for a failure unless its number is 0.
unfoldable pub open_new : ℤ → (Ifst → Bool) → Ifst → QConfig → QConfig × ℕ
open_new sock listens new conf =
    let opened = record new { buffsize = pos 1518 } in
    if not (eq_ℤ sock (pos 0))
    then (conf, api_failure)
    else if listens opened
    then (record conf { intlist = conf.intlist ++ (opened ∷ []) }, api_allok)
    else (conf, api_failure)

unfoldable pub interface_add :
    ℤ → (Ifst → Bool) → Option Ifst → String → QConfig → Outcome (QConfig × ℕ)
interface_add sock listens memory name conf = do
  held ← rdlock conf.devlistlock
  let cnt = count_others name conf.intlist
  free ← unlock held
  let conf' = record conf { devlistlock = free }
  done (
      if ltb 0 cnt then (conf', api_failure) else elim memory [
        | none ↦ (conf', api_failure)
        | some fresh ↦ open_new sock listens (new_interface fresh name conf') conf'
      ])

-- The loop of `processINTERFACE_DEL`: every interface of another name that nobody uses is removed if
-- its thread ends; the error code is that of the last one that was tried.
unfoldable pub remove_others : (Ifst → Bool) → String → List Ifst → ℕ → List Ifst × ℕ
remove_others ends name [] error = ([], error)
remove_others ends name (i ∷ is) error =
    let tried = not (str_eq i.ifname name) && ltb_ℤ i.refcnt (pos 1) in
    let error' = if tried then if ends i then api_allok else api_failure else error in
    let (is', error'') = remove_others ends name is error' in
    (if tried && ends i then is' else i ∷ is', error'')

-- The interfaces that are left and the error code of the reply, if there is one.
unfoldable pub interface_del : (Ifst → Bool) → String → QConfig → Outcome (List Ifst × Option ℕ)
interface_del ends name conf = elim conf.intlist [
  | [] ↦ done ([], none)
  | i ∷ is ↦ wrlock conf.devlistlock >>= λ held.
      let (is', error) = remove_others ends name (i ∷ is) api_failure in
      unlock held >>= λ free. done (is', some error)
]

open_new-fails :
    (sock : ℤ) (listens : Ifst → Bool) (new : Ifst) (conf : QConfig)
    → sock ≢ pos 0
    → open_new sock listens new conf ≡ (conf, api_failure)
unfolding open_new
open_new-fails sock listens new conf ne =
    let other : eq_ℤ sock (pos 0) ≡ false = ne_zero sock ne in rw other
  where
    ne_zero : (z : ℤ) → z ≢ pos 0 → eq_ℤ z (pos 0) ≡ false
    ne_zero (pos n) h = ground arith
    ne_zero (negsuc n) h = refl

-- A command for a new interface fails and adds none, unless the new socket has the number 0.
pub interface_add_fails :
    (sock : ℤ) (listens : Ifst → Bool) (memory : Option Ifst) (name : String) (conf conf' : QConfig)
    (error : ℕ)
    → sock ≢ pos 0
    → interface_add sock listens memory name conf ≡ done (conf', error)
    → (error ≡ api_failure) × (conf'.intlist ≡ conf.intlist)
unfolding interface_add
interface_add_fails sock listens memory name conf conf' error ne h =
    let (held, e1, h1) = >>=-eq-done (rdlock conf.devlistlock) _ h in
    let (free, e2, h2) = >>=-eq-done (unlock held) _ h1 in
    tried (ltb 0 (count_others name conf.intlist)) memory (record conf { devlistlock = free }) refl
      h2
  where
    failed :
        (next : QConfig)
        → next.intlist ≡ conf.intlist
        → ◌≡◌ {A = Outcome (QConfig × ℕ)} (done (next, api_failure)) (done (conf', error))
        → (error ≡ api_failure) × (conf'.intlist ≡ conf.intlist)
    failed next same h =
        let e : next ≡ conf' = cc h in (cc h, ap (λ (c : QConfig). c.intlist) (sym e) ∙ same)

    tried :
        (b : Bool) (o : Option Ifst) (next : QConfig)
        → next.intlist ≡ conf.intlist
        → ◌≡◌ {A = Outcome (QConfig × ℕ)}
            (done (
              if b then (next, api_failure) else elim o [
                | none ↦ (next, api_failure)
                | some fresh ↦ open_new sock listens (new_interface fresh name next) next
              ]))
            (done (conf', error))
        → (error ≡ api_failure) × (conf'.intlist ≡ conf.intlist)
    tried true o next same h = failed next same h
    tried false none next same h = failed next same h
    tried false (some fresh) next same h =
        failed next same
          (ap done (sym (open_new-fails sock listens (new_interface fresh name next) next ne)) ∙ h)
