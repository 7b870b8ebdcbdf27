-- ===== src/Parse/Interfaces.antt =====
-- parseconf.c: interfaces (parseINT, findINT). Entries are reached by pointers that outlive the list
-- they were taken from, so lists stand in a store and a pointer is a list's place there with a
-- position in it. What `malloc` and `sscanf` give are arguments; a name that was never set is a fault.
use qaoed.Base.{
  ℕ, ℤ, pos, ltb_ℤ, ◌+ℤ◌, String, str_eq, List, [], ◌∷◌, ◌++◌, Option, none, some, Bool, true,
  false, Outcome, done, fault, valid, ◌>>=◌, if◌then◌else◌, length, get_elem?, set, drop,
}
use qaoed.Conf.{Logging, Ifst}
use qaoed.Rcfg.{Cfg, null, assignment, block}
use qaoed.Api.Add.{referencelog}
use qaoed.Parse.{Logs, resolve_log, loglvresolv}
use qaoed.Parse.LogTargets.{Tail, ends, past, fresh_tail}

-- An interface as it is read, and whether its name is set.
pub record IntEntry : Type 0 where
  pub named : Bool
  pub entry : Ifst

pub record IntChain : Type 0 where
  pub entries : List IntEntry
  pub tail : Tail

-- `sscanf(s, "%d", ..)`, `strcasecmp` and `malloc`; whether the `next` of fresh memory is NULL.
pub record IntLibrary : Type 0 where
  pub sscanf_int : String → Option ℤ
  pub same_text : String → String → Bool
  pub memory : Option Logging
  pub fresh : Ifst
  pub next_null : Bool
  pub log_level : ℤ

-- The lists, the one that `iflist` points to, and the logging targets.
pub record IntStore : Type 0 where
  pub chains : List IntChain
  pub iflist : Option ℕ
  pub logs : Logs

-- An MTU is read as a number or `auto`, and the buffer is made larger if its size is less.
unfoldable pub read_mtu : Ifst → ℤ → Ifst
read_mtu i mtu = record i {
  mtu = mtu;
  buffsize = if ltb_ℤ i.buffsize mtu then mtu +ℤ pos 14 else i.buffsize;
}

-- One assignment of a section: the entry, and whether the section goes on.
unfoldable pub int_statement :
    IntLibrary → String → String → IntEntry × Logs → (IntEntry × Logs) × Bool
int_statement lib lvalue rvalue (e, logs) =
    if str_eq lvalue "mtu"
    then if str_eq rvalue "auto"
      then ((record e { entry = read_mtu e.entry (pos 0) }, logs), true)
      else elim (lib.sscanf_int rvalue) [
        | none ↦ ((e, logs), false)
        | some mtu ↦ ((record e { entry = read_mtu e.entry mtu }, logs), true)
      ]
    else if str_eq lvalue "interface"
    then ((record e { named = true; entry = record (e.entry) { ifname = rvalue } }, logs), true)
    else if str_eq lvalue "log-level"
    then (
      (
        record e { entry = record (e.entry) { log_level = loglvresolv lib.same_text rvalue } },
        logs,
      ),
      true,
    )
    else if str_eq lvalue "log"
    then (let (log, logs') = resolve_log lib.memory rvalue logs in
        ((record e { entry = record (e.entry) { log = log } }, logs'), true))
    else ((e, logs), false)

-- The statements up to the first that is bad; blocks are passed over.
unfoldable pub int_statements : IntLibrary → Cfg → IntEntry × Logs → (IntEntry × Logs) × Bool
int_statements lib null s = (s, true)
int_statements lib (assignment lvalue rvalue next) s =
    let (s', ok) = int_statement lib lvalue rvalue s in
    let rest = int_statements lib next s' in if ok then rest else (s', false)
int_statements lib (block lvalue inner next) s = int_statements lib next s

-- A new entry at the end of a list, or as a list of its own; where the list is, and where in it the
-- entry is.
unfoldable pub attach :
    Tail → Option ℕ → IntEntry → List IntChain → Outcome ((ℕ × ℕ) × List IntChain)
attach alone none e chains =
    done ((length chains, 0), chains ++ (record { entries = e ∷ []; tail = alone } ∷ []))
attach alone (some n) e chains = do
  chain ← valid (get_elem? chains n)
  entries ← past chain.tail chain.entries
  done ((n, length entries), set chains n (record { entries = entries ++ (e ∷ []); tail = ends }))

-- The new entry of `parseINT` before its section is read.
unfoldable pub blank_int : IntLibrary → Logs → IntEntry
blank_int lib logs = record {
  named = false;
  entry = record (lib.fresh) {
    log_level = lib.log_level;
    mtu = pos 1500;
    log = referencelog "default" logs.loglist;
  };
}

-- `parseINT`: what is read stays in the list, but NULL is returned for a bad section.
unfoldable pub parse_int : IntLibrary → Cfg → IntStore → Outcome IntStore
parse_int lib c st = do
  let r = int_statements lib c (blank_int lib st.logs, st.logs)
  added ← attach (fresh_tail lib.next_null) st.iflist (r.0).0 st.chains
  done
      (record { chains = added.1; iflist = if r.1 then some (added.0).0 else none; logs = (r.0).1 })

-- The first loop of `findINT`.
unfoldable pub int_sections : IntLibrary → Cfg → IntStore → Outcome IntStore
int_sections lib null st = done st
int_sections lib (assignment lvalue rvalue next) st = int_sections lib next st
int_sections lib (block lvalue inner next) st =
    (if str_eq lvalue "interface" then parse_int lib inner st else done st)
    >>= int_sections lib next

-- The walk from an entry to the last one, with whether one has the name. The `next` of an entry is
-- read before its name.
unfoldable pub has_ifname : String → List IntEntry → Tail → Outcome Bool
has_ifname name [] tail = done false
has_ifname name (e ∷ es) tail = elim es [ [] ↦ past tail e | e' ∷ es' ↦ done e ] >>= λ e.
    if e.named
    then if str_eq e.entry.ifname name then done true else has_ifname name es tail
    else fault

-- What `interface = name` comes to: a return, or a new entry to which `ifent` moves.
pub data Reference : Type 0 where
  duplicate : Reference
  added : ℕ × ℕ → IntStore → Reference

unfoldable pub new_reference : IntLibrary → String → Option ℕ → IntStore → Outcome Reference
new_reference lib name place st = do
  let e = record (lib.fresh) {
    ifname = name;
    mtu = pos 1500;
    log = referencelog "default" st.logs.loglist;
  }
  r ← attach ends place (record { named = true; entry = e }) st.chains
  done (
      added (r.0) (record st {
        chains = r.1;
        iflist = elim place [ none ↦ some (r.0).0 | some n ↦ st.iflist ];
      }))

-- The first argument after the name is `ifent`.
unfoldable pub add_reference : IntLibrary → String → Option (ℕ × ℕ) → IntStore → Outcome Reference
add_reference lib name none st = new_reference lib name none st
add_reference lib name (some (n, k)) st = do
  chain ← valid (get_elem? st.chains n)
  found ← has_ifname name (drop k chain.entries) chain.tail
  if found then done duplicate else new_reference lib name (some n) st

abbrev pub head_of : Option ℕ → Option (ℕ × ℕ)
head_of none = none
head_of (some n) = some (n, 0)

-- The second loop of `findINT`, with the search of a block: first its sections, then its references.
-- A name that is there ends the loop.
unfoldable pub int_references : IntLibrary → Cfg → Option (ℕ × ℕ) → IntStore → Outcome IntStore
int_references lib null ifent st = done st
int_references lib (assignment lvalue rvalue next) ifent st =
    if str_eq lvalue "interface"
    then (add_reference lib rvalue ifent st >>= λ r. elim r [
      | duplicate ↦ done st
      | added ifent' st' ↦ int_references lib next (some ifent') st'
    ])
    else int_references lib next ifent st
int_references lib (block lvalue inner next) ifent st =
    (int_sections lib inner st >>= λ st'. int_references lib inner (head_of st'.iflist) st')
    >>= int_references lib next ifent

-- `findINT` over the children of the header of the tree.
unfoldable pub find_interfaces : IntLibrary → Cfg → IntStore → Outcome IntStore
find_interfaces lib c st =
    int_sections lib c st >>= λ st'. int_references lib c (head_of st'.iflist) st'
