-- ===== src/Rcfg/Check/Shape.antt =====
-- What the checks of the tokens let through.
use qaoed.Base.{
  ℕ, ◌≡◌, refl, arith, String, str_eq, List, [], ◌∷◌, Option, none, some, Bool, true, false, inl,
  inr, Bool-cases, not, ◌&&◌, ◌||◌, Outcome, done, fault, blocked, valid, ◌>>=◌, ◌==◌, ==_iff, ltb,
  if◌then◌else◌, get_elem?, All,
}
use qaoed.Rcfg.{first}
use qaoed.Rcfg.Check.{
  Verdict, accepted, rejected, exited, and_then, datatype, arglist, count_token, countbraces,
  checktokenlist, Scanner, pass_if, scan_value, check_block, check_assignment, check_entry,
  check_entries, check_types, checkdatatype, check_arg, check_arglist, checkargs, validatetokens,
}

-- A token at a place begins with the character.
abbrev pub StartsAt : ℕ → ℕ → List String → Type 0
StartsAt i c ts = (t : String) × (get_elem? ts i ≡ some t) × (first t ≡ c)

-- What follows a keyword of the format: the bracket of a block, or an equals sign, a value and a
-- semicolon.
abbrev pub Follows : String → List String → Type 0
Follows format ts =
    if first format == b'b' then StartsAt 0 b'{' ts else (StartsAt 0 b'=' ts × StartsAt 2 b';' ts)

-- Each keyword of the table that is not itself the value of an assignment is followed by its kind.
abbrev pub Shaped : Bool → List String → Type 0
Shaped skip [] = Unit
Shaped skip (t ∷ ts) =
    (if skip
      then Unit
      else All (λ (e : String × String). if str_eq t e.0 then Follows e.1 ts else Unit) datatype)
    × Shaped (not skip && (first t == b'=')) ts

-- For each keyword with a list of arguments, the token two places on is a part of its text.
abbrev pub Allowed : (String → String → Bool) → List String → Type 0
Allowed strstr [] = Unit
Allowed strstr (t ∷ ts) =
    All
      (λ (e : String × String).
        if str_eq t e.0
        then ((value : String) × (get_elem? ts 1 ≡ some value) × (strstr e.1 value ≡ true))
        else Unit)
      arglist
    × Allowed strstr ts

abbrev Accepts : Outcome Verdict → Type 0
Accepts m = m ≡ done accepted

and_then-Accepts : (m n : Outcome Verdict) → Accepts (and_then m n) → Accepts m × Accepts n
unfolding and_then
and_then-Accepts (done accepted) n h = (refl, h)
and_then-Accepts (done rejected) n h = absurd (cc h)
and_then-Accepts (done exited) n h = absurd (cc h)
and_then-Accepts fault n h = absurd (cc h)
and_then-Accepts blocked n h = absurd (cc h)

pass_if-Accepts : (b : Bool) → Accepts (pass_if b) → b ≡ true
pass_if-Accepts true h = refl
pass_if-Accepts false h = absurd (cc h)

check_block-StartsAt : (ts : List String) → Accepts (check_block ts) → StartsAt 0 b'{' ts
unfolding check_block
check_block-StartsAt [] h = absurd (cc h)
check_block-StartsAt (t ∷ ts) h =
    (t, refl, (==_iff (first t) b'{').0 (pass_if-Accepts (first t == b'{') h))

check_assignment-StartsAt :
    (sscanf : Scanner) (format : String) (ts : List String)
    → Accepts (check_assignment sscanf format ts)
    → StartsAt 0 b'=' ts × StartsAt 2 b';' ts
unfolding check_assignment
check_assignment-StartsAt sscanf format [] h = absurd (cc h)
check_assignment-StartsAt sscanf format (e ∷ []) h = absurd (cc h)
check_assignment-StartsAt sscanf format (e ∷ value ∷ []) h =
    let a = and_then-Accepts (pass_if (first e == b'=')) _ h in
    let b = and_then-Accepts (scan_value sscanf format value) (done exited) a.1 in absurd (cc (b.1))
check_assignment-StartsAt sscanf format (e ∷ value ∷ end ∷ ts) h =
    let a = and_then-Accepts (pass_if (first e == b'=')) _ h in
    let b = and_then-Accepts (scan_value sscanf format value) _ a.1 in
    (
      (e, refl, (==_iff (first e) b'=').0 (pass_if-Accepts (first e == b'=') a.0)),
      (end, refl, (==_iff (first end) b';').0 (pass_if-Accepts (first end == b';') b.1)),
    )

-- The formats of the table: that of a block, or one of `sscanf`.
abbrev IsFormat : String → Type 0
IsFormat format =
    (first format == b'b') || ((first format == b'"') || (first format == b'%')) ≡ true

check_entry-Follows :
    (sscanf : Scanner) (t : String) (ts : List String) (e : String × String)
    → IsFormat e.1
    → Accepts (check_entry sscanf t ts e)
    → if str_eq t e.0 then Follows e.1 ts else Unit
unfolding check_entry
check_entry-Follows sscanf t ts (keyword, format) is_format h =
    tested (str_eq t keyword) (first format == b'b')
      ((first format == b'"') || (first format == b'%')) is_format h
  where
    tested :
        (same b a : Bool)
        → b || a ≡ true
        → Accepts (
            if same
            then and_then
                (if b then check_block ts else done accepted)
                (if a then check_assignment sscanf format ts else done accepted)
            else done accepted)
        → if same
          then if b then StartsAt 0 b'{' ts else (StartsAt 0 b'=' ts × StartsAt 2 b';' ts)
          else Unit
    tested false b a f h = tt
    tested true true a f h = check_block-StartsAt ts (and_then-Accepts (check_block ts) _ h).0
    tested true false true f h =
        check_assignment-StartsAt sscanf format ts (and_then-Accepts (done accepted) _ h).1
    tested true false false f h = absurd (cc f)

check_entries-Follows :
    (sscanf : Scanner) (t : String) (ts : List String) (entries : List (String × String))
    → All (λ (e : String × String). IsFormat e.1) entries
    → Accepts (check_entries sscanf t ts entries)
    → All (λ (e : String × String). if str_eq t e.0 then Follows e.1 ts else Unit) entries
unfolding check_entries
check_entries-Follows sscanf t ts [] f h = tt
check_entries-Follows sscanf t ts (e ∷ es) f h =
    let a = and_then-Accepts (check_entry sscanf t ts e) _ h in
    (check_entry-Follows sscanf t ts e f.0 a.0, check_entries-Follows sscanf t ts es f.1 a.1)

datatype-IsFormat : All (λ (e : String × String). IsFormat e.1) datatype
unfolding first
datatype-IsFormat = search

check_types-Shaped :
    (sscanf : Scanner) (skip : Bool) (ts : List String)
    → Accepts (check_types sscanf skip ts)
    → Shaped skip ts
unfolding check_types
check_types-Shaped sscanf skip [] h = tt
check_types-Shaped sscanf true (t ∷ ts) h = (tt, check_types-Shaped sscanf false ts h)
check_types-Shaped sscanf false (t ∷ ts) h =
    let a = and_then-Accepts (check_entries sscanf t ts datatype) _ h in
    (
      check_entries-Follows sscanf t ts datatype datatype-IsFormat a.0,
      check_types-Shaped sscanf (first t == b'=') ts a.1,
    )

check_arglist-Allowed :
    (strstr : String → String → Bool) (t : String) (ts : List String)
    (entries : List (String × String))
    → Accepts (check_arglist strstr t ts entries)
    → All
        (λ (e : String × String).
          if str_eq t e.0
          then ((value : String) × (get_elem? ts 1 ≡ some value) × (strstr e.1 value ≡ true))
          else Unit)
        entries
unfolding check_arglist check_arg
check_arglist-Allowed strstr t ts [] h = tt
check_arglist-Allowed strstr t ts ((keyword, allowed) ∷ es) h =
    let a = and_then-Accepts (check_arg strstr t ts (keyword, allowed)) _ h in
    (tested (str_eq t keyword) (get_elem? ts 1) a.0, check_arglist-Allowed strstr t ts es a.1)
  where
    tested :
        (same : Bool) (o : Option String)
        → Accepts (
            if same
            then (valid o >>= λ value.
                if strstr allowed value then done accepted else done rejected)
            else done accepted)
        → if same
          then ((value : String) × (o ≡ some value) × (strstr allowed value ≡ true))
          else Unit
    tested false o h = tt
    tested true none h = absurd (cc h)
    tested true (some value) h = elim (Bool-cases (strstr allowed value)) [
      | inl e ↦ (value, refl, e)
      | inr e ↦
          let r : ◌≡◌ {A = Outcome Verdict} (done rejected) (done accepted) = rw e at h in
          absurd (cc r)
    ]

checkargs-Allowed :
    (strstr : String → String → Bool) (ts : List String)
    → Accepts (checkargs strstr ts)
    → Allowed strstr ts
unfolding checkargs
checkargs-Allowed strstr [] h = tt
checkargs-Allowed strstr (t ∷ ts) h =
    let a = and_then-Accepts (check_arglist strstr t ts arglist) _ h in
    (check_arglist-Allowed strstr t ts arglist a.0, checkargs-Allowed strstr ts a.1)

countbraces-eq :
    (tokens : List String)
    → Accepts (countbraces tokens)
    → count_token "{" tokens ≡ count_token "}" tokens
unfolding countbraces
countbraces-eq tokens h = counted (count_token "{" tokens) (count_token "}" tokens) h
  where
    counted :
        (right left : ℕ)
        → Accepts (if ltb left right || ltb right left then done rejected else done accepted)
        → right ≡ left
    counted right left h = ground arith

-- A token array that the checks accept has as many opening as closing brackets; in it each keyword of
-- the table, unless it is the value of an assignment, is followed by a bracket if it names a block,
-- and else by an equals sign, a value and a semicolon; and for each keyword with a list of arguments
-- strstr finds the token two places on in the text of that list, as a part of it, not as one of its
-- words.
pub validatetokens-Shaped :
    (sscanf : Scanner) (strstr : String → String → Bool) (tokens : List String)
    → validatetokens sscanf strstr tokens ≡ done accepted
    → (count_token "{" tokens ≡ count_token "}" tokens)
      × Shaped false tokens
      × Allowed strstr tokens
unfolding validatetokens checkdatatype
validatetokens-Shaped sscanf strstr tokens h =
    let a = and_then-Accepts (countbraces tokens) _ h in
    let b = and_then-Accepts (checktokenlist tokens) _ a.1 in
    let c = and_then-Accepts (checkdatatype sscanf tokens) _ b.1 in
    (
      countbraces-eq tokens a.0,
      check_types-Shaped sscanf false tokens c.0,
      checkargs-Allowed strstr tokens c.1,
    )
