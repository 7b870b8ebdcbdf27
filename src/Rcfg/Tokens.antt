-- ===== src/Rcfg/Tokens.antt =====
-- rcfg/readconf.c: tokenize. A line is what `fgets` brings, at most 398 characters; a pointer into it
-- is what is left of it. What `glob` and `fopen` find is an argument, and memory does not run out.
pub mod Ends
pub mod Include
pub mod Accepted
use qaoed.Base.{
  ℕ, zero, suc, ◌+◌, ◌-◌, String, str_eq, List, [], ◌∷◌, ◌++◌, Option, none, some, Bool, true,
  false, not, ◌&&◌, ◌||◌, Outcome, done, fault, blocked, valid, ◌>>=◌, ◌==◌, ltb, if◌then◌else◌,
  length, get_elem?, codes,
}
use Prim.Native.Char.{code}
use qaoed.Rcfg.{first}
use qaoed.Rcfg.Check.{Verdict, accepted, rejected, exited, Scanner, validatetokens}

abbrev pub is_blank : ℕ → Bool
is_blank c = (c == b' ') || (c == b'\t')

unfoldable pub skip_blanks : String → String
skip_blanks String.[] = String.[]
skip_blanks (String.◌∷◌ c s) =
    let rest = skip_blanks s in if is_blank (code c) then rest else String.◌∷◌ c s

unfoldable pub without_first : String → String
without_first String.[] = String.[]
without_first (String.◌∷◌ c s) = s

-- A line ends at its end or at a carriage return or line feed.
abbrev pub is_end : ℕ → Bool
is_end c = (c == 0) || ((c == 13) || (c == 10))

-- What follows the end of a comment, if that is in the line.
unfoldable pub after_comment : String → Option String
after_comment String.[] = none
after_comment (String.◌∷◌ c s) =
    let rest = after_comment s in
    if (code c == b'*') && (first s == b'/') then some (without_first s) else rest

-- The characters that end a token before them, and those that end it after them.
abbrev pub ends_before : ℕ → Bool
ends_before c =
    is_end c
    || ((c == b'#')
        || ((c == b';') || ((c == b'=') || ((c == b'{') || ((c == b'}') || (c == b'\t'))))))

abbrev pub ends_after : ℕ → Bool
ends_after c =
    (c == b'=')
    || ((c == 10)
        || ((c == 13)
            || ((c == b'\t') || ((c == b'#') || ((c == b'{') || ((c == b'}') || (c == b';')))))))

-- The walk to the end of a token: its characters but the first, the last of them (`*tend`), what is
-- left of the line, and whether a quotation is open.
pub record Walk : Type 0 where
  pub token : String
  pub last : ℕ
  pub rest : String
  pub quotation : Bool

-- Whether the walk stops between the character `c` and the character `d` behind it.
abbrev pub stops : Bool → ℕ → ℕ → Bool
stops quotation c d = (ends_before d || ends_after c) || ((d == b' ') && not quotation)

abbrev pub toggle : Bool → ℕ → ℕ → Bool
toggle quotation c d = if (c == b'"') || (d == b'"') then not quotation else quotation

unfoldable pub walk : Bool → ℕ → String → Walk
walk quotation c String.[] = record {
  token = String.[];
  last = c;
  rest = String.[];
  quotation = quotation;
}
walk quotation c (String.◌∷◌ d s) =
    let w = walk (toggle quotation c (code d)) (code d) s in
    if stops quotation c (code d)
    then record { token = String.[]; last = c; rest = String.◌∷◌ d s; quotation = quotation }
    else record w { token = String.◌∷◌ d w.token }

unfoldable pub size : String → ℕ
size String.[] = 0
size (String.◌∷◌ c s) = size s + 1

unfoldable pub take_first : ℕ → String → String
take_first zero s = String.[]
take_first (suc n) String.[] = String.[]
take_first (suc n) (String.◌∷◌ c s) = String.◌∷◌ c (take_first n s)

-- The token without its quotation marks; none is the negative `tlen`.
unfoldable pub strip : String → ℕ → Option String
strip t last =
    let start = if first t == b'"' then without_first t else t in
    let removed = (if first t == b'"' then 1 else 0) + (if last == b'"' then 1 else 0) in
    if ltb removed (size t) then some (take_first (size t - removed) start) else none

-- The variables of `tokenize` between two rounds; `tokens == NULL` is the empty list.
pub record Scan : Type 0 where
  pub comment : Bool
  pub quotation : Bool
  pub tokens : List String

-- After a round: back to `start`, on to the next line, or out of the function with NULL.
pub data Round : Type 0 where
  start : String → Scan → Round
  next_line : Scan → Round
  return_null : Round

unfoldable pub skip_comment : Scan → Option String → Round
skip_comment st none = start String.[] (record st { comment = true })
skip_comment st (some rest) = start rest (record st { comment = false })

unfoldable pub add_token : Scan → String → Option String → Round
add_token st rest none = return_null
add_token st rest (some t) = start rest (record st { tokens = st.tokens ++ (t ∷ []) })

-- The token at `p`.
unfoldable pub extract : Scan → String → Round
extract st String.[] = next_line st
extract st (String.◌∷◌ c s) =
    let w = walk st.quotation (code c) s in
    let st' = record st { quotation = w.quotation } in
    if is_end w.last || (w.last == b'#')
    then next_line st'
    else add_token st' w.rest (strip (String.◌∷◌ c w.token) w.last)

abbrev pub opens_comment : String → Bool
opens_comment p = (first p == b'/') && (first (without_first p) == b'*')

unfoldable pub round : Scan → String → Round
round st line =
    let p = skip_blanks line in
    if is_end (first p)
    then next_line st
    else if st.comment || opens_comment p
    then skip_comment st (after_comment p)
    else extract st p

-- The rounds over a line: each takes a character at least, so that fuel above their number is enough.
-- None is the return of NULL.
unfoldable pub go_on : (Scan → String → Outcome (Option Scan)) → Round → Outcome (Option Scan)
go_on again (start rest st) = again st rest
go_on again (next_line st) = done (some st)
go_on again return_null = done none

unfoldable pub scan_rounds : ℕ → Scan → String → Outcome (Option Scan)
scan_rounds zero st line = blocked
scan_rounds (suc fuel) st line = go_on (scan_rounds fuel) (round st line)

unfoldable pub scan_line : Scan → String → Outcome (Option Scan)
scan_line st line = scan_rounds (size line + 1) st line

unfoldable pub scan_lines : Option Scan → List String → Outcome (Option Scan)
scan_lines none lines = done none
scan_lines (some st) [] = done (some st)
scan_lines (some st) (line ∷ lines) = do r ← scan_line st line; scan_lines r lines

abbrev pub unread : Scan
unread = record { comment = false; quotation = false; tokens = [] }
