-- ===== src/Rcfg.antt =====
-- rcfg/readconf.c: the tokens of a configuration file become a tree (newcfg, recursiveparse,
-- processtokens). The token array is a list, and a read past it is a fault; `malloc` and `strdup`
-- give fresh memory, since the program ends where they do not.
pub mod Check
pub mod Tokens
pub mod RoundTrip
pub mod Returns
pub mod Readconfig
use qaoed.Base.{
  ℕ, zero, suc, ◌+◌, ◌-◌, String, List, [], ◌∷◌, ◌++◌, Option, none, some, Bool, true, false, ◌&&◌,
  Outcome, done, fault, blocked, valid, ◌>>=◌, ◌==◌, ltb, if◌then◌else◌, length, get_elem?,
}
use Prim.Native.Char.{code}

-- `struct cfg`: what `next` points to is the last field.
pub data Cfg : Type 0 where
  null : Cfg
  assignment : String → String → Cfg → Cfg
  block : String → Cfg → Cfg → Cfg

-- `s[0]`
unfoldable pub first : String → ℕ
first String.[] = 0
first (String.◌∷◌ c s) = code c

-- `tokens->tokens[i]`
abbrev pub token : List String → ℕ → Outcome String
token tokens i = valid (get_elem? tokens i)

-- What a token does to the curly bracket counter inside a block.
abbrev pub count_bracket : ℕ → ℕ → ℕ
count_bracket c cbc = if c == b'{' then cbc + 1 else if c == b'}' then cbc - 1 else cbc

-- The search for the end of a block over the given number of tokens, with the counter it leaves.
unfoldable pub find_end : ℕ → List String → ℕ → ℕ → Outcome (Option ℕ × ℕ)
find_end zero tokens j cbc = done (none, cbc)
find_end (suc n) tokens j cbc = do
  t ← token tokens j
  let cbc' = count_bracket (first t) cbc
  let rest = find_end n tokens (j + 1) cbc'
  if (first t == b'}') && (cbc' == 0) then done (some j, 0) else rest

-- The loop of `recursiveparse` that goes on with `parse i te cbc`; the inner search and the
-- recursive call go by the same function.
abbrev pub Loop : Type 0
Loop = ℕ → ℕ → ℕ → Outcome Cfg

unfoldable pub parse_block : Loop → List String → ℕ → ℕ → Option ℕ × ℕ → Outcome Cfg
parse_block parse tokens i te (none, cbc) = parse (i + 1) te cbc
parse_block parse tokens i te (some j, cbc) = do
  lvalue ← token tokens i
  inner ← parse (i + 2) j 0
  next ← parse (j + 1) te cbc
  done (block lvalue inner next)

unfoldable pub parse_assignment : Loop → List String → ℕ → ℕ → ℕ → Outcome Cfg
parse_assignment parse tokens i te cbc = do
  lvalue ← token tokens i
  rvalue ← token tokens (i + 2)
  next ← parse (i + 4) te cbc
  done (assignment lvalue rvalue next)

-- The switch on the token after the one at `i`; any other character is only logged.
unfoldable pub parse_at : Loop → List String → ℕ → ℕ → ℕ → ℕ → Outcome Cfg
parse_at parse tokens i te cbc c =
    if c == b'{'
    then find_end (te - (i + 2)) tokens (i + 2) (cbc + 1) >>= parse_block parse tokens i te
    else if c == b'='
    then parse_assignment parse tokens i te cbc
    else parse (i + 1) te cbc

-- `recursiveparse`: every round and every block takes at least one token, so that fuel above their
-- number is enough.
unfoldable pub parse_from : ℕ → List String → Loop
parse_from zero tokens i te cbc = blocked
parse_from (suc fuel) tokens i te cbc =
    if ltb (i + 1) te
    then (token tokens (i + 1) >>= λ t. parse_at (parse_from fuel tokens) tokens i te cbc (first t))
    else done null

unfoldable pub recursiveparse : List String → ℕ → ℕ → Outcome Cfg
recursiveparse tokens ts te = parse_from (te - ts + 1) tokens ts te 0

-- `processtokens`: the header of the tree bears the name of the file.
unfoldable pub processtokens : List String → String → Outcome Cfg
processtokens tokens filename = do
  inner ← recursiveparse tokens 0 (length tokens)
  done (block filename inner null)

-- The tokens that a tree is written with.
unfoldable pub tokens_of : Cfg → List String
tokens_of null = []
tokens_of (assignment lvalue rvalue next) = lvalue ∷ "=" ∷ rvalue ∷ ";" ∷ tokens_of next
tokens_of (block lvalue inner next) = lvalue ∷ "{" ∷ (tokens_of inner ++ ("}" ∷ tokens_of next))
