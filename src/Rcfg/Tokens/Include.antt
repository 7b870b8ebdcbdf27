-- ===== src/Rcfg/Tokens/Include.antt =====
-- rcfg/readconf.c: the end of tokenize. The lines of the file are checked, and the files that an
-- `include` names are read with the same function. The tokens of these go to the end of the array.
use qaoed.Base.{
  ℕ, zero, suc, ◌+◌, String, str_eq, List, [], ◌∷◌, ◌++◌, Option, none, some, Bool, Outcome, done,
  blocked, ◌>>=◌, if◌then◌else◌, length,
}
use qaoed.Rcfg.{token}
use qaoed.Rcfg.Check.{Verdict, accepted, rejected, exited, Scanner, validatetokens}
use qaoed.Rcfg.Tokens.{Scan, scan_lines, unread}

-- What the function returns: the tokens, or NULL. It may also end the program.
pub data Tokenized : Type 0 where
  parsed : List String → Tokenized
  failed : Tokenized
  ended : Tokenized

-- The files: `glob` gives the names that match a pattern, or an error, and `fopen` with `fgets` the
-- lines of a file that opens.
pub record Files : Type 0 where
  pub glob : String → Option (List String)
  pub fopen : String → Option (List String)

pub record Checks : Type 0 where
  pub sscanf : Scanner
  pub strstr : String → String → Bool

-- `tokenize` on the lines of a file.
abbrev pub Tokenizer : Type 0
Tokenizer = List String → Outcome Tokenized

unfoldable pub append_tokens : List String → Tokenized → Tokenized
append_tokens tokens (parsed new) = parsed (tokens ++ new)
append_tokens tokens failed = failed
append_tokens tokens ended = ended

abbrev pub and_go_on : Outcome Tokenized → (List String → Outcome Tokenized) → Outcome Tokenized
and_go_on m next =
    m >>= λ r. elim r [ parsed tokens ↦ next tokens | failed ↦ done failed | ended ↦ done ended ]

unfoldable pub include_file : Tokenizer → List String → Option (List String) → Outcome Tokenized
include_file tokenize tokens none = done failed
include_file tokenize tokens (some lines) = do new ← tokenize lines; done (append_tokens tokens new)

unfoldable pub include_files : Files → Tokenizer → List String → List String → Outcome Tokenized
include_files files tokenize [] tokens = done (parsed tokens)
include_files files tokenize (filename ∷ filenames) tokens =
    and_go_on (include_file tokenize tokens (files.fopen filename))
      (include_files files tokenize filenames)

unfoldable pub include_matches :
    Files → Tokenizer → Option (List String) → List String → Outcome Tokenized
include_matches files tokenize none tokens = done failed
include_matches files tokenize (some filenames) tokens =
    include_files files tokenize filenames tokens

unfoldable pub include_at : Files → Tokenizer → ℕ → List String → Outcome Tokenized
include_at files tokenize i tokens = do
  t ← token tokens i
  if str_eq t "include"
      then (token tokens (i + 2) >>= λ name.
          include_matches files tokenize (files.glob name) tokens)
      else done (parsed tokens)

-- The loop over the tokens that were there before, of which `n` are left.
unfoldable pub include_all : Files → Tokenizer → ℕ → ℕ → List String → Outcome Tokenized
include_all files tokenize zero i tokens = done (parsed tokens)
include_all files tokenize (suc n) i tokens =
    and_go_on (include_at files tokenize i tokens) (include_all files tokenize n (i + 1))

unfoldable pub include_checked : Files → Tokenizer → List String → Verdict → Outcome Tokenized
include_checked files tokenize tokens accepted = include_all files tokenize (length tokens) 0 tokens
include_checked files tokenize tokens rejected = done failed
include_checked files tokenize tokens exited = done ended

-- After the last line.
unfoldable pub finish_tokens : Checks → Files → Tokenizer → Option Scan → Outcome Tokenized
finish_tokens checks files tokenize none = done failed
finish_tokens checks files tokenize (some st) = if st.comment then done failed else elim st.tokens [
  | [] ↦ done failed
  | t ∷ ts ↦
      validatetokens checks.sscanf checks.strstr (t ∷ ts)
      >>= include_checked files tokenize (t ∷ ts)
]

-- The files that are open at a time are one less than the fuel; a file that includes itself makes
-- the program read on until its stack is full.
unfoldable pub tokenize : Checks → Files → ℕ → Tokenizer
tokenize checks files zero lines = blocked
tokenize checks files (suc fuel) lines = do
  st ← scan_lines (some unread) lines
  finish_tokens checks files (tokenize checks files fuel) st
