-- ===== src/Rcfg/Readconfig.antt =====
-- rcfg/readconf.c: readconfig, which reads a file into a tree. The token array is freed afterwards;
-- the tree has copies of its own.
use qaoed.Base.{ℕ, String, none, some, Outcome, done, ◌>>=◌}
use qaoed.Rcfg.{Cfg, processtokens}
use qaoed.Rcfg.Tokens.Include.{Tokenized, parsed, failed, ended, Files, Checks, tokenize}

-- The tree, or NULL; or a check ended the program.
pub data Reading : Type 0 where
  config : Cfg → Reading
  no_config : Reading
  program_ended : Reading

unfoldable pub to_config : String → Tokenized → Outcome Reading
to_config filename (parsed tokens) = do c ← processtokens tokens filename; done (config c)
to_config filename failed = done no_config
to_config filename ended = done program_ended

-- The fuel is one more than the depth of the includes.
unfoldable pub readconfig : Checks → Files → ℕ → String → Outcome Reading
readconfig checks files fuel filename = elim (files.fopen filename) [
  | none ↦ done no_config
  | some lines ↦ tokenize checks files fuel lines >>= to_config filename
]
