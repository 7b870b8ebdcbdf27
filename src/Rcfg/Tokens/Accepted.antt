-- ===== src/Rcfg/Tokens/Accepted.antt =====
-- The tokens of a file with its included files: those of the file itself are checked and come first.
use qaoed.Base.{
  ℕ, zero, suc, ◌+◌, ◌≡◌, ◌≢◌, refl, sym, ap, ◌∙◌, String, str_eq, List, [], ◌∷◌, ◌++◌, append-nil,
  append_assoc, Option, none, some, inl, inr, Bool, Bool-cases, false, Outcome, done, fault,
  blocked, length,
}
use qaoed.Base.Results.{>>=-eq-done}
use qaoed.Rcfg.{token}
use qaoed.Rcfg.Check.{Verdict, accepted, rejected, exited, validatetokens}
use qaoed.Rcfg.Tokens.{Scan, scan_lines, unread}
use qaoed.Rcfg.Tokens.Include.{
  Tokenized, parsed, failed, ended, Files, Checks, Tokenizer, append_tokens, and_go_on,
  include_file, include_files, include_matches, include_at, include_all, include_checked,
  finish_tokens, tokenize,
}

abbrev pub Extends : List String → List String → Type 0
Extends base tokens = (more : List String) × (tokens ≡ base ++ more)

Extends-refl : (base : List String) → Extends base base
Extends-refl base = ([], sym (append-nil base))

Extends-trans : (a b c : List String) → Extends a b → Extends b c → Extends a c
Extends-trans a b c (m, e) (m', e') = (m ++ m', e' ∙ ap (λ l. l ++ m') e ∙ append_assoc a m m')

and_go_on-parsed :
    (m : Outcome Tokenized) (next : List String → Outcome Tokenized) (tokens : List String)
    → and_go_on m next ≡ done (parsed tokens)
    → (middle : List String) × (m ≡ done (parsed middle)) × (next middle ≡ done (parsed tokens))
and_go_on-parsed (done (parsed middle)) next tokens h = (middle, refl, h)
and_go_on-parsed (done failed) next tokens h = absurd (cc h)
and_go_on-parsed (done ended) next tokens h = absurd (cc h)
and_go_on-parsed fault next tokens h = absurd (cc h)
and_go_on-parsed blocked next tokens h = absurd (cc h)

parsed-injective :
    (a b : List String) → ◌≡◌ {A = Outcome Tokenized} (done (parsed a)) (done (parsed b)) → a ≡ b
parsed-injective a b h = cc h

append_tokens-Extends :
    (tokens : List String) (new : Tokenized) (all : List String)
    → append_tokens tokens new ≡ parsed all
    → Extends tokens all
unfolding append_tokens
append_tokens-Extends tokens (parsed new) all h = (new, cc h)
append_tokens-Extends tokens failed all h = absurd (cc h)
append_tokens-Extends tokens ended all h = absurd (cc h)

-- A step of the loops that keeps the tokens that were there.
abbrev Keeps : (List String → Outcome Tokenized) → Type 0
Keeps step = (tokens all : List String) → step tokens ≡ done (parsed all) → Extends tokens all

and_go_on-Keeps :
    (step next : List String → Outcome Tokenized)
    → Keeps step
    → Keeps next
    → Keeps (λ tokens. and_go_on (step tokens) next)
and_go_on-Keeps step next keeps keeps' tokens all h =
    let (middle, e, e') = and_go_on-parsed (step tokens) next all h in
    Extends-trans tokens middle all (keeps tokens middle e) (keeps' middle all e')

done-Keeps : Keeps (λ tokens. done (parsed tokens))
done-Keeps tokens all h =
    let e = parsed-injective tokens all h in ([], sym e ∙ sym (append-nil tokens))

module _ (files : Files) (tokenize_file : Tokenizer) where
  include_file-Keeps :
      (r : Option (List String)) → Keeps (λ tokens. include_file tokenize_file tokens r)
  unfolding include_file
  include_file-Keeps none tokens all h = absurd (cc h)
  include_file-Keeps (some lines) tokens all h =
      let (new, e, e') = >>=-eq-done (tokenize_file lines) _ h in
      append_tokens-Extends tokens new all (cc e')

  include_files-Keeps : (names : List String) → Keeps (include_files files tokenize_file names)
  unfolding include_files
  include_files-Keeps [] = done-Keeps
  include_files-Keeps (name ∷ names) =
      and_go_on-Keeps _ _ (include_file-Keeps (files.fopen name)) (include_files-Keeps names)

  include_matches-Keeps :
      (names : Option (List String)) → Keeps (include_matches files tokenize_file names)
  unfolding include_matches
  include_matches-Keeps none tokens all h = absurd (cc h)
  include_matches-Keeps (some names) tokens all h = include_files-Keeps names tokens all h

  include_at-Keeps : (i : ℕ) → Keeps (include_at files tokenize_file i)
  unfolding include_at
  include_at-Keeps i tokens all h =
      let (t, e, h1) = >>=-eq-done (token tokens i) _ h in
      elim (Bool-cases (str_eq t "include")) [
        | inl b ↦
            let (name, e', h2) = >>=-eq-done (token tokens (i + 2)) _ (rw b at h1) in
            include_matches-Keeps (files.glob name) tokens all h2
        | inr b ↦ done-Keeps tokens all (rw b at h1)
      ]

  include_all-Keeps : (n i : ℕ) → Keeps (include_all files tokenize_file n i)
  unfolding include_all
  include_all-Keeps zero i = done-Keeps
  include_all-Keeps (suc n) i =
      and_go_on-Keeps _ _ (include_at-Keeps i) (include_all-Keeps n (i + 1))

  include_checked-Keeps :
      (v : Verdict) (tokens all : List String)
      → include_checked files tokenize_file tokens v ≡ done (parsed all)
      → (v ≡ accepted) × Extends tokens all
  unfolding include_checked
  include_checked-Keeps accepted tokens all h =
      (refl, include_all-Keeps (length tokens) 0 tokens all h)
  include_checked-Keeps rejected tokens all h = absurd (cc h)
  include_checked-Keeps exited tokens all h = absurd (cc h)

-- What a result says of the state after the last line: no comment is open, there are tokens, the
-- checks accept them, and the result begins with them.
abbrev pub Accepts : Checks → Scan → List String → Type 0
Accepts checks st all =
    (st.comment ≡ false)
    × (st.tokens ≢ [])
    × (validatetokens checks.sscanf checks.strstr st.tokens ≡ done accepted)
    × Extends st.tokens all

checked_tokens-Accepts :
    (checks : Checks) (files : Files) (again : Tokenizer) (comment quotation : Bool)
    (tokens all : List String)
    → comment ≡ false
    → finish_tokens checks files again
        (some (record { comment = comment; quotation = quotation; tokens = tokens }))
      ≡ done (parsed all)
    → Accepts checks (record { comment = comment; quotation = quotation; tokens = tokens }) all
unfolding finish_tokens
checked_tokens-Accepts checks files again comment quotation [] all b h = absurd (cc (rw b at h))
checked_tokens-Accepts checks files again comment quotation (t ∷ ts) all b h =
    let (v, e, h') =
      >>=-eq-done (validatetokens checks.sscanf checks.strstr (t ∷ ts)) _ (rw b at h) in
    let (ok, keeps) = include_checked-Keeps files again v (t ∷ ts) all h' in
    (b, λ n. absurd (cc n), e ∙ ap done ok, keeps)

finish_tokens-Accepts :
    (checks : Checks) (files : Files) (again : Tokenizer) (st : Scan) (all : List String)
    → finish_tokens checks files again (some st) ≡ done (parsed all)
    → Accepts checks st all
unfolding finish_tokens
finish_tokens-Accepts checks files again st all h = elim (Bool-cases st.comment) [
  | inl b ↦ absurd (cc (rw b at h))
  | inr b ↦ checked_tokens-Accepts checks files again st.comment st.quotation st.tokens all b h
]

finish_tokens-some :
    (checks : Checks) (files : Files) (again : Tokenizer) (r : Option Scan) (all : List String)
    → finish_tokens checks files again r ≡ done (parsed all)
    → (st : Scan) × (r ≡ some st) × Accepts checks st all
unfolding finish_tokens
finish_tokens-some checks files again none all h = absurd (cc h)
finish_tokens-some checks files again (some st) all h =
    (st, refl, finish_tokens-Accepts checks files again st all h)

-- If a file is read with success, its lines were read with success, no comment was open at its end
-- and it has tokens of its own. The checks accept these tokens, and the result begins with them,
-- whatever files are included.
pub tokenize-Accepts :
    (checks : Checks) (files : Files) (fuel : ℕ) (lines all : List String)
    → tokenize checks files fuel lines ≡ done (parsed all)
    → (st : Scan) × (scan_lines (some unread) lines ≡ done (some st)) × Accepts checks st all
unfolding tokenize
tokenize-Accepts checks files zero lines all h = absurd (cc h)
tokenize-Accepts checks files (suc fuel) lines all h =
    let (r, e, h') = >>=-eq-done (scan_lines (some unread) lines) _ h in
    let (st, e', ok) = finish_tokens-some checks files (tokenize checks files fuel) r all h' in
    (st, e ∙ ap done e', ok)
