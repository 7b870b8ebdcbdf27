-- ===== src/Rcfg/RoundTrip.antt =====
-- A tree written as tokens is parsed back.
use qaoed.Base.{
  ℕ, zero, suc, ◌+◌, ◌-◌, ◌<◌, ◌≡◌, ◌≢◌, refl, sym, ap, ◌∙◌, arith, String, List, [], ◌∷◌, ◌++◌,
  some, true, false, Outcome, done, valid, ◌==◌, ltb, length, get_elem?, drop, append_assoc,
  append-nil, length-append,
}
use qaoed.Rcfg.{
  Cfg, null, assignment, block, first, token, find_end, parse_block, parse_assignment, parse_at,
  parse_from, recursiveparse, processtokens, tokens_of,
}

-- Neither a bracket nor the text of one.
abbrev pub IsWord : String → Type 0
IsWord s = (first s ≢ b'{') × (first s ≢ b'}')

-- No name and no value of the tree begins with a curly bracket.
abbrev pub IsPlain : Cfg → Type 0
IsPlain null = Unit
IsPlain (assignment lvalue rvalue next) = IsWord lvalue × IsWord rvalue × IsPlain next
IsPlain (block lvalue inner next) = IsWord lvalue × IsPlain inner × IsPlain next

module _ {ℓ} {A : Type ℓ} where
  drop-get_elem? : (i k : ℕ) (xs : List A) → get_elem? (drop i xs) k ≡ get_elem? xs (i + k)
  drop-get_elem? zero k xs = ap (get_elem? xs) (omega arith)
  drop-get_elem? (suc i) k [] = refl
  drop-get_elem? (suc i) k (x ∷ xs) =
      let e : suc i + k ≡ suc (i + k) = omega arith in rw e (drop-get_elem? i k xs)

  drop-add_one :
      (i : ℕ) (xs : List A) {y : A} {ys : List A} → drop i xs ≡ y ∷ ys → drop (i + 1) xs ≡ ys
  drop-add_one zero [] e = cc e
  drop-add_one zero (x ∷ xs) e =
      let h : ◌≡◌ {A = ℕ} (0 + 1) (suc zero) = omega arith in ap (λ k. drop k (x ∷ xs)) h ∙ cc e
  drop-add_one (suc i) [] e = cc e
  drop-add_one (suc i) (x ∷ xs) e =
      let h : suc i + 1 ≡ suc (i + 1) = omega arith in
      ap (λ k. drop k (x ∷ xs)) h ∙ drop-add_one i xs e

eq-false : (a b : ℕ) → a ≢ b → (a == b) ≡ false
eq-false a b h = ground arith

token_here :
    (tokens : List String) (i : ℕ) {t : String} {ts : List String}
    → drop i tokens ≡ t ∷ ts
    → token tokens i ≡ done t
token_here tokens i e =
    let h : i + 0 ≡ i = omega arith in
    ap (λ (k : ℕ). valid (get_elem? tokens k)) (sym h)
    ∙ ap valid (sym (drop-get_elem? i 0 tokens))
    ∙ rw e

find_end_word :
    (n : ℕ) (tokens : List String) (j cbc : ℕ) {t : String} {ts : List String}
    → drop j tokens ≡ t ∷ ts
    → IsWord t
    → find_end (suc n) tokens j cbc ≡ find_end n tokens (j + 1) cbc
unfolding find_end
find_end_word n tokens j cbc e w = rw (token_here tokens j e, eq-false _ _ w.0, eq-false _ _ w.1)

find_end_open :
    (n : ℕ) (tokens : List String) (j cbc : ℕ) {ts : List String}
    → drop j tokens ≡ "{" ∷ ts
    → find_end (suc n) tokens j cbc ≡ find_end n tokens (j + 1) (cbc + 1)
unfolding find_end first
find_end_open n tokens j cbc e = rw (token_here tokens j e) refl

find_end_close :
    (n : ℕ) (tokens : List String) (j cbc : ℕ) {ts : List String}
    → drop j tokens ≡ "}" ∷ ts
    → find_end (suc n) tokens j (suc (suc cbc)) ≡ find_end n tokens (j + 1) (suc cbc)
unfolding find_end first
find_end_close n tokens j cbc e = rw (token_here tokens j e) (
    let h : suc (suc cbc) - 1 ≡ suc cbc = omega arith in
    let g : (suc cbc == 0) ≡ false = ground arith in rw (h, g))

find_end_found :
    (n : ℕ) (tokens : List String) (j : ℕ) {ts : List String}
    → drop j tokens ≡ "}" ∷ ts
    → find_end (suc n) tokens j 1 ≡ done (some j, 0)
unfolding find_end first
find_end_found n tokens j e = rw (token_here tokens j e) refl

drop-append_length {ℓ} :
    {A : Type ℓ} (xs : List A) (i : ℕ) (ys : List A) {zs : List A}
    → drop i ys ≡ xs ++ zs
    → drop (i + length xs) ys ≡ zs
drop-append_length [] i ys e = ap (λ k. drop k ys) (omega arith) ∙ e
drop-append_length (x ∷ xs) i ys e =
    let h : i + suc (length xs) ≡ i + 1 + length xs = omega arith in
    ap (λ k. drop k ys) h ∙ drop-append_length xs (i + 1) ys (drop-add_one i ys e)

equals-IsWord : IsWord "="
unfolding first
equals-IsWord = (omega arith, omega arith)

semicolon-IsWord : IsWord ";"
unfolding first
semicolon-IsWord = (omega arith, omega arith)

-- The search for an end passes over a whole tree.
find_end-tokens_of :
    (c : Cfg) (n : ℕ) (tokens : List String) (j cbc : ℕ) (rest : List String)
    → IsPlain c
    → drop j tokens ≡ tokens_of c ++ rest
    → find_end (length (tokens_of c) + n) tokens j (suc cbc)
      ≡ find_end n tokens (j + length (tokens_of c)) (suc cbc)
unfolding tokens_of
find_end-tokens_of null n tokens j cbc rest p e =
    ap (λ m. find_end m tokens j (suc cbc)) (omega arith)
    ∙ ap (λ k. find_end n tokens k (suc cbc)) (omega arith)
find_end-tokens_of (assignment l r next) n tokens j cbc rest p e =
    let m = length (tokens_of next) in
    let h1 = drop-add_one j tokens e in
    let h2 = drop-add_one (j + 1) tokens h1 in
    let h3 = drop-add_one (j + 1 + 1) tokens h2 in
    let h4 = drop-add_one (j + 1 + 1 + 1) tokens h3 in
    ap (λ k. find_end k tokens j (suc cbc)) (omega arith)
    ∙ find_end_word (suc (suc (suc (m + n)))) tokens j (suc cbc) e p.0
    ∙ find_end_word (suc (suc (m + n))) tokens (j + 1) (suc cbc) h1 equals-IsWord
    ∙ find_end_word (suc (m + n)) tokens (j + 1 + 1) (suc cbc) h2 p.1
    ∙ find_end_word (m + n) tokens (j + 1 + 1 + 1) (suc cbc) h3 semicolon-IsWord
    ∙ find_end-tokens_of next n tokens (j + 1 + 1 + 1 + 1) cbc rest p.2 h4
    ∙ ap (λ k. find_end n tokens k (suc cbc)) (omega arith)
find_end-tokens_of (block l inner next) n tokens j cbc rest p e =
    let m = length (tokens_of next) in
    let k = length (tokens_of inner) in
    let h1 = drop-add_one j tokens e in
    let h2 =
      drop-add_one (j + 1) tokens h1 ∙ append_assoc (tokens_of inner) ("}" ∷ tokens_of next) rest in
    let h3 = drop-append_length (tokens_of inner) (j + 1 + 1) tokens h2 in
    let h4 = drop-add_one (j + 1 + 1 + k) tokens h3 in
    let len = length-append (tokens_of inner) ("}" ∷ tokens_of next) in
    ap (λ i. find_end i tokens j (suc cbc)) (omega (arith, len))
    ∙ find_end_word (suc (k + suc (m + n))) tokens j (suc cbc) e p.0
    ∙ find_end_open (k + suc (m + n)) tokens (j + 1) (suc cbc) h1
    ∙ ap (find_end (k + suc (m + n)) tokens (j + 1 + 1)) (omega arith)
    ∙ find_end-tokens_of inner (suc (m + n)) tokens (j + 1 + 1) (suc cbc)
        ("}" ∷ (tokens_of next ++ rest)) p.1 h2
    ∙ find_end_close (m + n) tokens (j + 1 + 1 + k) cbc h3
    ∙ find_end-tokens_of next n tokens (j + 1 + 1 + k + 1) cbc rest p.2 h4
    ∙ ap (λ i. find_end n tokens i (suc cbc)) (omega (arith, len))

parse_from_more :
    (fuel : ℕ) (tokens : List String) (i te cbc : ℕ) {t : String} {ts : List String}
    → i + 1 < te
    → drop (i + 1) tokens ≡ t ∷ ts
    → parse_from (suc fuel) tokens i te cbc
      ≡ parse_at (parse_from fuel tokens) tokens i te cbc (first t)
unfolding parse_from
parse_from_more fuel tokens i te cbc lt e =
    let more : ltb (i + 1) te ≡ true = ground arith in rw (more, token_here tokens (i + 1) e)

module _ (parse : ℕ → ℕ → ℕ → Outcome Cfg) (tokens : List String) (i te : ℕ) {l : String}
    {ts : List String} (e : drop i tokens ≡ l ∷ ts) where
  parse_at_equals :
      {r : String} {rest : List String} {next : Cfg}
      → drop (i + 2) tokens ≡ r ∷ rest
      → parse (i + 4) te 0 ≡ done next
      → parse_at parse tokens i te 0 (first "=") ≡ done (assignment l r next)
  unfolding parse_at parse_assignment first
  parse_at_equals e2 h = rw (token_here tokens i e, token_here tokens (i + 2) e2, h)

  parse_at_open :
      (j : ℕ) {inner next : Cfg}
      → find_end (te - (i + 2)) tokens (i + 2) 1 ≡ done (some j, 0)
      → parse (i + 2) j 0 ≡ done inner
      → parse (j + 1) te 0 ≡ done next
      → parse_at parse tokens i te 0 (first "{") ≡ done (block l inner next)
  unfolding parse_at parse_block first
  parse_at_open j f hi hn =
      let z : ◌≡◌ {A = ℕ} (0 + 1) 1 = omega arith in rw (z, f) (rw (token_here tokens i e, hi, hn))

-- The part of the array from an index on is the one from an equal index on.
drop_at {ℓ} :
    {A : Type ℓ} (a b : ℕ) (xs : List A) {ys : List A} → b ≡ a → drop a xs ≡ ys → drop b xs ≡ ys
drop_at a b xs e h = ap (λ k. drop k xs) e ∙ h

-- Parsing the tokens of a tree, wherever they stand in the array, gives the tree.
parse_from-tokens_of :
    (c : Cfg) (fuel : ℕ) (tokens : List String) (i te : ℕ) (rest : List String)
    → IsPlain c
    → drop i tokens ≡ tokens_of c ++ rest
    → te ≡ i + length (tokens_of c)
    → length (tokens_of c) < fuel
    → parse_from fuel tokens i te 0 ≡ done c
unfolding tokens_of
parse_from-tokens_of c zero tokens i te rest p e t h = absurd (omega arith)
parse_from-tokens_of null (suc fuel) tokens i te rest p e t h =
    let stop : ltb (i + 1) te ≡ false = ground arith in unfold parse_from in rw stop
parse_from-tokens_of (assignment l r next) (suc fuel) tokens i te rest p e t h =
    let h1 = drop-add_one i tokens e in
    let h2 = drop_at (i + 1 + 1) (i + 2) tokens (omega arith) (drop-add_one (i + 1) tokens h1) in
    let h3 = drop-add_one (i + 2) tokens h2 in
    let h4 =
      drop_at (i + 2 + 1 + 1) (i + 4) tokens (omega arith) (drop-add_one (i + 2 + 1) tokens h3) in
    parse_from_more fuel tokens i te 0 (omega arith) h1
    ∙ parse_at_equals (parse_from fuel tokens) tokens i te e h2
        (parse_from-tokens_of next fuel tokens (i + 4) te rest p.2 h4 (omega arith) (omega arith))
parse_from-tokens_of (block l inner next) (suc fuel) tokens i te rest p e t h =
    let m = length (tokens_of next) in
    let k = length (tokens_of inner) in
    let len = length-append (tokens_of inner) ("}" ∷ tokens_of next) in
    let h1 = drop-add_one i tokens e in
    let h2 =
      drop_at (i + 1 + 1) (i + 2) tokens (omega arith) (drop-add_one (i + 1) tokens h1)
      ∙ append_assoc (tokens_of inner) ("}" ∷ tokens_of next) rest in
    let h3 = drop-append_length (tokens_of inner) (i + 2) tokens h2 in
    let h4 = drop-add_one (i + 2 + k) tokens h3 in
    let found : find_end (te - (i + 2)) tokens (i + 2) 1 ≡ done (some (i + 2 + k), 0) =
      ap (λ n. find_end n tokens (i + 2) 1) (omega (arith, len))
      ∙ find_end-tokens_of inner (suc m) tokens (i + 2) 0 ("}" ∷ (tokens_of next ++ rest)) p.1 h2
      ∙ find_end_found m tokens (i + 2 + k) h3 in
    parse_from_more fuel tokens i te 0 (omega (arith, len)) h1
    ∙ parse_at_open (parse_from fuel tokens) tokens i te e (i + 2 + k) found
        (parse_from-tokens_of inner fuel tokens (i + 2) (i + 2 + k) ("}" ∷ (tokens_of next ++ rest))
          p.1 h2 refl (omega (arith, len)))
        (parse_from-tokens_of next fuel tokens (i + 2 + k + 1) te rest p.2 h4 (omega (arith, len))
          (omega (arith, len)))

-- A tree that is written as tokens, in which no name and no value begins with a curly bracket, is
-- parsed to the same tree under the name of the file.
pub processtokens-tokens_of :
    (c : Cfg) (filename : String)
    → IsPlain c
    → processtokens (tokens_of c) filename ≡ done (block filename c null)
unfolding processtokens recursiveparse
processtokens-tokens_of c filename p =
    let n = length (tokens_of c) in
    let parsed =
      parse_from-tokens_of c (n - 0 + 1) (tokens_of c) 0 n [] p (sym (append-nil (tokens_of c)))
        (omega arith) (omega arith) in
    rw parsed
