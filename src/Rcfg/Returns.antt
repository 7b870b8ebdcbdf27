-- ===== src/Rcfg/Returns.antt =====
-- The parser ends on every token array.
use qaoed.Base.{
  ℕ, zero, suc, ◌+◌, ◌-◌, ◌<◌, ◌≤◌, ◌≡◌, refl, arith, String, List, [], ◌∷◌, Option, none, some,
  inl, inr, ◌&&◌, Bool-cases, Outcome, done, ◌==◌, ltb, ltb→lt, ==_iff, length, get_elem?,
}
use qaoed.Rcfg.{
  Cfg, null, assignment, block, first, token, find_end, count_bracket, parse_block,
  parse_assignment, parse_at, parse_from, recursiveparse, processtokens,
}

-- An `=` is never the last token.
abbrev pub EqualsInside : List String → Type 0
EqualsInside tokens =
    (i : ℕ) (t : String) → get_elem? tokens i ≡ some t → first t ≡ b'=' → i + 1 < length tokens

-- A result, and no fault.
abbrev Returns : {A : Type 0} → Outcome A → Type 0
Returns {A} m = (a : A) × (m ≡ done a)

get_elem?-some {ℓ} :
    {A : Type ℓ} (xs : List A) (i : ℕ) → i < length xs → (x : A) × (get_elem? xs i ≡ some x)
get_elem?-some [] i h = absurd (omega arith)
get_elem?-some (x ∷ xs) zero h = (x, refl)
get_elem?-some (x ∷ xs) (suc i) h = get_elem?-some xs i (omega arith)

token-Returns : (tokens : List String) (i : ℕ) → i < length tokens → Returns (token tokens i)
token-Returns tokens i h = let (t, e) = get_elem?-some tokens i h in (t, rw e)

-- The end that a search finds lies in the tokens that it looks at.
abbrev EndsIn : ℕ → ℕ → Option ℕ × ℕ → Type 0
EndsIn lo hi (none, cbc) = Unit
EndsIn lo hi (some j, cbc) = (lo ≤ j) × (j < hi)

EndsIn-weaken : (lo hi : ℕ) (r : Option ℕ × ℕ) → EndsIn (lo + 1) hi r → EndsIn lo hi r
EndsIn-weaken lo hi (none, cbc) h = tt
EndsIn-weaken lo hi (some j, cbc) h = omega arith

find_end-Returns :
    (n : ℕ) (tokens : List String) (j cbc hi : ℕ)
    → j + n ≡ hi
    → hi ≤ length tokens
    → (r : Option ℕ × ℕ) × (find_end n tokens j cbc ≡ done r) × EndsIn j hi r
unfolding find_end
find_end-Returns zero tokens j cbc hi e h = ((none, cbc), refl, tt)
find_end-Returns (suc n) tokens j cbc hi e h =
    let (t, et) = token-Returns tokens j (omega arith) in
    let cbc' = count_bracket (first t) cbc in
    let (r, er, inside) = find_end-Returns n tokens (j + 1) cbc' hi (omega arith) h in
    elim (Bool-cases ((first t == b'}') && (cbc' == 0))) [
      | inl found ↦ ((some j, 0), rw (et, found), omega arith)
      | inr other ↦ (r, rw (et, other) er, EndsIn-weaken j hi r inside)
    ]

-- Enough fuel for the tokens that are left, whatever the counter.
abbrev ParseReturns : ℕ → List String → Type 0
ParseReturns fuel tokens =
    (i te cbc : ℕ) → te ≤ length tokens → te - i < fuel → Returns (parse_from fuel tokens i te cbc)

module _ (fuel : ℕ) (tokens : List String) (inside : EqualsInside tokens)
    (ih : ParseReturns fuel tokens) (i te cbc : ℕ) (top : te ≤ length tokens) (lt : i + 1 < te)
    (enough : te - i < suc fuel) where
  parse_block-Returns :
      (r : Option ℕ × ℕ)
      → EndsIn (i + 2) te r
      → Returns (parse_block (parse_from fuel tokens) tokens i te r)
  unfolding parse_block
  parse_block-Returns (none, k) h = ih (i + 1) te k top (omega arith)
  parse_block-Returns (some j, k) h =
      let (l, el) = token-Returns tokens i (omega arith) in
      let (b, eb) = ih (i + 2) j 0 (omega arith) (omega arith) in
      let (n, en) = ih (j + 1) te k top (omega arith) in (block l b n, rw (el, eb, en))

  parse_assignment-Returns :
      i + 2 < length tokens → Returns (parse_assignment (parse_from fuel tokens) tokens i te cbc)
  unfolding parse_assignment
  parse_assignment-Returns h =
      let (l, el) = token-Returns tokens i (omega arith) in
      let (r, er) = token-Returns tokens (i + 2) h in
      let (n, en) = ih (i + 4) te cbc top (omega arith) in (assignment l r n, rw (el, er, en))

  parse_at-Returns :
      (t : String)
      → get_elem? tokens (i + 1) ≡ some t
      → Returns (parse_at (parse_from fuel tokens) tokens i te cbc (first t))
  unfolding parse_at
  parse_at-Returns t et = elim (Bool-cases (first t == b'{')) [
    | inl open_bracket ↦
        let (r, er, h) =
          find_end-Returns (te - (i + 2)) tokens (i + 2) (cbc + 1) te (omega arith) top in
        let (c, ec) = parse_block-Returns r h in (c, rw (open_bracket, er) ec)
    | inr other ↦ elim (Bool-cases (first t == b'=')) [
      | inl equals ↦
          let (c, ec) =
            parse_assignment-Returns
              (omega (arith, inside (i + 1) t et ((==_iff (first t) b'=').0 equals))) in
          (c, rw (other, equals) ec)
      | inr unknown ↦
          let (c, ec) = ih (i + 1) te cbc top (omega arith) in (c, rw (other, unknown) ec)
    ]
  ]

parse_from-Returns :
    (fuel : ℕ) (tokens : List String) → EqualsInside tokens → ParseReturns fuel tokens
unfolding parse_from
parse_from-Returns zero tokens inside i te cbc top h = absurd (omega arith)
parse_from-Returns (suc fuel) tokens inside i te cbc top h = elim (Bool-cases (ltb (i + 1) te)) [
  | inl more ↦
      let lt = ltb→lt (i + 1) te more in
      let (t, et) = get_elem?-some tokens (i + 1) (omega arith) in
      let (c, ec) =
        parse_at-Returns fuel tokens inside (parse_from-Returns fuel tokens inside) i te cbc top lt
          h t et in
      (c, rw (more, et) ec)
  | inr stop ↦ (null, rw stop)
]

-- The parser ends with a tree, without a fault, on every token array in which `=` is not the last
-- token, whatever else the array holds.
pub processtokens-Returns :
    (tokens : List String) (filename : String)
    → EqualsInside tokens
    → (c : Cfg) × (processtokens tokens filename ≡ done (block filename c null))
unfolding processtokens recursiveparse
processtokens-Returns tokens filename inside =
    let n = length tokens in
    let (c, e) = parse_from-Returns (n - 0 + 1) tokens inside 0 n 0 (omega arith) (omega arith) in
    (c, rw e)
