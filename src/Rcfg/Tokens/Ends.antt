-- ===== src/Rcfg/Tokens/Ends.antt =====
-- The tokenizer comes to the end of every line.
use qaoed.Base.{
  ℕ, zero, suc, ◌+◌, ◌<◌, ◌≤◌, ◌≡◌, refl, arith, String, List, [], ◌∷◌, Option, none, some, inl,
  inr, ◌||◌, ◌&&◌, Bool, Bool-cases, false, Outcome, done, ◌==◌,
}
use Prim.Native.Char.{code}
use qaoed.Rcfg.{first}
use qaoed.Rcfg.Tokens.{
  Scan, Round, start, next_line, return_null, walk, stops, toggle, size, skip_blanks, is_blank,
  after_comment, without_first, skip_comment, add_token, extract, strip, round, is_end,
  opens_comment, go_on, scan_rounds, scan_line, scan_lines,
}

size-skip_blanks : (s : String) → size (skip_blanks s) ≤ size s
unfolding size skip_blanks
size-skip_blanks String.[] = omega arith
size-skip_blanks (String.◌∷◌ c s) =
    let ih = size-skip_blanks s in
    elim (Bool-cases (is_blank (code c))) [
      | inl e ↦ rw e (omega arith)
      | inr e ↦ rw e (omega arith)
    ]

-- What is left after a round is shorter than the line before it.
abbrev Shortens : ℕ → Round → Type 0
Shortens n (start rest st) = size rest < n
Shortens n (next_line st) = Unit
Shortens n return_null = Unit

Shortens-weaken : {m n : ℕ} (r : Round) → m ≤ n → Shortens m r → Shortens n r
Shortens-weaken (start rest st) le h = omega arith
Shortens-weaken (next_line st) le h = tt
Shortens-weaken return_null le h = tt

size-without_first : (s : String) → size (without_first s) ≤ size s
unfolding size without_first
size-without_first String.[] = omega arith
size-without_first (String.◌∷◌ c s) = omega arith

skip_comment-Shortens :
    (st : Scan) (p : String) (n : ℕ)
    → 0 < n
    → size p ≤ n
    → Shortens n (skip_comment st (after_comment p))
unfolding size skip_comment after_comment
skip_comment-Shortens st String.[] n pos h = pos
skip_comment-Shortens st (String.◌∷◌ c s) n pos h =
    let shorter = size-without_first s in
    elim (Bool-cases ((code c == b'*') && (first s == b'/'))) [
      | inl e ↦ rw e (omega arith)
      | inr e ↦ rw e (skip_comment-Shortens st s n pos (omega arith))
    ]

size-walk : (q : Bool) (c : ℕ) (s : String) → size (walk q c s).rest ≤ size s
unfolding size walk
size-walk q c String.[] = omega arith
size-walk q c (String.◌∷◌ d s) =
    let ih = size-walk (toggle q c (code d)) (code d) s in
    elim (Bool-cases (stops q c (code d))) [
      | inl e ↦ rw e (omega arith)
      | inr e ↦ rw e (omega arith)
    ]

add_token-Shortens :
    (st : Scan) (rest : String) (t : Option String) (n : ℕ)
    → size rest < n
    → Shortens n (add_token st rest t)
unfolding add_token
add_token-Shortens st rest none n h = tt
add_token-Shortens st rest (some t) n h = h

extract-Shortens : (st : Scan) (p : String) → Shortens (size p) (extract st p)
unfolding size extract
extract-Shortens st String.[] = tt
extract-Shortens st (String.◌∷◌ c s) =
    let w = walk st.quotation (code c) s in
    elim (Bool-cases (is_end w.last || (w.last == b'#'))) [
      | inl e ↦ rw e (tt)
      | inr e ↦
          let shorter = size-walk st.quotation (code c) s in
          rw e (
            add_token-Shortens _ w.rest (strip (String.◌∷◌ c w.token) w.last) (size s + 1)
              (omega arith))
    ]

-- A character that does not end the line is there.
size-pos : (s : String) → is_end (first s) ≡ false → 0 < size s
unfolding size first
size-pos String.[] e = ground arith
size-pos (String.◌∷◌ c s) e = omega arith

round-Shortens : (st : Scan) (line : String) → Shortens (size line) (round st line)
unfolding round
round-Shortens st line =
    let p = skip_blanks line in
    let le = size-skip_blanks line in
    elim (Bool-cases (is_end (first p))) [
      | inl e ↦ rw e tt
      | inr e ↦
          let pos = size-pos p e in
          elim (Bool-cases (st.comment || opens_comment p)) [
            | inl e' ↦ rw (e, e') (skip_comment-Shortens st p (size line) (omega arith) le)
            | inr e' ↦ rw (e, e') (Shortens-weaken _ le (extract-Shortens st p))
          ]
    ]

-- A result, and no fault.
abbrev pub Returns : {A : Type 0} → Outcome A → Type 0
Returns {A} m = (a : A) × (m ≡ done a)

go_on-Returns :
    (fuel : ℕ) (r : Round)
    → ((st : Scan) (line : String) → size line < fuel → Returns (scan_rounds fuel st line))
    → Shortens fuel r
    → Returns (go_on (scan_rounds fuel) r)
unfolding go_on
go_on-Returns fuel (start rest st) ih h = ih st rest h
go_on-Returns fuel (next_line st) ih h = (some st, refl)
go_on-Returns fuel return_null ih h = (none, refl)

scan_rounds-Returns :
    (fuel : ℕ) (st : Scan) (line : String) → size line < fuel → Returns (scan_rounds fuel st line)
unfolding scan_rounds
scan_rounds-Returns zero st line h = absurd (omega arith)
scan_rounds-Returns (suc fuel) st line h =
    go_on-Returns fuel (round st line) (scan_rounds-Returns fuel)
      (Shortens-weaken (round st line) (omega arith) (round-Shortens st line))

-- Every line is read to its end, or the function returns NULL in it.
pub scan_lines-Returns : (r : Option Scan) (lines : List String) → Returns (scan_lines r lines)
unfolding scan_lines scan_line
scan_lines-Returns none lines = (none, refl)
scan_lines-Returns (some st) [] = (some st, refl)
scan_lines-Returns (some st) (line ∷ lines) =
    let (r, e) = scan_rounds-Returns (size line + 1) st line (omega arith) in
    let (r', e') = scan_lines-Returns r lines in (r', rw (e, e'))
