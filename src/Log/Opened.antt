-- ===== src/Log/Opened.antt =====
-- The logging targets once they are started.
use qaoed.Base.{
  ◌≡◌, ◌⊎◌, inl, inr, refl, sym, ap, ◌∙◌, arith, ℤ, pos, negsuc, eq_ℤ, String, List, [], ◌∷◌,
  Option, none, some, Bool, true, false, Bool-cases, Outcome, done, valid, ◌>>=◌, if◌then◌else◌,
  All,
}
use qaoed.Base.Results.{>>=-eq-done}
use qaoed.Conf.{Logging}
use qaoed.Log.{logtype_syslog, logtype_file, logstart_file, logstart, openlogs}

-- A target of syslog, or one whose file can be opened.
abbrev pub IsOpen : (String → Bool) → Logging → Type 0
IsOpen fopens log =
    (log.logtype ≡ pos 0)
    ⊎ ((log.logtype ≡ pos 1) × (name : String) × (log.filename ≡ some name) × (fopens name ≡ true))

eq_ℤ-eq : (a b : ℤ) → eq_ℤ a b ≡ true → a ≡ b
eq_ℤ-eq (pos a) (pos b) h = ground arith
eq_ℤ-eq (pos a) (negsuc b) h = absurd (cc h)
eq_ℤ-eq (negsuc a) (pos b) h = absurd (cc h)
eq_ℤ-eq (negsuc a) (negsuc b) h = ground arith

-- The target is open and as it was, or the start has failed.
abbrev Starts : (String → Bool) → Logging → Logging × ℤ → Type 0
Starts fopens log r = ((r.1 ≡ pos 0) × (r.0 ≡ log) × IsOpen fopens log) ⊎ (r.1 ≡ negsuc 0)

logstart_file-Starts :
    (fopens : String → Bool) (log : Logging) (r : Logging × ℤ)
    → log.logtype ≡ pos 1
    → logstart_file fopens log ≡ done r
    → Starts fopens log r
unfolding logstart_file
logstart_file-Starts fopens log r t h =
    let (name, e, h') = >>=-eq-done (valid log.filename) _ h in
    opened name (named log.filename name e) (fopens name) refl h'
  where
    named : (o : Option String) (name : String) → valid o ≡ done name → o ≡ some name
    named none name e = absurd (cc e)
    named (some n) name e = cc e

    opened :
        (name : String)
        → log.filename ≡ some name
        → (b : Bool) → fopens name ≡ b
        → ◌≡◌ {A = Outcome (Logging × ℤ)}
            (if b
              then done (log, pos 0)
              else done (record log { logtype = logtype_syslog }, negsuc 0))
            (done r)
        → Starts fopens log r
    opened name e true b h = inl (cc h, cc h, inr (t, name, e, b))
    opened name e false b h = inr (cc h)

logstart-Starts :
    (fopens : String → Bool) (log : Logging) (r : Logging × ℤ)
    → logstart fopens log ≡ done r
    → Starts fopens log r
unfolding logstart
logstart-Starts fopens log r h = elim (Bool-cases (eq_ℤ log.logtype logtype_syslog)) [
  | inl s ↦
      let h' : ◌≡◌ {A = Outcome (Logging × ℤ)} (done (log, pos 0)) (done r) = rw s at h in
      inl (cc h', cc h', inl (eq_ℤ-eq log.logtype logtype_syslog s))
  | inr s ↦ elim (Bool-cases (eq_ℤ log.logtype logtype_file)) [
    | inl f ↦
        logstart_file-Starts fopens log r (eq_ℤ-eq log.logtype logtype_file f) (rw (s, f) at h)
    | inr f ↦
        let h' : ◌≡◌ {A = Outcome (Logging × ℤ)} (done (log, negsuc 0)) (done r) = rw (s, f) at h in
        inr (cc h')
  ]
]

-- If all logging targets are started with success, they are as they were, and each is one of syslog
-- or has a file that can be opened.
pub openlogs-IsOpen :
    (fopens : String → Bool) (logs logs' : List Logging)
    → openlogs fopens logs ≡ done (logs', pos 0)
    → (logs' ≡ logs) × All (IsOpen fopens) logs
unfolding openlogs
openlogs-IsOpen fopens [] logs' h = (cc h, tt)
openlogs-IsOpen fopens (log ∷ logs) logs' h =
    let (r, e, h') = >>=-eq-done (logstart fopens log) _ h in
    after (openlogs-IsOpen fopens logs) r (logstart-Starts fopens log r e) h'
  where
    after :
        ((ls : List Logging)
          → openlogs fopens logs ≡ done (ls, pos 0)
          → (ls ≡ logs) × All (IsOpen fopens) logs)
        → (r : Logging × ℤ) → Starts fopens log r
        → ◌≡◌ {A = Outcome (List Logging × ℤ)}
            (if eq_ℤ r.1 (negsuc 0)
              then done (r.0 ∷ logs, negsuc 0)
              else (openlogs fopens logs >>= λ s. done (r.0 ∷ s.0, s.1)))
            (done (logs', pos 0))
        → (logs' ≡ log ∷ logs) × All (IsOpen fopens) (log ∷ logs)
    after ih r (inr f) h =
        let b : eq_ℤ r.1 (negsuc 0) ≡ true = rw f in
        let h' : ◌≡◌ {A = Outcome (List Logging × ℤ)} (done (r.0 ∷ logs, negsuc 0))
            (done (logs', pos 0)) =
          rw b at h in
        absurd (cc h')
    after ih r (inl (z, same, open_log)) h =
        let b : eq_ℤ r.1 (negsuc 0) ≡ false = rw z in
        let (s, e, h') = >>=-eq-done (openlogs fopens logs) _ (rw b at h) in
        let ok : s.1 ≡ pos 0 = cc h' in
        let (tail_same, all) = ih s.0 (e ∙ ap (λ (k : ℤ). done (s.0, k)) ok) in
        let built : r.0 ∷ s.0 ≡ logs' = cc h' in
        (
          sym built
              ∙ ap (λ (x : Logging). x ∷ s.0) same
              ∙ ap (λ (l : List Logging). log ∷ l) tail_same,
          (open_log, all),
        )
