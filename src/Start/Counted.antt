-- ===== src/Start/Counted.antt =====
-- The reference counters of the interfaces over the start of the devices.
use qaoed.Base.{
  String, ◌/◌, ℕ, zero, suc, ◌+◌, ◌<◌, ◌≡◌, ◌⊎◌, refl, sym, ap, ◌∙◌, subst, arith, ℤ, pos, negsuc,
  ◌+ℤ◌, +ℤ_parts, eq_of_parts, eq_ℤ, List, [], ◌∷◌, Option, none, some, Bool, true, false, inl, inr,
  Bool-cases, Outcome, done, ◌>>=◌, if◌then◌else◌, not, ◌||◌, ◌==◌, length, take,
}
use qaoed.Base.Results.{>>=-eq-done}
use qaoed.Conf.{Ifst, AoeDev}
use qaoed.Api.Acls.{hits}
use qaoed.Start.{
  System, FileStat, Started, add_refs, intrefup, intrefdown, startworker, start_found, start_open,
  start_named, startdevice, start_all,
}

-- The counter of the interface at a position.
abbrev pub refs_at : ℕ → List Ifst → ℤ
refs_at n [] = pos 0
refs_at zero (i ∷ is) = i.refcnt
refs_at (suc n) (i ∷ is) = refs_at n is

-- How many of the devices are attached to the interface at a position.
abbrev pub users : ℕ → List AoeDev → ℕ
users n [] = 0
users n (d ∷ ds) = hits n d.interface + users n ds

refs_at-add_refs :
    (k : ℤ) (m n : ℕ) (is is' : List Ifst)
    → add_refs k m is ≡ done is'
    → refs_at n is' ≡ (if m == n then refs_at n is +ℤ k else refs_at n is)
unfolding add_refs
refs_at-add_refs k m n [] is' h = absurd (cc h)
refs_at-add_refs k zero n (i ∷ is) is' h =
    let e : record i { refcnt = i.refcnt +ℤ k } ∷ is ≡ is' = cc h in ap (refs_at n) (sym e) ∙ head n
  where
    head :
        (n : ℕ)
        → refs_at n (record i { refcnt = i.refcnt +ℤ k } ∷ is)
          ≡ (if zero == n then refs_at n (i ∷ is) +ℤ k else refs_at n (i ∷ is))
    head zero = refl
    head (suc n) = ground arith
refs_at-add_refs k (suc m) zero (i ∷ is) is' h =
    let (js, e, h') = >>=-eq-done (add_refs k m is) _ h in
    let same : i ∷ js ≡ is' = cc h' in ap (refs_at zero) (sym same) ∙ ground arith
refs_at-add_refs k (suc m) (suc n) (i ∷ is) is' h =
    let (js, e, h') = >>=-eq-done (add_refs k m is) _ h in
    let same : i ∷ js ≡ is' = cc h' in
    ap (refs_at (suc n)) (sym same) ∙ ground (arith, refs_at-add_refs k m n is js e)

plus_zero : (z : ℤ) → z +ℤ pos 0 ≡ z
plus_zero z = eq_of_parts (z +ℤ pos 0) z (omega (arith, +ℤ_parts z (pos 0)))

up_down : (z : ℤ) → z +ℤ pos 1 +ℤ negsuc 0 ≡ z
up_down z =
    eq_of_parts (z +ℤ pos 1 +ℤ negsuc 0) z
      (omega (arith, +ℤ_parts z (pos 1), +ℤ_parts (z +ℤ pos 1) (negsuc 0)))

plus_plus : (z : ℤ) (a b : ℕ) → z +ℤ pos a +ℤ pos b ≡ z +ℤ pos (a + b)
plus_plus z a b =
    eq_of_parts (z +ℤ pos a +ℤ pos b) (z +ℤ pos (a + b))
      (omega (arith, +ℤ_parts z (pos a), +ℤ_parts (z +ℤ pos a) (pos b), +ℤ_parts z (pos (a + b))))

-- The counter at a position goes up by the number of pointers to it among the given ones.
abbrev Counted : ℕ → ℕ → List Ifst → List Ifst → Type 0
Counted n k is is' = refs_at n is' ≡ refs_at n is +ℤ pos k

intrefup-Counted :
    (o : Option ℕ) (n : ℕ) (is is' : List Ifst)
    → intrefup o is ≡ done is'
    → Counted n (hits n o) is is'
unfolding intrefup
intrefup-Counted none n is is' h = absurd (cc h)
intrefup-Counted (some m) n is is' h =
    refs_at-add_refs (pos 1) m n is is' h ∙ ground (arith, plus_zero (refs_at n is))

intrefdown-intrefup :
    (o : Option ℕ) (n : ℕ) (is up down : List Ifst)
    → intrefup o is ≡ done up
    → intrefdown o up ≡ done down
    → Counted n 0 is down
unfolding intrefup intrefdown
intrefdown-intrefup none n is up down h k = absurd (cc h)
intrefdown-intrefup (some m) n is up down h k = ground (
  arith,
  refs_at-add_refs (negsuc 0) m n up down k,
  refs_at-add_refs (pos 1) m n is up h,
  plus_zero (refs_at n is),
  up_down (refs_at n is),
)

-- A device that runs is counted, and one that could not be started is not.
abbrev Outcomes : ℕ → ℕ → List Ifst → List Ifst → ℤ → Type 0
Outcomes n k is is' ret =
    ((ret ≡ pos 0) × Counted n k is is') ⊎ ((ret ≡ negsuc 0) × Counted n 0 is is')

module _ (sys : System) (n : ℕ) (is is' : List Ifst) (ret : ℤ) (d b : AoeDev) where
  failed :
      (x : AoeDev) (js : List Ifst)
      → Counted n 0 is js
      → ◌≡◌ {A = Outcome Started} (done (x, js, negsuc 0)) (done (b, is', ret))
      → Outcomes n (hits n d.interface) is is' ret
  failed x js c h =
      let e : js ≡ is' = cc h in inr (cc h, subst (λ (l : List Ifst). Counted n 0 is l) e c)

  ran :
      (x : AoeDev) (js : List Ifst)
      → Counted n (hits n d.interface) is js
      → ◌≡◌ {A = Outcome Started} (done (x, js, pos 0)) (done (b, is', ret))
      → Outcomes n (hits n d.interface) is is' ret
  ran x js c h =
      let e : js ≡ is' = cc h in
      inl (cc h, subst (λ (l : List Ifst). Counted n (hits n d.interface) is l) e c)

startworker-Outcomes :
    (sys : System) (n : ℕ) (is is' : List Ifst) (ret : ℤ) (d b : AoeDev)
    → startworker sys d is ≡ done (b, is', ret)
    → Outcomes n (hits n d.interface) is is' ret
unfolding startworker
startworker-Outcomes sys n is is' ret d b h =
    elim (Bool-cases (not (sys.mutex d) || not (sys.cond d))) [
      | inl bad ↦ failed sys n is is' ret d b d is (sym (plus_zero (refs_at n is))) (rw bad at h)
      | inr good ↦
          let (up, e, h') = >>=-eq-done (intrefup d.interface is) _ (rw good at h) in
          elim (Bool-cases (sys.thread d)) [
            | inl made ↦
                ran sys n is is' ret d b _ up (intrefup-Counted d.interface n is up e)
                  (rw made at h')
            | inr none_made ↦
                let (down, e', h'') =
                  >>=-eq-done (intrefdown d.interface up) _ (rw none_made at h') in
                failed sys n is is' ret d b _ down
                  (intrefdown-intrefup d.interface n is up down e e') h''
          ]
    ]

module _ (sys : System) (n : ℕ) (is is' : List Ifst) (ret : ℤ) where
  start_open-Outcomes :
      (name : String) (o : Option FileStat) (d b : AoeDev)
      → start_found sys name o d is ≡ done (b, is', ret)
      → Outcomes n (hits n d.interface) is is' ret
  unfolding start_found
  start_open-Outcomes name none d b h =
      failed sys n is is' ret d b d is (sym (plus_zero (refs_at n is))) h
  start_open-Outcomes name (some st) d b h =
      let size = if st.is_device then sys.getsize name else st.st_size / 512 in
      startworker-Outcomes sys n is is' ret (record d { size = size }) b h

  start_named-Outcomes :
      (o : Option String) (d b : AoeDev)
      → start_named sys o d is ≡ done (b, is', ret)
      → Outcomes n (hits n d.interface) is is' ret
  unfolding start_named start_open
  start_named-Outcomes none d b h =
      failed sys n is is' ret d b d is (sym (plus_zero (refs_at n is))) h
  start_named-Outcomes (some name) d b h =
      opened d.fp (sys.opens (eq_ℤ d.writecache (pos 0)) name) (sys.fdopens name) h
    where
      opened :
          (f o p : Bool)
          → ◌≡◌ {A = Outcome Started}
              (if f
                then start_open sys name d is
                else if o
                then if p
                  then start_open sys name (record d { fp = true }) is
                  else done (d, is, negsuc 0)
                else done (d, is, negsuc 0))
              (done (b, is', ret))
          → Outcomes n (hits n d.interface) is is' ret
      opened true o p h = start_open-Outcomes name (sys.stat name) d b h
      opened false true true h =
          start_open-Outcomes name (sys.stat name) (record d { fp = true }) b h
      opened false true false h =
          failed sys n is is' ret d b d is (sym (plus_zero (refs_at n is))) h
      opened false false p h = failed sys n is is' ret d b d is (sym (plus_zero (refs_at n is))) h

-- How many devices run after the loop: all if it returns 0, and else those before the first that
-- could not be started.
abbrev pub Running : ℕ → List AoeDev → List Ifst → List Ifst → ℤ → Type 0
Running n ds is is' ret =
    (k : ℕ) × (((ret ≡ pos 0) × (k ≡ length ds)) ⊎ ((ret ≡ negsuc 0) × (k < length ds)))
    × (refs_at n is' ≡ refs_at n is +ℤ pos (users n (take k ds)))

-- A device that runs is counted before those that follow it.
refs_after :
    (n k : ℕ) (d : AoeDev) (ds : List AoeDev) (is js js' is' : List Ifst)
    → Counted n (hits n d.interface) is js
    → refs_at n js' ≡ refs_at n js +ℤ pos (users n (take k ds))
    → js' ≡ is'
    → refs_at n is' ≡ refs_at n is +ℤ pos (users n (take (suc k) (d ∷ ds)))
refs_after n k d ds is js js' is' c count e =
    ap (refs_at n) (sym e)
    ∙ count
    ∙ ap (λ (z : ℤ). z +ℤ pos (users n (take k ds))) c
    ∙ plus_plus (refs_at n is) (hits n d.interface) (users n (take k ds))

-- The start of the devices of a configuration takes one reference to the interface of each device
-- that runs, and none for a device that could not be started: of all if it succeeds, and else of
-- those before the first that failed.
pub start_all-Running :
    (sys : System) (n : ℕ) (ds ds' : List AoeDev) (is is' : List Ifst) (ret : ℤ)
    → start_all sys ds is ≡ done (ds', is', ret)
    → Running n ds is is' ret
unfolding start_all startdevice
start_all-Running sys n [] ds' is is' ret h =
    let e : is ≡ is' = cc h in
    (0, inl (cc h, refl), ap (refs_at n) (sym e) ∙ sym (plus_zero (refs_at n is)))
start_all-Running sys n (d ∷ ds) ds' is is' ret h =
    let (s, e, h') = >>=-eq-done (startdevice sys d is) _ h in
    after (start_all-Running sys n ds) s
      (start_named-Outcomes sys n is s.1 s.2 d.devicename d s.0 e) h'
  where
    after :
        ((rs : List AoeDev) (js js' : List Ifst) (r : ℤ)
          → start_all sys ds js ≡ done (rs, js', r)
          → Running n ds js js' r)
        → (s : Started) → Outcomes n (hits n d.interface) is s.1 s.2
        → ◌≡◌ {A = Outcome (List AoeDev × List Ifst × ℤ)}
            (if eq_ℤ s.2 (negsuc 0)
              then done (s.0 ∷ ds, s.1, negsuc 0)
              else (start_all sys ds s.1 >>= λ r. done (s.0 ∷ r.0, r.1, r.2)))
            (done (ds', is', ret))
        → Running n (d ∷ ds) is is' ret
    after ih s (inr (r, c)) h =
        let stop : eq_ℤ s.2 (negsuc 0) ≡ true = rw r in
        let h0 : ◌≡◌ {A = Outcome (List AoeDev × List Ifst × ℤ)} (done (s.0 ∷ ds, s.1, negsuc 0))
            (done (ds', is', ret)) =
          rw stop at h in
        let e : s.1 ≡ is' = cc h0 in
        (0, inr (cc h0, omega arith), subst (λ (l : List Ifst). Counted n 0 is l) e c)
    after ih s (inl (r, c)) h =
        let go_on : eq_ℤ s.2 (negsuc 0) ≡ false = rw r in
        let (rs, er, h1) = >>=-eq-done (start_all sys ds s.1) _ (rw go_on at h) in
        let (k, how, count) = ih rs.0 s.1 rs.1 rs.2 er in
        let same_is : rs.1 ≡ is' = cc h1 in
        let same_ret : rs.2 ≡ ret = cc h1 in
        (
          suc k,
          elim how [
            | inl (z, all) ↦ inl (sym same_ret ∙ z, ap suc all)
            | inr (z, less) ↦ inr (sym same_ret ∙ z, omega arith)
          ],
          refs_after n k d ds is s.1 rs.1 is' c count same_is,
        )
