-- ===== src/Config/Clashes.antt =====
-- The double loop of qaoed_validateconfig over the devices.
use qaoed.Base.{
  ◌<◌, ℕ, ◌+◌, ◌≡◌, ◌↔◌, refl, sym, ◌∙◌, arith, String, str_eq, str_eq_iff, List, [], ◌∷◌, ◌++◌,
  Option, none, some, Bool, true, false, not, ◌&&◌, Outcome, done, fault, blocked, valid, ◌>>=◌,
  ◌==◌, if◌then◌else◌, length, All, append_assoc, length-append,
}
use qaoed.Queue.{same_ptr}
use qaoed.Conf.{AoeDev}
use qaoed.Api.Add.{conflicts, other_file}
use qaoed.Api.Add.Exclusive.{Exclusive, conflicts-Apart}
use qaoed.Config.{clashes_from, any_clash}

abbrev pub Fine : Outcome Bool → Type 0
Fine m = m ≡ done false

-- A loop over two parts of a result finds nothing if neither does.
pub or_else-Fine :
    (m next : Outcome Bool)
    → Fine (m >>= λ bad. if bad then done true else next) ↔ (Fine m × Fine next)
or_else-Fine (done true) next = (λ h. absurd (cc h), λ h. absurd (cc h.0))
or_else-Fine (done false) next = (λ h. (refl, h), λ h. h.1)
or_else-Fine fault next = (λ h. absurd (cc h), λ h. absurd (cc h.0))
or_else-Fine blocked next = (λ h. absurd (cc h), λ h. absurd (cc h.0))

same_ptr_comm : (a b : Option ℕ) → same_ptr a b ≡ same_ptr b a
same_ptr_comm none none = refl
same_ptr_comm none (some b) = refl
same_ptr_comm (some a) none = refl
same_ptr_comm (some a) (some b) = ground arith

other_file_comm : (d e : AoeDev) → Fine (other_file d e) → Fine (other_file e d)
unfolding other_file
other_file_comm d e = named d.devicename e.devicename
  where
    named :
        (a b : Option String)
        → Fine (valid a >>= λ x. valid b >>= λ y. done (not (str_eq x y)))
        → Fine (valid b >>= λ x. valid a >>= λ y. done (not (str_eq x y)))
    named none b h = absurd (cc h)
    named (some x) none h = absurd (cc h)
    named (some x) (some y) h = ground (arith, str_eq_iff x y, str_eq_iff y x)

conflicts_comm : (d e : AoeDev) → Fine (conflicts d e) → Fine (conflicts e d)
unfolding conflicts
conflicts_comm d e h =
    let swap : (e.slot == d.slot) && (e.shelf == d.shelf)
        ≡ (d.slot == e.slot) && (d.shelf == e.shelf) =
      ground arith in
    rw (swap, same_ptr_comm e.interface d.interface)
      (swapped ((d.slot == e.slot) && (d.shelf == e.shelf)) (same_ptr d.interface e.interface) h)
  where
    swapped :
        (a b : Bool)
        → Fine (if a then if b then done true else other_file d e else done false)
        → Fine (if a then if b then done true else other_file e d else done false)
    swapped false b h = refl
    swapped true true h = h
    swapped true false h = other_file_comm d e h

-- No device of the list conflicts with the given one.
abbrev Free : AoeDev → List AoeDev → Type 0
Free d ds = All (λ (s : AoeDev). Fine (conflicts d s)) ds

-- Past its own place the inner loop compares a device with all.
clashes_from-Free :
    (i : ℕ) (d : AoeDev) (j : ℕ) (ss : List AoeDev)
    → i < j
    → Fine (clashes_from i d j ss) ↔ Free d ss
unfolding clashes_from
clashes_from-Free i d j [] lt = (λ h. tt, λ h. refl)
clashes_from-Free i d j (s ∷ ss) lt =
    let ne : (i == j) ≡ false = ground arith in
    let ih = clashes_from-Free i d (j + 1) ss (omega arith) in
    let both = or_else-Fine (conflicts d s) (clashes_from i d (j + 1) ss) in
    (λ h. let r = both.0 (rw ne at h) in (r.0, ih.0 r.1), λ h. rw ne (both.1 (h.0, ih.1 h.1)))

-- It compares a device with all that stand before it and all that stand after it.
clashes_from-others :
    (i : ℕ) (d : AoeDev) (j : ℕ) (before after : List AoeDev)
    → i ≡ j + length before
    → Fine (clashes_from i d j (before ++ (d ∷ after))) ↔ (Free d before × Free d after)
unfolding clashes_from
clashes_from-others i d j [] after e =
    let self : (i == j) ≡ true = ground arith in
    let rest = clashes_from-Free i d (j + 1) after (omega arith) in
    (λ h. (tt, rest.0 (rw self at h)), λ h. rw self (rest.1 h.1))
clashes_from-others i d j (s ∷ before) after e =
    let ne : (i == j) ≡ false = ground arith in
    let ih = clashes_from-others i d (j + 1) before after (omega arith) in
    let both = or_else-Fine (conflicts d s) (clashes_from i d (j + 1) (before ++ (d ∷ after))) in
    (
      λ h. let r = both.0 (rw ne at h) in let k = ih.0 r.1 in ((r.0, k.0), k.1),
      λ h. rw ne (both.1 (h.0.0, ih.1 (h.0.1, h.1))),
    )

-- The same for any two devices of a list, in their order.
abbrev Undisputed : List AoeDev → Type 0
Undisputed [] = Unit
Undisputed (d ∷ ds) = Free d ds × Undisputed ds

All-map {ℓ} :
    {A : Type ℓ} {P Q : A → Type 0} (f : (x : A) → P x → Q x) (xs : List A) → All P xs → All Q xs
All-map f [] h = tt
All-map f (x ∷ xs) h = (f x h.0, All-map f xs h.1)

All-pair {ℓ} :
    {A : Type ℓ} (P Q : A → Type 0) (xs : List A) → All P xs → All Q xs → All (λ x. P x × Q x) xs
All-pair P Q [] h k = tt
All-pair P Q (x ∷ xs) h k = ((h.0, k.0), All-pair P Q xs h.1 k.1)

Free-snoc :
    (e d : AoeDev) (ds : List AoeDev) → Free e (ds ++ (d ∷ [])) ↔ (Free e ds × Fine (conflicts e d))
Free-snoc e d [] = (λ h. (tt, h.0), λ h. (h.1, tt))
Free-snoc e d (x ∷ xs) =
    let ih = Free-snoc e d xs in
    (λ h. let r = ih.0 h.1 in ((h.0, r.0), r.1), λ h. (h.0.0, ih.1 (h.0.1, h.1)))

-- The outer loop from some device on compares these with one another and with all before them.
any_clash-Free :
    (devices before ds : List AoeDev) (i : ℕ)
    → devices ≡ before ++ ds
    → i ≡ length before
    → Fine (any_clash devices i ds) ↔ (Undisputed ds × All (λ (e : AoeDev). Free e before) ds)
unfolding any_clash
any_clash-Free devices before [] i e n = (λ h. (tt, tt), λ h. refl)
any_clash-Free devices before (d ∷ ds) i e n =
    let both = or_else-Fine (clashes_from i d 0 devices) (any_clash devices (i + 1) ds) in
    let others = clashes_from-others i d 0 before ds (omega arith) in
    let ih =
      any_clash-Free devices (before ++ (d ∷ [])) ds (i + 1)
        (e ∙ sym (append_assoc before (d ∷ []) ds))
        (omega (arith, length-append before (d ∷ []))) in
    (
      λ h.
          let r = both.0 h in
          let o = others.0 (rw e at (r.0)) in
          let k = ih.0 r.1 in
          (
            (o.1, k.0),
            (
              o.0,
              All-map
                  (λ (x : AoeDev) (f : Free x (before ++ (d ∷ []))). ((Free-snoc x d before).0 f).0)
                  ds k.1,
            ),
          ),
      λ h.
          let o = others.1 (h.1.0, h.0.0) in
          let later =
            All-map
              (λ (x : AoeDev) (f : Free x before × Fine (conflicts d x)).
                (Free-snoc x d before).1 (f.0, conflicts_comm d x f.1))
              ds
              (All-pair (λ (x : AoeDev). Free x before) (λ (x : AoeDev). Fine (conflicts d x)) ds
                h.1.1 h.0.0) in
          both.1 (rw e o, ih.1 (h.0.1, later)),
    )

Undisputed-Exclusive : (ds : List AoeDev) → Undisputed ds ↔ Exclusive ds
Undisputed-Exclusive [] = (λ h. tt, λ h. tt)
Undisputed-Exclusive (d ∷ ds) =
    let ih = Undisputed-Exclusive ds in
    (
      λ h. (All-map (λ (e : AoeDev). (conflicts-Apart d e).0) ds h.0, ih.0 h.1),
      λ h. (All-map (λ (e : AoeDev). (conflicts-Apart d e).1) ds h.0, ih.1 h.1),
    )

-- The loops object to no pair exactly if the devices are exclusive.
pub any_clash-Exclusive : (ds : List AoeDev) → Fine (any_clash ds 0 ds) ↔ Exclusive ds
any_clash-Exclusive ds =
    let free = any_clash-Free ds [] ds 0 refl refl in
    let same = Undisputed-Exclusive ds in
    (λ h. same.0 (free.0 h).0, λ h. free.1 (same.1 h, none_before ds))
  where
    none_before : (ds : List AoeDev) → All (λ (e : AoeDev). Free e []) ds
    none_before [] = tt
    none_before (d ∷ ds) = (tt, none_before ds)
