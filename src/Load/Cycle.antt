-- ===== src/Load/Cycle.antt =====
-- A file with logging sections of which none is named "default": `createLOG` links the list of targets
-- into a ring.
use qaoed.Base.{◌≡◌, ◌≢◌, refl, List, [], ◌∷◌, some, done, All}
use qaoed.Parse.LogTargets.{Tail, ends, unset, cyclic, past, LogSection, LogChain, to_end}
use qaoed.Base.Ensures.{Ensures, done-Ensures, fault-Ensures, blocked-Ensures}
use qaoed.Load.{Loaded, loaded, null_config, program_exits, incomplete}

abbrev NoConfig : Loaded → Type 0
NoConfig (loaded conf) = ⊥
NoConfig null_config = Unit
NoConfig program_exits = Unit
NoConfig incomplete = Unit

abbrev IsCyclic : LogChain → Type 0
IsCyclic chain = chain.tail ≡ cyclic

-- No target has the name "default".
abbrev pub Nameless : List LogSection → Type 0
Nameless logs = All (λ (s : LogSection). s.name ≢ some "default") logs

to_end-Ensures :
    (chain : LogChain) → Ensures (λ (logs : List LogSection). logs ≡ chain.logs) (to_end chain)
unfolding to_end
to_end-Ensures chain = walk chain.logs chain.tail
  where
    walk :
        (logs : List LogSection) (tail : Tail)
        → Ensures
            (λ (r : List LogSection). r ≡ logs)
            (elim logs [ [] ↦ done [] | s ∷ ss ↦ past tail (s ∷ ss) ])
    walk [] tail = done-Ensures (λ r. r ≡ []) [] refl
    walk (s ∷ ss) ends = done-Ensures (λ r. r ≡ s ∷ ss) (s ∷ ss) refl
    walk (s ∷ ss) unset = fault-Ensures (λ r. r ≡ s ∷ ss)
    walk (s ∷ ss) cyclic = blocked-Ensures (λ r. r ≡ s ∷ ss)
