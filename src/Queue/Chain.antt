-- ===== src/Queue/Chain.antt =====
-- Linked entries in memory: the list that a chain of `next` pointers spells out.
use qaoed.Base.{ℕ, ◌≡◌, refl, sym, ◌≢◌, Option, none, some, List, [], ◌∷◌, ◌++◌, arith, write, All}
use qaoed.Queue.{QueueEntry}

-- The address and the work of each entry, in order.
abbrev pub Cells : Type 0
Cells = List (ℕ × ℕ)

abbrev pub head_addr : Cells → Option ℕ
head_addr [] = none
head_addr ((a, w) ∷ xs) = some a

abbrev pub last_addr : Cells → Option ℕ
last_addr [] = none
last_addr ((a, w) ∷ []) = some a
last_addr ((a, w) ∷ c ∷ xs) = last_addr (c ∷ xs)

-- No entry stands at the address.
abbrev pub Away : ℕ → Cells → Type 0
Away a = All (λ c. a ≢ c.0)

-- Each entry is in memory, leads to the one after it, and has an address of its own.
abbrev pub Chain : (ℕ → Option QueueEntry) → Cells → Type 0
Chain cells [] = Unit
Chain cells ((a, w) ∷ xs) =
    (cells a ≡ some (record { work = w; next = head_addr xs })) × Away a xs × Chain cells xs

pub Away-snoc : (a b w : ℕ) (xs : Cells) → Away a xs → a ≢ b → Away a (xs ++ ((b, w) ∷ []))
Away-snoc a b w [] h ne = (ne, tt)
Away-snoc a b w (c ∷ xs) h ne = (h.0, Away-snoc a b w xs h.1 ne)

-- A write at an address outside the chain leaves the chain.
pub Chain-write :
    (cells : ℕ → Option QueueEntry) (a : ℕ) (e : Option QueueEntry) (xs : Cells)
    → Away a xs
    → Chain cells xs
    → Chain (write cells a e) xs
Chain-write cells a e [] out c = tt
Chain-write cells a e ((b, w) ∷ xs) out c =
    (ground (arith, out.0), c.1, Chain-write cells a e xs out.1 c.2)

-- The last entry of a chain is in memory, with no successor.
pub last-Chain :
    {cells : ℕ → Option QueueEntry} (c : ℕ × ℕ) (xs : Cells)
    → Chain cells (c ∷ xs)
    → (l : ℕ) × (w : ℕ) × (last_addr (c ∷ xs) ≡ some l)
      × (cells l ≡ some (record { work = w; next = none }))
last-Chain (a, w) [] ch = (a, w, refl, ch.0)
last-Chain (a, w) (d ∷ xs) ch = last-Chain d xs ch.2

pub Away-last :
    (a : ℕ) (c : ℕ × ℕ) (xs : Cells) (l : ℕ) → Away a (c ∷ xs) → last_addr (c ∷ xs) ≡ some l → a ≢ l
Away-last a (b, w) [] l out e = ground (arith, out.0)
Away-last a (b, w) (d ∷ xs) l out e = Away-last a d xs l out.1 e

head_addr-append : (c : ℕ × ℕ) (xs ys : Cells) → head_addr ((c ∷ xs) ++ ys) ≡ head_addr (c ∷ xs)
head_addr-append (a, w) xs ys = refl

pub last_addr-snoc : (xs : Cells) (a w : ℕ) → last_addr (xs ++ ((a, w) ∷ [])) ≡ some a
last_addr-snoc [] a w = refl
last_addr-snoc ((b, v) ∷ []) a w = refl
last_addr-snoc ((b, v) ∷ c ∷ xs) a w = last_addr-snoc (c ∷ xs) a w

-- Linking a new entry behind the last one extends the chain by that entry.
pub Chain-snoc :
    (cells : ℕ → Option QueueEntry) (c : ℕ × ℕ) (xs : Cells) (a w l v : ℕ)
    → Chain cells (c ∷ xs)
    → Away a (c ∷ xs)
    → cells a ≡ some (record { work = w; next = none })
    → last_addr (c ∷ xs) ≡ some l
    → cells l ≡ some (record { work = v; next = none })
    → Chain (write cells l (some (record { work = v; next = some a }))) ((c ∷ xs) ++ ((a, w) ∷ []))
Chain-snoc cells (b, u) [] a w l v ch out fresh last e =
    (ground (arith, out.0), (ground (arith, out.0), tt), (ground (arith, out.0), tt, tt))
Chain-snoc cells (b, u) (d ∷ xs) a w l v ch out fresh last e =
    let apart = Away-last b d xs l ch.1 last in
    (
      ground (arith, apart, ch.0),
      Away-snoc b a w (d ∷ xs) ch.1 (λ q. out.0 (sym q)),
      Chain-snoc cells d xs a w l v ch.2 out.1 fresh last e,
    )
