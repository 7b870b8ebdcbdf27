-- ===== src/Ctl/Safe.antt =====
-- Parts of the control program that keep the daemon's devices, once its list of devices is locked.
use qaoed.Base.{
  List, Bool, true, false, Outcome, done, fault, blocked, if◌then◌else◌, ap, ◌≡◌, refl,
}
use qaoed.Base.Ensures.{Ensures, done-Ensures, fault-Ensures, blocked-Ensures}
use qaoed.Conf.{AoeDev, QConfig}
use qaoed.Main.{Life, alive, exited}
use qaoed.Api.Dispatch.{Answers}
use qaoed.Ctl.{Line, Session, Action, ◌>>=◌, pure, exit, waits, breaks, lift, print}
use qaoed.Ctl.Serve.{Request, Reaction, closed, serve}
use qaoed.Ctl.Serve.Held.{Kept, Served, serve-Kept}
use qaoed.Ctl.Print.{exchange}

-- A part that has run is followed by the next one, and an exit by nothing.
module _ {A B : Type 0} (f : A → Action B) (o : Outcome (Life A × Session)) (s' : Session) where
  abbrev next : Outcome (Life A × Session) → Outcome (Life B × Session)
  next o = elim o [
    | done (r, s2) ↦ elim r [ alive a ↦ f a s2 | exited ↦ done (exited, s2) ]
    | fault ↦ fault
    | blocked ↦ blocked
  ]

  pub bind_alive : (a : A) → o ≡ done (alive a, s') → next o ≡ f a s'
  bind_alive a e = ap next e

  pub bind_exited : o ≡ done (exited, s') → next o ≡ done (exited, s')
  bind_exited e = ap next e

  pub bind_fault : o ≡ fault → next o ≡ fault
  bind_fault e = ap next e

abbrev pub After : {A : Type 0} → List AoeDev → Life A × Session → Type 0
After ds p = Kept ds p.1.conf

abbrev pub Safe : {A : Type 0} → List AoeDev → Action A → Type 0
Safe ds m = (s : Session) → Kept ds s.conf → Ensures (After ds) (m s)

module _ (ds : List AoeDev) where
  -- What follows a part that has run.
  pub then-After :
      {A B : Type 0} (f : A → Action B) (o : Outcome (Life A × Session))
      → Ensures (After ds) o
      → ((a : A) → Safe ds (f a))
      → Ensures (After ds) (elim o [
        | done (r, s') ↦ elim r [ alive a ↦ f a s' | exited ↦ done (exited, s') ]
        | fault ↦ fault
        | blocked ↦ blocked
      ])
  then-After f (done (alive a, s')) h hf = hf a s' (h (alive a, s') refl)
  then-After f (done (exited, s')) h hf = done-Ensures (After ds) (exited, s') (h (exited, s') refl)
  then-After f fault h hf = fault-Ensures (After ds)
  then-After f blocked h hf = blocked-Ensures (After ds)

  pub bind-Safe :
      {A B : Type 0} (m : Action A) (f : A → Action B)
      → Safe ds m
      → ((a : A) → Safe ds (f a))
      → Safe ds (m >>= f)
  bind-Safe m f hm hf s k = then-After f (m s) (hm s k) hf

  pub pure-Safe : {A : Type 0} (a : A) → Safe ds (pure a)
  pure-Safe a s k = done-Ensures (After ds) (alive a, s) k

  pub exit-Safe : {A : Type 0} → Safe ds (exit {A = A})
  exit-Safe {A} s k = done-Ensures (After {A = A} ds) (exited, s) k

  pub waits-Safe : {A : Type 0} → Safe ds (waits {A = A})
  waits-Safe {A} s k = blocked-Ensures (After {A = A} ds)

  pub breaks-Safe : {A : Type 0} → Safe ds (breaks {A = A})
  breaks-Safe {A} s k = fault-Ensures (After {A = A} ds)

  pub print-Safe : (l : Line) → Safe ds (print l)
  print-Safe l s k = done-Ensures (After ds) _ k

  pub if-Safe :
      {A : Type 0} (b : Bool) (m n : Action A)
      → Safe ds m
      → Safe ds n
      → Safe ds (if b then m else n)
  if-Safe true m n p q = p
  if-Safe false m n p q = q

  pub lift-Safe : {A : Type 0} (m : Outcome A) → Safe ds (lift m)
  lift-Safe (done a) s k = done-Ensures (After ds) (alive a, s) k
  lift-Safe fault s k = fault-Ensures (After ds)
  lift-Safe blocked s k = blocked-Ensures (After ds)

-- The answer of the daemon, or of a socket that is not open.
pub exchange-After :
    (ds : List AoeDev) (ans : Request → Answers) (r : Request) (s : Session)
    → Ensures (Served ds) (serve (ans r) r s.conf)
    → (s.connected ≡ false → Kept ds s.conf)
    → Ensures (After ds) (exchange ans r s)
unfolding exchange
exchange-After ds ans r s h k = open_or_not s.connected k
  where
    answered :
        (o : Outcome (Reaction × QConfig))
        → Ensures (Served ds) o
        → Ensures (After {A = Reaction} ds) (elim o [
          | done (reaction, conf') ↦ done (alive reaction, record s { conf = conf' })
          | fault ↦ fault
          | blocked ↦ blocked
        ])
    answered (done (reaction, conf')) h' =
        done-Ensures (After ds) (alive reaction, record s { conf = conf' })
          (h' (reaction, conf') refl)
    answered fault h' = fault-Ensures (After ds)
    answered blocked h' = blocked-Ensures (After ds)

    open_or_not :
        (b : Bool)
        → (b ≡ false → Kept ds s.conf)
        → Ensures (After {A = Reaction} ds) (elim b [
          | false ↦ done (alive closed, s)
          | true ↦ elim (serve (ans r) r s.conf) [
            | done (reaction, conf') ↦ done (alive reaction, record s { conf = conf' })
            | fault ↦ fault
            | blocked ↦ blocked
          ]
        ])
    open_or_not false k' = done-Ensures (After ds) (alive closed, s) (k' refl)
    open_or_not true k' = answered (serve (ans r) r s.conf) h

pub exchange-Safe :
    (ds : List AoeDev) (ans : Request → Answers) (r : Request) → Safe ds (exchange ans r)
exchange-Safe ds ans r s k = exchange-After ds ans r s (serve-Kept (ans r) r ds s.conf k) (λ e. k)
