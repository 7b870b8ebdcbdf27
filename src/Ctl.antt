-- ===== src/Ctl.antt =====
-- qdctl.c: the control program, with the daemon at the other end of its socket (Serve). The lines that it
-- prints are values. A `recv` waits until something arrives, and what one `send` writes arrives as
-- one piece.
pub mod Serve
pub mod Print
pub mod Commands
pub mod Safe
pub mod Replies
pub mod Devices
pub mod Listing
pub mod Locked
use qaoed.Base.{
  ℕ, ℤ, String, List, [], ◌∷◌, ◌++◌, Option, none, some, Bool, true, false, Outcome, done, fault,
  blocked,
}
use qaoed.Conf.{QConfig}
use qaoed.Main.{Life, alive, exited}
use qaoed.Api.{TargetInfo}
use qaoed.Api.Query.{Status, AclInfo, IfInfo}

-- What is printed: a text, with a number, the status, or a row of a list.
pub data Line : Type 0 where
  says : String → Line
  says_number : String → ℤ → Line
  shows_status : Status → Line
  shows_target shows_details : TargetInfo → Line
  shows_interface : IfInfo → Line
  shows_acl : AclInfo → Line

-- The daemon's configuration, what was printed, and whether the socket is open.
pub record Session : Type 0 where
  pub conf : QConfig
  pub printed : List Line
  pub connected : Bool

-- A part of the program: it goes on, or it calls `exit`.
abbrev pub Action : Type 0 → Type 0
Action A = Session → Outcome (Life A × Session)

infixl 5 ◌>>=◌ ◌>>◌
abbrev pub ◌>>=◌ : {A B : Type 0} → Action A → (A → Action B) → Action B
◌>>=◌ m f s = elim (m s) [
  | done (r, s') ↦ elim r [ alive a ↦ f a s' | exited ↦ done (exited, s') ]
  | fault ↦ fault
  | blocked ↦ blocked
]

abbrev pub ◌>>◌ : {B : Type 0} → Action (Unit {0}) → Action B → Action B
m >> k = m >>= λ _. k

module _ {A : Type 0} where
  abbrev pub pure : A → Action A
  pure a s = done (alive a, s)

  abbrev pub exit : Action A
  exit s = done (exited, s)

  abbrev pub waits : Action A
  waits s = blocked

  abbrev pub breaks : Action A
  breaks s = fault

  -- A computation without the session.
  abbrev pub lift : Outcome A → Action A
  lift m s = elim m [ done a ↦ done (alive a, s) | fault ↦ fault | blocked ↦ blocked ]

abbrev pub print : Line → Action (Unit {0})
print l s = done (alive tt, record s { printed = s.printed ++ (l ∷ []) })
