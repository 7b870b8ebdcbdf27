-- ===== src/Ctl/Locked.antt =====
-- qdctl.c: what becomes of any run of the control program that reaches the daemon (openapi), by the
-- lock that the request for the status gives back without having taken it (processSTATUSrequest of
-- api.c).
use qaoed.Base.{◌<◌, ◌≡◌, ◌⊎◌, List, true, false, Outcome, done, fault, blocked}
use qaoed.Base.Ensures.{Ensures}
use qaoed.Conf.{RwLock, AoeDev}
use qaoed.Main.{Life}
use qaoed.Api.Lock.{wrlock}
use qaoed.Ctl.{Session}

-- Nobody has the lock; somebody has it.
abbrev pub IsFree : RwLock → Type 0
IsFree l = (l.readers ≡ 0) × (l.writer ≡ false)

abbrev pub IsTaken : RwLock → Type 0
IsTaken l = (0 < l.readers) ⊎ (l.writer ≡ true)

-- If the run ends, the daemon has the devices that it had, and nobody can lock their list for writing.
abbrev pub Locked : List AoeDev → Outcome (Life (Unit {0}) × Session) → Type 0
Locked ds (done (r, s')) = (s'.conf.devices ≡ ds) × (wrlock s'.conf.devlistlock ≡ blocked)
Locked ds fault = Unit
Locked ds blocked = Unit
