-- ===== src/Api/Lock.antt =====
-- The read-write locks of the lists, as pthread_rwlock_rdlock, _wrlock and _unlock document them for
-- one thread: a lock that is not free for the caller is waited for, and the unlock of a lock that
-- nobody holds is undefined.
use qaoed.Base.{
  ℕ, zero, suc, ◌+◌, Bool, true, false, Outcome, done, fault, blocked, if◌then◌else◌, ◌==◌, not,
  ◌||◌,
}
use qaoed.Conf.{RwLock}

unfoldable pub rdlock : RwLock → Outcome RwLock
rdlock l = if l.writer then blocked else done (record l { readers = l.readers + 1 })

unfoldable pub wrlock : RwLock → Outcome RwLock
wrlock l = if l.writer || not (l.readers == 0) then blocked else done (record l { writer = true })

unfoldable pub unlock_for : ℕ → Bool → Outcome RwLock
unlock_for readers true = done (record { readers = readers; writer = false })
unlock_for zero false = fault
unlock_for (suc readers) false = done (record { readers = readers; writer = false })

unfoldable pub unlock : RwLock → Outcome RwLock
unlock l = unlock_for l.readers l.writer
