-- ===== src/Sleeplock.antt =====
-- sleeplock.c. `acquiresleep` is cut where it sleeps: a round takes the lock, or goes to sleep on it.
pub mod Exclusion
mod Tests
use os_project2_test.Prelude.{ℕ, Bool, true, false, ◌&&◌, Option, none, some, ◌==◌, if◌then◌else◌}

-- `struct sleeplock`, without its spin lock and its name.
pub record Sleeplock : Type 0 where
  pub locked : Bool
  pub pid : ℕ

abbrev pub initsleeplock : Sleeplock
initsleeplock = record { locked = false; pid = 0 }

-- A round by process `pid`; `none` is to sleep.
pub acquiresleep : ℕ → Sleeplock → Option Sleeplock
acquiresleep pid lk = if lk.locked then none else some (record lk { locked = true; pid = pid })

-- Wakes those that sleep on the lock.
pub releasesleep : Sleeplock → Sleeplock
releasesleep lk = record lk { locked = false; pid = 0 }

pub holdingsleep : ℕ → Sleeplock → Bool
holdingsleep pid lk = lk.locked && lk.pid == pid
