-- ===== src/Spinlock.antt =====
-- spinlock.c: pushcli and popcli of a processor, and a lock, with acquire and release cut at their
-- accesses to the lock. Its name and the callers' addresses, kept for debugging, are left out.
pub mod Exclusion
pub mod Safety
mod Tests
use os_project2_test.Prelude.{
  ℕ, suc, ◌+◌, ◌-◌, Bool, true, false, not, ◌&&◌, Option, none, some, ◌==◌, ◌≡◌, if◌then◌else◌,
}

-- A processor's interrupt flag, and `ncli` and `intena` of `struct cpu`.
pub record Cpu : Type 0 where
  pub enabled : Bool
  pub ncli : ℕ
  pub intena : Bool

pub pushcli : Cpu → Cpu
pushcli cpu = record {
  enabled = false;
  ncli = cpu.ncli + 1;
  intena = if cpu.ncli == 0 then cpu.enabled else cpu.intena;
}

-- `none` is a panic.
pub popcli : Cpu → Option Cpu
popcli cpu =
    if cpu.enabled
    then none
    else if cpu.ncli == 0
    then none
    else some (record cpu { ncli = cpu.ncli - 1; enabled = cpu.ncli - 1 == 0 && cpu.intena })

-- `struct spinlock`; `cpu` is `none` for a null pointer.
pub record Spinlock : Type 0 where
  pub locked : Bool
  pub cpu : Option ℕ

abbrev pub initlock : Spinlock
initlock = record { locked = false; cpu = none }

abbrev pub is_cpu : Option ℕ → ℕ → Bool
is_cpu none c = false
is_cpu (some d) c = d == c

-- The answer to processor `c`.
pub holding : ℕ → Spinlock → Cpu → Option (Bool × Cpu)
holding c lk cpu = elim (popcli (pushcli cpu)) [
  | none ↦ none
  | some cpu' ↦ some (lk.locked && is_cpu lk.cpu c, cpu')
]

-- `acquire` up to its loop.
pub start_acquire : ℕ → Spinlock → Cpu → Option Cpu
start_acquire c lk cpu = elim (holding c lk (pushcli cpu)) [
  | none ↦ none
  | some (held, cpu') ↦ if held then none else some cpu'
]

-- `xchg(&lk->locked, 1)`: the lock, and whether the loop ends.
abbrev pub try_lock : Spinlock → Spinlock × Bool
try_lock lk = (record lk { locked = true }, not lk.locked)

-- `release` up to the store that frees the lock.
pub start_release : ℕ → Spinlock → Cpu → Option (Spinlock × Cpu)
start_release c lk cpu = elim (holding c lk cpu) [
  | none ↦ none
  | some (held, cpu') ↦ if held then some (record lk { cpu = none }, cpu') else none
]

-- Where a processor is: not at the lock, in acquire's loop, behind it, in the critical section, or in
-- release before the store that frees the lock.
pub data Phase : Type 0 where
  outside spinning won inside leaving : Phase

pub record System : Type 0 where
  pub lock : Spinlock
  pub cpus : ℕ → Cpu
  pub phase : ℕ → Phase

abbrev pub put : {A : Type 0} → ℕ → A → (ℕ → A) → ℕ → A
put c v f a = if c == a then v else f a

-- Steps of processor `c`; those of several processors come in any order.
pub data Step : System → System → Type 0 where
  starts :
      {s : System} (c : ℕ) (cpu : Cpu)
      → s.phase c ≡ outside
      → start_acquire c s.lock (s.cpus c) ≡ some cpu
      → Step s (record s { cpus = put c cpu s.cpus; phase = put c spinning s.phase })
  tries :
      {s : System} (c : ℕ)
      → s.phase c ≡ spinning
      → Step s (record s {
        lock = (try_lock s.lock).0;
        phase = put c (if (try_lock s.lock).1 then won else spinning) s.phase;
      })
  records :
      {s : System} (c : ℕ)
      → s.phase c ≡ won
      → Step s (record s { lock = record s.lock { cpu = some c }; phase = put c inside s.phase })
  leaves :
      {s : System} (c : ℕ) (lk : Spinlock) (cpu : Cpu)
      → s.phase c ≡ inside
      → start_release c s.lock (s.cpus c) ≡ some (lk, cpu)
      → Step s (record s { lock = lk; cpus = put c cpu s.cpus; phase = put c leaving s.phase })
  frees :
      {s : System} (c : ℕ) (cpu : Cpu)
      → s.phase c ≡ leaving
      → popcli (s.cpus c) ≡ some cpu
      → Step s (record s {
        lock = record s.lock { locked = false };
        cpus = put c cpu s.cpus;
        phase = put c outside s.phase;
      })

pub data Reach (s : System) : System → Type 0 where
  here : Reach s s
  next : {t u : System} → Reach s t → Step t u → Reach s u
