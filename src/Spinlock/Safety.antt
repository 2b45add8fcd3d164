-- ===== src/Spinlock/Safety.antt =====
-- Any order of steps: one processor in the critical section, no panic, and each interrupt flag put back.
use os_project2_test.Prelude.{ℕ, ◌≡◌, refl, ap, Bool, true, false, some, ◌==◌, arith}
use os_project2_test.Spinlock.{
  Cpu, pushcli, popcli, Spinlock, initlock, start_acquire, start_release, outside, inside, leaving,
  System, Step, starts, tries, records, leaves, frees, Reach, here, next,
}
use os_project2_test.Spinlock.Exclusion.{
  has_lock, IsValid, start_acquire_lem, start_release_lem, popcli_last, Quiet-at, owner_at,
  starts-IsValid, tries-IsValid, records-IsValid, leaves-IsValid, frees-IsValid,
}

Step-IsValid : (flag : ℕ → Bool) {s t : System} → Step s t → IsValid flag s → IsValid flag t
Step-IsValid flag {s = s} (starts c cpu h e) v = starts-IsValid flag s v c cpu h e
Step-IsValid flag {s = s} (tries c h) v = tries-IsValid flag s v c h
Step-IsValid flag {s = s} (records c h) v = records-IsValid flag s v c h
Step-IsValid flag {s = s} (leaves c lk cpu h e) v = leaves-IsValid flag s v c lk cpu h e
Step-IsValid flag {s = s} (frees c cpu h e) v = frees-IsValid flag s v c cpu h e

Reach-IsValid : (flag : ℕ → Bool) {s t : System} → IsValid flag s → Reach s t → IsValid flag t
Reach-IsValid flag v here = v
Reach-IsValid flag v (next r step) = Step-IsValid flag step (Reach-IsValid flag v r)

-- A free lock, and processors that hold no lock and have the interrupt flags given.
abbrev pub start : (ℕ → Bool) → System
start flag = record {
  lock = initlock;
  cpus = λ c. record { enabled = flag c; ncli = 0; intena = false };
  phase = λ c. outside;
}

start-IsValid : (flag : ℕ → Bool) → IsValid flag (start flag)
start-IsValid flag = record {
  one = λ c d h k. absurd (ground arith);
  taken = λ c h. absurd (ground arith);
  owner = λ c. refl;
  quiet = λ c. (refl, refl);
}

-- What holds after any steps.
pub record IsSafe (flag : ℕ → Bool) (s : System) : Type 0 where
  pub alone : (c d : ℕ) → s.phase c ≡ inside → s.phase d ≡ inside → (c == d) ≡ true
  pub off : (c : ℕ) → s.phase c ≡ inside → (s.cpus c).enabled ≡ false
  pub back : (c : ℕ) → s.phase c ≡ outside → (s.cpus c).enabled ≡ flag c
  pub acquires :
      (c : ℕ) → s.phase c ≡ outside → (cpu : Cpu) × (start_acquire c s.lock (s.cpus c) ≡ some cpu)
  pub releases :
      (c : ℕ)
      → s.phase c ≡ inside
      → (r : Spinlock × Cpu) × (start_release c s.lock (s.cpus c) ≡ some r)
  pub pops : (c : ℕ) → s.phase c ≡ leaving → (cpu : Cpu) × (popcli (s.cpus c) ≡ some cpu)

-- After any steps of any processors in any order, from a free lock and processors that hold
-- none: at most one is in the critical section, and there with interrupts off; a processor that
-- is not at the lock has the interrupt flag it had at the start; no panic in `acquire`,
-- `release` or `popcli` is met.
pub Reach-IsSafe : (flag : ℕ → Bool) (s : System) → Reach (start flag) s → IsSafe flag s
Reach-IsSafe flag s r =
    let v = Reach-IsValid flag (start-IsValid flag) r in
    record {
      alone = λ c d h k. v.one c d (ap has_lock h) (ap has_lock k);
      off = λ c h. (Quiet-at flag s v c inside h).1;
      back = λ c h. (Quiet-at flag s v c outside h).1;
      acquires = λ c h. (
        pushcli (s.cpus c),
        start_acquire_lem c s.lock (s.cpus c) (owner_at flag s v c outside h),
      );
      releases = λ c h.
          let (n, off, i) = Quiet-at flag s v c inside h in
          (
            _,
            start_release_lem c s.lock (s.cpus c) off (ground arith) (v.taken c (ap has_lock h))
                (owner_at flag s v c inside h),
          );
      pops = λ c h. (_, popcli_last (flag c) (s.cpus c) (Quiet-at flag s v c leaving h));
    }
