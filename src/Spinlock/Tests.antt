-- ===== src/Spinlock/Tests.antt =====
-- Processor 1 takes the lock with interrupts on.
use os_project2_test.Prelude.{ℕ, refl, Bool, true, false, some}
use os_project2_test.Spinlock.{
  Cpu, pushcli, popcli, holding, start_acquire, initlock, spinning, won, inside, System, put,
  starts, tries, records, Reach, here, next,
}
use os_project2_test.Spinlock.Safety.{start, IsSafe, Reach-IsSafe}

abbrev on : ℕ → Bool
on c = true

abbrev at_lock : Cpu
at_lock = record { enabled = false; ncli = 1; intena = true }

abbrev first : System
first = record (start on) {
  cpus = put 1 at_lock (start on).cpus;
  phase = put 1 spinning (start on).phase;
}

abbrev second : System
second = record first { lock = record initlock { locked = true }; phase = put 1 won first.phase }

abbrev third : System
third = record second {
  lock = record { locked = true; cpu = some 1 };
  phase = put 1 inside second.phase;
}

steps : Reach (start on) third
unfolding start_acquire holding pushcli popcli
steps = next (next (next here (starts 1 at_lock refl refl)) (tries 1 refl)) (records 1 refl)

Reach-IsSafe_example : IsSafe on third
Reach-IsSafe_example = Reach-IsSafe on third steps
