-- ===== src/Proc/Robin.antt =====
-- The scheduler of proc.c when SCHEDULER_DEFAULT is defined: one pass over the process table. What
-- happens between `swtch` into a process and the switch back is the argument `run`.
pub mod Ready
use os_project2_test.Prelude.{
  ℕ, zero, suc, Bool, true, false, not, ◌||◌, Option, none, some, List, ◌==◌, if◌then◌else◌, modify,
  get_elem?, add32, sub32, lt_int, length,
}
use os_project2_test.Proc.{Proc, Kernel, running, is_runnable}
use os_project2_test.Proc.Lottery.{is_done}

-- Up to `swtch`. Unlike the lottery, this leaves `enqueue_time` as it is.
abbrev pub begin_run : ℕ → ℕ → Proc → Proc
begin_run ticks last p = record p {
  state = running;
  start_time = if p.start_time == 0 then last else p.start_time;
  total_ready_time =
      if lt_int 0 p.enqueue_time
      then add32 p.total_ready_time (sub32 ticks p.enqueue_time)
      else p.total_ready_time;
}

abbrev pub count_run : ℕ → ℕ → Proc → Proc
count_run ticks run_start p = record p {
  total_run_time = add32 p.total_run_time (sub32 ticks run_start);
}

-- After the process at `i` has switched back, having started at `run_start`.
abbrev pub end_run : ℕ → ℕ → Kernel → Kernel
end_run i run_start k = elim (get_elem? k.table i) [
  | none ↦ k
  | some p ↦
      let q = count_run k.ticks run_start p in
      if is_done p
      then record k {
        table = modify i (λ _. record q { completion_time = k.ticks }) k.table;
        last_completion_time = k.ticks;
      }
      else record k { table = modify i (λ _. q) k.table }
]

module _ (run : ℕ → Kernel → Kernel) where
  abbrev pub visit : ℕ → Kernel → Kernel
  visit i k = elim (get_elem? k.table i) [
    | none ↦ k
    | some p ↦
        if not (is_runnable p.state)
        then k
        else end_run i k.ticks (
            run i
              (record k { table = modify i (begin_run k.ticks k.last_completion_time) k.table }))
  ]

  -- The entries from `i` on, of which `n` are left.
  pub pass : ℕ → ℕ → Kernel → Kernel
  pass zero i k = k
  pass (suc n) i k = pass n (suc i) (visit i k)

  abbrev pub robin : Kernel → Kernel
  robin k = pass (length k.table) 0 k
