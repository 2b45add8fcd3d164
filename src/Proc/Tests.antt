-- ===== src/Proc/Tests.antt =====
-- A process table of four entries: init, a shell, a dead child of the shell, and a free entry.
use os_project2_test.Prelude.{
  ℕ, ◌≡◌, ◌+◌, ◌^◌, refl, false, none, some, List, [], ◌∷◌, length, min, map, arith, Split,
  find_index, find_first,
}
use os_project2_test.Proc.{
  Trapframe, Proc, PerfData, Kernel, Call, unused, sleeping, runnable, running, zombie, null,
  at_proc, nowhere, perf_of,
}
use os_project2_test.Proc.Perf.{
  get_creation_time, get_start_time, get_completion_time, get_total_run_time, get_total_ready_time,
}
use os_project2_test.Proc.Perf.Laws.{used}
use os_project2_test.Proc.Alloc.{allocproc, fork}
use os_project2_test.Proc.Wake.{kill, sleep_enter}
use os_project2_test.Proc.Exit.{finalize, exit_family, exit_figures, wait_round, returns, sleeps}
use os_project2_test.Proc.Exit.Laws.{Left, exit_family-Left}
use os_project2_test.Proc.Exit.Laws.Wait.{is_dead_child, passed_over, wait_round_full}
use os_project2_test.Proc.Exit.Laws.Figures.{exit_wait_figures}
use os_project2_test.Proc.Lottery.{total_tickets, update_metrics}
use os_project2_test.Proc.Lottery.Draw.{share_at, wins, wins-total_tickets}
use os_project2_test.Proc.Lottery.Flood.{stale, used-update_metrics}
use os_project2_test.Proc.Pids.{IsValid}
use os_project2_test.Proc.Pids.Reach.{Step, start, later, forks, kills, Reach-IsValid}

abbrev frame : Trapframe
frame = record { eax = 0; esp = 0; eip = 0; eflags = 0; others = [] }

abbrev free : Proc
free = record {
  sz = 0;
  pgdir = 0;
  kstack = 0;
  state = unused;
  pid = 0;
  parent = none;
  tf = frame;
  context = nowhere;
  chan = null;
  killed = false;
  runticks = 0;
  ofile = [];
  cwd = none;
  name = [];
  tickets = 0;
  enqueue_time = 0;
  creation_time = 0;
  start_time = 0;
  completion_time = 0;
  total_run_time = 0;
  total_ready_time = 0;
}

abbrev init : Proc
init = record free { state = sleeping; pid = 1; chan = at_proc 0; tickets = 10 }

abbrev shell : Proc
shell = record free { state = running; pid = 2; parent = some 0; tickets = 10; creation_time = 3 }

abbrev dead : Proc
dead = record free {
  state = zombie;
  pid = 3;
  parent = some 1;
  kstack = 4096;
  pgdir = 8192;
  creation_time = 4;
  start_time = 4;
  completion_time = 6;
  total_run_time = 2;
}

abbrev no_record : PerfData
no_record = record (perf_of free) { valid = false }

abbrev kernel : Kernel
kernel = record {
  table = init ∷ shell ∷ dead ∷ free ∷ [];
  perf = no_record ∷ no_record ∷ no_record ∷ [];
  nextpid = 4;
  ticks = 9;
  last_completion_time = 0;
  initproc = 0;
  seed = 1;
}

kernel-IsValid : IsValid kernel
kernel-IsValid = record {
  distinct = (
    (λ _. (refl, (refl, (refl, tt)))),
    ((λ _. (refl, (refl, tt))), ((λ _. (refl, tt)), ((λ _. tt), tt))),
  );
  below = (refl, (refl, (refl, (refl, tt))));
}

-- The shell forks, the child being given page 4096 and page table 512; then process 1 is killed.
abbrev forked : Kernel
forked = elim (fork kernel 1 (some 4096) 512) [ none ↦ kernel | some (_, k, _) ↦ k ]

abbrev fork_calls : List Call
fork_calls = elim (fork kernel 1 (some 4096) 512) [ none ↦ [] | some (_, _, calls) ↦ calls ]

fork_forks : Step kernel forked
unfolding fork allocproc find_index
fork_forks = forks 1 (some 4096) 512 4 fork_calls (omega arith) refl

Reach-IsValid_example : IsValid (kill forked 1).1
Reach-IsValid_example = Reach-IsValid (later (later start fork_forks) (kills 1)) kernel-IsValid

exit_family-Left_example : (k : Kernel) × (exit_family kernel 1 ≡ some k) × Left kernel k 1 shell
exit_family-Left_example = exit_family-Left kernel 1 shell refl (omega arith)

abbrev found : Split (is_dead_child 1) kernel.table
found = record {
  before = init ∷ shell ∷ [];
  hit = dead;
  after = free ∷ [];
  parts = refl;
  passes = refl;
  fails = (refl, (refl, tt));
}

abbrev full : Kernel
full = record kernel { perf = perf_of shell ∷ [] }

wait_round_full_example :
    wait_round full 1
    ≡ sleeps
        (sleep_enter (record full { table = map (passed_over 1 9) kernel.table }) 1 (at_proc 1))
wait_round_full_example = wait_round_full full 1 shell (refl, tt) refl refl

-- The dead child is the one that has just filed its figures.
exit_wait_figures_example :
    (k₃ : Kernel) × (calls : List Call) × (wait_round
        (record kernel { perf = (exit_figures kernel 2 dead).perf })
        1
      ≡ returns 3 k₃ calls)
    × (get_creation_time k₃ 3 ≡ 4)
    × (get_start_time k₃ 3 ≡ 4)
    × (get_completion_time k₃ 3 ≡ (finalize 9 dead).completion_time)
    × (get_total_run_time k₃ 3 ≡ (finalize 9 dead).total_run_time)
    × (get_total_ready_time k₃ 3 ≡ (finalize 9 dead).total_ready_time)
unfolding find_first
exit_wait_figures_example =
    exit_wait_figures kernel 2 dead ((λ _. refl), ((λ _. refl), ((λ _. refl), tt))) (omega arith)
      refl (omega arith) (record kernel { perf = (exit_figures kernel 2 dead).perf }) 1 found refl
      refl (refl, (refl, tt)) (refl, tt)

-- Two processes ready to run, the first with many tickets.
abbrev many : ℕ
many = 2 ^ 15

abbrev ready : List Proc
ready =
    record init { state = runnable; tickets = many } ∷ record shell { state = runnable } ∷ free ∷ []

wins-total_tickets_example : wins ready 1 (total_tickets ready 0) ≡ share_at ready 1
wins-total_tickets_example = wins-total_tickets ready 1 (omega arith)

-- The one free entry of the table already takes a record of the history.
used-update_metrics_example :
    (used (update_metrics 9 kernel.table kernel.perf).1
      ≡ min (length kernel.perf) (used kernel.perf + stale kernel.table))
    × (length (update_metrics 9 kernel.table kernel.perf).1 ≡ length kernel.perf)
used-update_metrics_example = used-update_metrics 9 kernel.table kernel.perf

one_stale : stale kernel.table ≡ 1
one_stale = refl

abbrev waiting : Proc
waiting = record shell { state = runnable; enqueue_time = 5 }
