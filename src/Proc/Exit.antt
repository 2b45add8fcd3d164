-- ===== src/Proc/Exit.antt =====
-- exit and wait of proc.c.
pub mod Laws
use os_project2_test.Prelude.{
  ℕ, zero, suc, ◌+◌, Bool, true, false, not, ◌&&◌, ◌||◌, Option, none, some, List, [], ◌∷◌, ◌++◌,
  ◌==◌, if◌then◌else◌, map, modify, get_elem?, length, minus_one, add32, le_int,
}
use mathlib.Core.Option
use os_project2_test.Proc.{
  Proc, PerfData, perf_of, Kernel, Call, kfree_page, freevm, fileclose, iput, Chan, at_proc,
  chan_of, is_proc, State, unused, zombie, is_zombie, in_sched,
}
use os_project2_test.Proc.Perf.{store}
use os_project2_test.Proc.Wake.{end_ready, wakeup1, sleep_enter}

-- The three statements that make a process's figures final.
abbrev pub finalize : ℕ → Proc → Proc
finalize ticks p = end_ready ticks (record p {
  completion_time = if le_int p.completion_time p.creation_time then ticks else p.completion_time;
  total_run_time = if p.total_run_time == 0 then 1 else p.total_run_time;
})

abbrev pub close_files : List (Option ℕ) → List Call
close_files [] = []
close_files (none ∷ fs) = close_files fs
close_files (some f ∷ fs) = fileclose f ∷ close_files fs

-- One round of the loop over children: `if(p->parent == curproc) { ... }`.
abbrev pub adopt : ℕ → ℕ → ℕ → ℕ → List Proc → List Proc
adopt cur init ticks i table = elim (get_elem? table i) [
  | none ↦ table
  | some p ↦
      let table' = modify i (λ q. record q { parent = some init }) table in
      if not (is_proc p.parent cur)
      then table
      else if is_zombie p.state
      then wakeup1 (at_proc init) ticks table'
      else table'
]

-- `rounds` rounds from index `i` on.
unfoldable pub adopt_from : ℕ → ℕ → ℕ → ℕ → ℕ → List Proc → List Proc
adopt_from cur init ticks zero i table = table
adopt_from cur init ticks (suc rounds) i table =
    adopt_from cur init ticks rounds (suc i) (adopt cur init ticks i table)

-- From the first `acquire` to its `release`: the figures and the history.
unfoldable pub exit_figures : Kernel → ℕ → Proc → Kernel
exit_figures k cur p = record k {
  table = modify cur (finalize k.ticks) k.table;
  perf = (store (perf_of (finalize k.ticks p)) k.perf).0;
}

-- From the second `acquire` to `sched()`.
unfoldable pub exit_family : Kernel → ℕ → Option Kernel
exit_family k cur = elim (get_elem? k.table cur) [
  | none ↦ none
  | some p ↦ some (record k {
    table =
        modify cur (λ q. record q { state = zombie; context = in_sched })
          (adopt_from cur k.initproc k.ticks (length k.table) 0
            (wakeup1 (chan_of p.parent) k.ticks k.table));
  })
]

abbrev pub no_files : Proc → Proc
no_files p = record p { ofile = map (λ f. none) p.ofile; cwd = none }

-- `none` is the panic of init, or a process pointer outside the table.
pub exit : Kernel → ℕ → Option (Kernel × List Call)
unfolding exit_figures exit_family
exit k cur = elim (get_elem? k.table cur) [
  | none ↦ none
  | some p ↦
      if cur == k.initproc
      then none
      else let k₁ = exit_figures k cur p in
        let k₂ = record k₁ { table = modify cur no_files k₁.table } in
        Option.map (λ k₃. (k₃, close_files p.ofile ++ iput p.cwd ∷ [])) (exit_family k₂ cur)
]

-- What one pass of `wait` over the table comes to.
pub data Scan : Type 0 where
  reaped : ℕ → List Proc → List PerfData → List Call → Scan
  scanned : Bool → List Proc → Scan

abbrev pub after : Proc → Scan → Scan
after p (reaped pid table perf calls) = reaped pid (p ∷ table) perf calls
after p (scanned havekids table) = scanned havekids (p ∷ table)

abbrev pub cleared : Proc → Proc
cleared p = record p {
  kstack = 0;
  pid = 0;
  parent = none;
  name = [];
  killed = false;
  state = unused;
}

-- The inner loop of `wait`: a zombie whose figures find no room in the history is passed over.
unfoldable pub wait_scan : ℕ → ℕ → List PerfData → Bool → List Proc → Scan
wait_scan cur ticks perf havekids [] = scanned havekids []
wait_scan cur ticks perf havekids (p ∷ ps) =
    let skip = after p (wait_scan cur ticks perf havekids ps) in
    let alive = after p (wait_scan cur ticks perf true ps) in
    let stuck = after (finalize ticks p) (wait_scan cur ticks perf true ps) in
    if not (is_proc p.parent cur)
    then skip
    else if not (is_zombie p.state)
    then alive
    else if not (store (perf_of (finalize ticks p)) perf).1
    then stuck
    else reaped p.pid (cleared (finalize ticks p) ∷ ps) (store (perf_of (finalize ticks p)) perf).0
        (kfree_page p.kstack ∷ freevm p.pgdir ∷ [])

-- One round of the outer loop: `wait` returns a pid, returns -1, or goes to sleep and tries again.
pub data Waited : Type 0 where
  returns : ℕ → Kernel → List Call → Waited
  sleeps : Kernel → Waited
  bad_process : Waited

-- What the rest of the round makes of a scan; `cur` is looked up again in the table that it leaves.
abbrev pub wait_end : Kernel → ℕ → Scan → Waited
wait_end k cur (reaped pid table perf calls) =
    returns pid (record k { table = table; perf = perf }) calls
wait_end k cur (scanned havekids table) =
    let k' = record k { table = table } in
    elim (get_elem? table cur) [
      | none ↦ bad_process
      | some p ↦
          if not havekids || p.killed
          then returns minus_one k' []
          else sleeps (sleep_enter k' cur (at_proc cur))
    ]

unfoldable pub wait_round : Kernel → ℕ → Waited
wait_round k cur = wait_end k cur (wait_scan cur k.ticks k.perf false k.table)
