-- ===== src/Proc/Lottery.antt =====
-- The scheduler of proc.c when SCHEDULER_LOTTERY is defined, with get_random of random.c. One round
-- of its `for(;;)` is a function; what happens between `swtch` into a process and the switch back
-- is its argument `run`.
pub mod Draw
pub mod Flood
use os_project2_test.Prelude.{
  ℕ, suc, ◌+◌, ◌*◌, ◌/◌, ◌%◌, ◌^◌, Bool, true, false, not, ◌&&◌, ◌||◌, Option, none, some, List, [],
  ◌∷◌, ◌==◌, if◌then◌else◌, modify, get_elem?, add32, sub32, lt_int, le_int,
}
use mathlib.Core.Option
use os_project2_test.Proc.{
  Proc, PerfData, perf_of, Kernel, State, running, is_unused, is_zombie, is_runnable,
}
use os_project2_test.Proc.Perf.{store}
use os_project2_test.Proc.Wake.{end_ready}

-- The new seed and the number drawn, for `max - min` above 0.
pub get_random : ℕ → ℕ → ℕ → ℕ × ℕ
get_random seed min max =
    let seed' = (1664525 * seed + 1013904223) % 2 ^ 32 in
    (seed', add32 (seed' / 2 ^ 16 % 2 ^ 15 % sub32 max min) min)

-- A process that is done, or a free entry, whose completion time is not yet set.
abbrev pub is_stale : Proc → Bool
is_stale p = (is_zombie p.state || is_unused p.state) && le_int p.completion_time p.creation_time

abbrev pub complete : ℕ → Proc → Proc
complete ticks p = record p {
  completion_time = ticks;
  total_run_time = if p.total_run_time == 0 then 1 else p.total_run_time;
}

-- `if(p->state == RUNNABLE && p->enqueue_time > 0) { ...; p->enqueue_time = ticks; }`
abbrev pub count_ready : ℕ → Proc → Proc
count_ready ticks p =
    if is_runnable p.state && lt_int 0 p.enqueue_time
    then record p {
      total_ready_time = add32 p.total_ready_time (sub32 ticks p.enqueue_time);
      enqueue_time = ticks;
    }
    else p

-- The first loop of a round.
unfoldable pub update_metrics : ℕ → List Proc → List PerfData → List Proc × List PerfData
update_metrics ticks [] perf = ([], perf)
update_metrics ticks (p ∷ ps) perf =
    let p' = if is_stale p then complete ticks p else p in
    let perf' = if is_stale p then (store (perf_of p') perf).0 else perf in
    let (ps', perf'') = update_metrics ticks ps perf' in (count_ready ticks p' ∷ ps', perf'')

-- The second loop.
pub total_tickets : List Proc → ℕ → ℕ
total_tickets [] total = total
total_tickets (p ∷ ps) total =
    total_tickets ps (if is_runnable p.state then add32 total p.tickets else total)

-- The third loop: the index at which it breaks, or `none` at the end of the table.
pub find_winner : ℕ → List Proc → ℕ → Option ℕ
find_winner winning [] count = none
find_winner winning (p ∷ ps) count =
    let count' = if is_runnable p.state then add32 count p.tickets else count in
    let rest = Option.map suc (find_winner winning ps count') in
    if not (is_runnable p.state) then rest else if lt_int winning count' then some 0 else rest

-- After the process has switched back, having started at `run_start`.
abbrev pub charge : ℕ → ℕ → Proc → Proc
charge ticks run_start p =
    let elapsed = sub32 ticks run_start in
    let run_time : ℕ = if elapsed == 0 then 1 else elapsed in
    record p {
      total_run_time = add32 p.total_run_time run_time;
      runticks = add32 p.runticks run_time;
    }

abbrev pub is_done : Proc → Bool
is_done p = is_zombie p.state || is_unused p.state

abbrev pub account : ℕ → ℕ → Kernel → Kernel
account i run_start k = elim (get_elem? k.table i) [
  | none ↦ k
  | some p ↦
      let q = charge k.ticks run_start p in
      if is_done p
      then record k {
        table = modify i (λ _. record q { completion_time = k.ticks }) k.table;
        last_completion_time = k.ticks;
        perf = (store (perf_of (record q { completion_time = k.ticks })) k.perf).0;
      }
      else record k { table = modify i (λ _. q) k.table }
]

abbrev pub dispatch : Kernel → ℕ → Kernel
dispatch k i = record k {
  table = modify i (λ p. end_ready k.ticks (record p { state = running })) k.table;
}

-- A round ends with no process to run, after running one, or by reading past the table's end.
pub data Round : Type 0 where
  idle : Kernel → Round
  ran : ℕ → Kernel → Round
  past_end : Kernel → Round

module _ (run : ℕ → Kernel → Kernel) where
  abbrev run_winner : Kernel → Option ℕ → Round
  run_winner k none = past_end k
  run_winner k (some i) = ran i (account i k.ticks (run i (dispatch k i)))

  pub round : Kernel → Round
  round k =
      let (table, perf) = update_metrics k.ticks k.table k.perf in
      let total = total_tickets table 0 in
      let (seed, winning) = get_random k.seed 0 total in
      let k' = record k { table = table; perf = perf } in
      if lt_int 0 total
      then run_winner (record k' { seed = seed }) (find_winner winning table 0)
      else idle k'
