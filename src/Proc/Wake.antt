-- ===== src/Proc/Wake.antt =====
-- sleep, wakeup1, wakeup, kill and yield of proc.c. `sleep` is cut where `sched()` switches away:
-- `sleep_enter` runs before, `sleep_leave` after the process is scheduled again.
pub mod Laws
use os_project2_test.Prelude.{
  ℕ, Bool, true, false, not, ◌&&◌, Option, none, some, List, [], ◌∷◌, ◌==◌, if◌then◌else◌, map,
  modify, update_first, minus_one, add32, sub32, lt_int,
}
use os_project2_test.Proc.{
  Proc, Kernel, Chan, null, chan_eq, State, sleeping, runnable, is_sleeping, in_sched,
}

-- `if(p->enqueue_time > 0) { p->total_ready_time += ticks - p->enqueue_time; p->enqueue_time = 0; }`
abbrev pub end_ready : ℕ → Proc → Proc
end_ready ticks p =
    if lt_int 0 p.enqueue_time
    then record p {
      total_ready_time = add32 p.total_ready_time (sub32 ticks p.enqueue_time);
      enqueue_time = 0;
    }
    else p

abbrev pub fall_asleep : Chan → ℕ → Proc → Proc
fall_asleep chan ticks p = record (end_ready ticks p) {
  chan = chan;
  state = sleeping;
  context = in_sched;
}

unfoldable pub sleep_enter : Kernel → ℕ → Chan → Kernel
sleep_enter k cur chan = record k { table = modify cur (fall_asleep chan k.ticks) k.table }

unfoldable pub sleep_leave : Kernel → ℕ → Kernel
sleep_leave k cur = record k { table = modify cur (λ p. record p { chan = null }) k.table }

abbrev pub wake_one : Chan → ℕ → Proc → Proc
wake_one chan ticks p =
    if is_sleeping p.state && chan_eq p.chan chan
    then record p { state = runnable; enqueue_time = ticks }
    else p

unfoldable pub wakeup1 : Chan → ℕ → List Proc → List Proc
wakeup1 chan ticks = map (wake_one chan ticks)

unfoldable pub wakeup : Kernel → Chan → Kernel
wakeup k chan = record k { table = wakeup1 chan k.ticks k.table }

-- Wakes the process, and unlike `wakeup1` does not record when it became ready.
abbrev pub kill_one : Proc → Proc
kill_one p = record p { killed = true; state = if is_sleeping p.state then runnable else p.state }

unfoldable pub kill : Kernel → ℕ → ℕ × Kernel
kill k pid = elim (update_first (λ (p : Proc). p.pid == pid) kill_one k.table) [
  | none ↦ (minus_one, k)
  | some table ↦ (0, record k { table = table })
]

-- Up to the call of `sched()`.
unfoldable pub yield : Kernel → ℕ → Kernel
yield k cur = record k {
  table =
      modify cur (λ p. record p { state = runnable; enqueue_time = k.ticks; context = in_sched })
        k.table;
}
