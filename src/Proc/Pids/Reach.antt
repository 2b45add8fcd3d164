-- ===== src/Proc/Pids/Reach.antt =====
-- The operations of proc.c as steps of the kernel, and the ids in every state that they reach.
use os_project2_test.Prelude.{
  ℕ, ◌+◌, ◌<◌, ◌≡◌, ◌^◌, refl, sym, subst, Option, none, some, List, [], ◌∷◌, ◌++◌, ◌==◌,
  if◌then◌else◌, modify, arith, get_elem?, Bool-cases, Option-cases, inl, inr, le_int,
  update_first-cases,
}
use os_project2_test.Proc.{Proc, PerfData, Kernel, Call, Chan, perf_of}
use os_project2_test.Proc.Perf.{store}
use os_project2_test.Proc.Lottery.{update_metrics, dispatch, account, is_stale, is_done, complete}
use os_project2_test.Proc.Pids.Family.{
  InUseAt, used-Steady, After, exit_family-IsValid, AfterWait, asleep-IsValid, wait_round-IsValid,
}
use os_project2_test.Proc.Pids.{
  IsValid, Steady, Steady-IsValid, Steady-modify, Steady-map, Steady-refl, Steady-middle,
  Steady-modify_at,
}
use os_project2_test.Proc.Pids.Steps.{AfterFork, fork-IsValid}
use os_project2_test.Proc.Alloc.{fork}
use os_project2_test.Proc.Wake.{
  wake_one, wakeup1, wakeup, kill, kill_one, yield, sleep_enter, sleep_leave,
}
use os_project2_test.Proc.Exit.{
  exit_family, exit_figures, finalize, returns, sleeps, wait_round, no_files,
}
use os_project2_test.Proc.Query.{set_tickets}

-- One operation of proc.c, by the process at `cur` or by the scheduler, or a tick of the clock.
pub data Step (k : Kernel) : Kernel → Type 0 where
  forks :
      (cur : ℕ) (page : Option ℕ) (pgdir pid : ℕ) (calls : List Call) {k' : Kernel}
      → k.nextpid + 1 < 2 ^ 32
      → fork k cur page pgdir ≡ some (pid, k', calls)
      → Step k k'
  files_figures :
      (cur : ℕ) (p : Proc) → get_elem? k.table cur ≡ some p → Step k (exit_figures k cur p)
  closes_files : (cur : ℕ) → Step k (record k { table = modify cur no_files k.table })
  exits : (cur : ℕ) {k' : Kernel} → InUseAt cur k.table → exit_family k cur ≡ some k' → Step k k'
  reaps :
      (cur pid : ℕ) (calls : List Call) {k' : Kernel}
      → InUseAt cur k.table
      → wait_round k cur ≡ returns pid k' calls
      → Step k k'
  waits : (cur : ℕ) {k' : Kernel} → InUseAt cur k.table → wait_round k cur ≡ sleeps k' → Step k k'
  falls_asleep : (cur : ℕ) (chan : Chan) → InUseAt cur k.table → Step k (sleep_enter k cur chan)
  resumes : (cur : ℕ) → Step k (sleep_leave k cur)
  wakes : (chan : Chan) → Step k (wakeup k chan)
  kills : (pid : ℕ) → Step k (kill k pid).1
  yields : (cur : ℕ) → InUseAt cur k.table → Step k (yield k cur)
  sets_tickets : (cur : Option ℕ) (t : ℕ) → Step k (set_tickets k cur t).1
  updates_metrics : Step k (record k {
    table = (update_metrics k.ticks k.table k.perf).0;
    perf = (update_metrics k.ticks k.table k.perf).1;
  })
  dispatches : (i : ℕ) → InUseAt i k.table → Step k (dispatch k i)
  accounts : (i run_start : ℕ) → Step k (account i run_start k)
  ticks_on : (t : ℕ) → Step k (record k { ticks = t })

pub data Reach (k : Kernel) : Kernel → Type 0 where
  start : Reach k k
  later : {k₁ k₂ : Kernel} → Reach k k₁ → Step k₁ k₂ → Reach k k₂

kill-IsValid : (k : Kernel) (pid : ℕ) → IsValid k → IsValid (kill k pid).1
unfolding kill
kill-IsValid k pid v = elim (update_first-cases (λ (p : Proc). p.pid == pid) kill_one k.table) [
  | inl (_, e) ↦ rw (e, kill) v
  | inr (s, e) ↦
      rw (e, kill)
        (Steady-IsValid k _ refl
          (subst (λ t. Steady t (s.before ++ kill_one s.hit ∷ s.after)) (sym s.parts)
            (Steady-middle s.before s.after s.hit (kill_one s.hit) (ground arith)))
          v)
]

set_tickets-IsValid :
    (k : Kernel) (cur : Option ℕ) (t : ℕ) → IsValid k → IsValid (set_tickets k cur t).1
unfolding set_tickets
set_tickets-IsValid k none t v = v
set_tickets-IsValid k (some i) t v = elim (Bool-cases (le_int t 0)) [
  | inl e ↦ rw e v
  | inr e ↦ rw e (Steady-IsValid k _ refl (Steady-modify i _ k.table λ p. ground arith) v)
]

update_metrics-Steady :
    (ticks : ℕ) (table : List Proc) (perf : List PerfData)
    → Steady table (update_metrics ticks table perf).0
unfolding update_metrics
update_metrics-Steady ticks [] perf = tt
update_metrics-Steady ticks (p ∷ ps) perf = (
  ground arith,
  update_metrics-Steady ticks ps (
      if is_stale p
      then (store (perf_of (if is_stale p then complete ticks p else p)) perf).0
      else perf),
)

account-IsValid : (i run_start : ℕ) (k : Kernel) → IsValid k → IsValid (account i run_start k)
account-IsValid i run_start k v = elim (Option-cases (get_elem? k.table i)) [
  | inl e ↦ rw (e, account) v
  | inr (p, e) ↦ elim (Bool-cases (is_done p)) [
    | inl done ↦
        rw (e, account, done)
          (Steady-IsValid k _ refl (Steady-modify_at i _ k.table p e (ground arith)) v)
    | inr going ↦
        rw (e, account, going)
          (Steady-IsValid k _ refl (Steady-modify_at i _ k.table p e (ground arith)) v)
  ]
]

Step-IsValid : {k k' : Kernel} → Step k k' → IsValid k → IsValid k'
unfolding exit_figures sleep_leave wakeup wakeup1 yield
Step-IsValid {k} (forks cur page pgdir pid calls bound e) v =
    subst (AfterFork IsValid) e (fork-IsValid k cur page pgdir bound v)
Step-IsValid {k} (files_figures cur p e) v =
    Steady-IsValid k _ refl (Steady-modify cur (finalize k.ticks) k.table λ q. ground arith) v
Step-IsValid {k} (closes_files cur) v =
    Steady-IsValid k _ refl (Steady-modify cur no_files k.table λ q. ground arith) v
Step-IsValid {k} (exits cur u e) v = subst (After IsValid) e (exit_family-IsValid k cur u v)
Step-IsValid {k} (reaps cur pid calls u e) v =
    subst (AfterWait IsValid) e (wait_round-IsValid k cur u v)
Step-IsValid {k} (waits cur u e) v = subst (AfterWait IsValid) e (wait_round-IsValid k cur u v)
Step-IsValid {k} (falls_asleep cur chan u) v = asleep-IsValid k cur chan u v
Step-IsValid {k} (resumes cur) v =
    Steady-IsValid k _ refl (Steady-modify cur _ k.table λ q. ground arith) v
Step-IsValid {k} (wakes chan) v =
    Steady-IsValid k _ refl (Steady-map (wake_one chan k.ticks) k.table λ q. ground arith) v
Step-IsValid {k} (kills pid) v = kill-IsValid k pid v
Step-IsValid {k} (yields cur u) v =
    Steady-IsValid k _ refl (used-Steady cur _ k.table u λ q. refl) v
Step-IsValid {k} (sets_tickets cur t) v = set_tickets-IsValid k cur t v
Step-IsValid {k} updates_metrics v =
    Steady-IsValid k _ refl (update_metrics-Steady k.ticks k.table k.perf) v
Step-IsValid {k} (dispatches i u) v =
    Steady-IsValid k _ refl (used-Steady i _ k.table u λ q. ground arith) v
Step-IsValid {k} (accounts i run_start) v = account-IsValid i run_start k v
Step-IsValid {k} (ticks_on t) v = Steady-IsValid k _ refl (Steady-refl k.table) v

-- If the ids of the process table's entries in use are distinct and below `nextpid`, they are so
-- after any sequence of forks, exits, waits, sleeps, wake-ups, kills, yields, ticket changes,
-- steps of the lottery scheduler and clock ticks, as long as a fork does not make `nextpid` go
-- round 2^32.
pub Reach-IsValid : {k k' : Kernel} → Reach k k' → IsValid k → IsValid k'
Reach-IsValid start v = v
Reach-IsValid (later r s) v = Step-IsValid s (Reach-IsValid r v)
