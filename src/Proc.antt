-- ===== src/Proc.antt =====
-- proc.h and the process table of proc.c: the data that the operations of its children share.
-- A pointer into `ptable.proc` is the index of its entry; every number of C's `int` or `uint` is
-- its 32-bit pattern. The calls that an operation makes to other parts of the kernel are returned
-- as a list, in order; what those parts answer is an argument. A function whose body runs between
-- `acquire(&ptable.lock)` and `release(&ptable.lock)` is one step.
pub mod Perf
pub mod Wake
pub mod Alloc
pub mod Exit
pub mod Lottery
pub mod Query
pub mod Pids
pub mod Robin
mod Tests
use os_project2_test.Prelude.{
  ℕ, Bool, true, false, Option, none, some, List, [], ◌∷◌, ◌++◌, ◌==◌, ◌&&◌, map,
}

-- `enum procstate`
pub data State : Type 0 where
  unused embryo sleeping runnable running zombie : State

abbrev pub is_unused : State → Bool
is_unused unused = true
is_unused _ = false

abbrev pub is_sleeping : State → Bool
is_sleeping sleeping = true
is_sleeping _ = false

abbrev pub is_runnable : State → Bool
is_runnable runnable = true
is_runnable _ = false

abbrev pub is_running : State → Bool
is_running running = true
is_running _ = false

abbrev pub is_zombie : State → Bool
is_zombie zombie = true
is_zombie _ = false

-- A sleep channel: null, a process, or another kernel address.
pub data Chan : Type 0 where
  null : Chan
  at_proc : ℕ → Chan
  at_addr : ℕ → Chan

abbrev pub chan_eq : Chan → Chan → Bool
chan_eq null null = true
chan_eq (at_proc i) (at_proc j) = i == j
chan_eq (at_addr a) (at_addr b) = a == b
chan_eq _ _ = false

-- `p == q` of two process pointers, of which `p` may be null.
abbrev pub is_proc : Option ℕ → ℕ → Bool
is_proc none j = false
is_proc (some i) j = i == j

abbrev pub chan_of : Option ℕ → Chan
chan_of none = null
chan_of (some i) = at_proc i

-- The registers of `struct trapframe` that the kernel writes by name, and the others.
pub record Trapframe : Type 0 where
  pub eax : ℕ
  pub esp : ℕ
  pub eip : ℕ
  pub eflags : ℕ
  pub others : List ℕ

-- Where `swtch` to the process's context resumes it.
pub data Resume : Type 0 where
  nowhere at_forkret in_sched : Resume

-- `struct proc`, without `total_sleep_time`, `num_run` and `priority`, which no code touches.
pub record Proc : Type 0 where
  pub sz : ℕ
  pub pgdir : ℕ
  pub kstack : ℕ
  pub state : State
  pub pid : ℕ
  pub parent : Option ℕ
  pub tf : Trapframe
  pub context : Resume
  pub chan : Chan
  pub killed : Bool
  pub runticks : ℕ
  pub ofile : List (Option ℕ)
  pub cwd : Option ℕ
  pub name : List ℕ
  pub tickets : ℕ
  pub enqueue_time : ℕ
  pub creation_time : ℕ
  pub start_time : ℕ
  pub completion_time : ℕ
  pub total_run_time : ℕ
  pub total_ready_time : ℕ

-- `struct PerfData`
pub record PerfData : Type 0 where
  pub pid : ℕ
  pub creation_time : ℕ
  pub start_time : ℕ
  pub completion_time : ℕ
  pub total_run_time : ℕ
  pub total_ready_time : ℕ
  pub valid : Bool

-- `ptable.proc`, `perf_data` and the other globals that the operations use.
pub record Kernel : Type 0 where
  pub table : List Proc
  pub perf : List PerfData
  pub nextpid : ℕ
  pub ticks : ℕ
  pub last_completion_time : ℕ
  pub initproc : ℕ
  pub seed : ℕ

-- Calls to other parts of the kernel.
pub data Call : Type 0 where
  kfree_page : ℕ → Call
  freevm : ℕ → Call
  filedup fileclose : ℕ → Call
  idup iput : Option ℕ → Call

abbrev pub nproc : ℕ
nproc = 64

abbrev pub default_tickets : ℕ
default_tickets = 10

-- The six assignments that copy a process's figures into an entry of `perf_data`.
abbrev pub perf_of : Proc → PerfData
perf_of p = record {
  pid = p.pid;
  creation_time = p.creation_time;
  start_time = p.start_time;
  completion_time = p.completion_time;
  total_run_time = p.total_run_time;
  total_ready_time = p.total_ready_time;
  valid = true;
}
