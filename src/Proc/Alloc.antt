-- ===== src/Proc/Alloc.antt =====
-- allocproc and fork of proc.c. `fork` is one step here: the code lets go of ptable.lock after allocproc
-- and takes it again at the end. What lies between is about the new entry, which is EMBRYO, and which no
-- other code takes or frees.
pub mod Laws
use os_project2_test.Prelude.{
  ℕ, ◌+◌, ◌-◌, Bool, true, false, not, ◌&&◌, Option, none, some, List, [], ◌∷◌, ◌++◌, ◌==◌,
  if◌then◌else◌, map, modify, find_index, get_elem?, minus_one, add32, replicate,
}
use os_project2_test.Proc.{
  Proc, Kernel, Call, kfree_page, filedup, idup, Chan, null, State, unused, embryo, runnable,
  is_unused, at_forkret, default_tickets, Trapframe,
}

-- What is written under `ptable.lock` to the entry that was found.
abbrev pub start_embryo : ℕ → ℕ → Proc → Proc
start_embryo pid ticks p = record p {
  state = embryo;
  pid = pid;
  runticks = 0;
  tickets = default_tickets;
  creation_time = ticks;
  start_time = ticks;
  completion_time = 0;
  total_run_time = 0;
  total_ready_time = 0;
  enqueue_time = 0;
}

-- The kernel stack, with the new context at its top.
abbrev pub give_stack : Option ℕ → Proc → Proc
give_stack none p = record p { kstack = 0; state = unused }
give_stack (some page) p = record p { kstack = page; context = at_forkret }

-- `page` is the answer of `kalloc`. The result is the index of the new process.
unfoldable pub allocproc : Kernel → Option ℕ → Option ℕ × Kernel
allocproc k page = elim (find_index (λ (p : Proc). is_unused p.state) k.table) [
  | none ↦ (none, k)
  | some i ↦
      let started = record k {
        table = modify i (start_embryo k.nextpid k.ticks) k.table;
        nextpid = add32 k.nextpid 1;
      } in
      (
        elim page [ none ↦ none | some _ ↦ some i ],
        record started { table = modify i (give_stack page) started.table },
      )
]

abbrev pub dup_files : List (Option ℕ) → List Call
dup_files [] = []
dup_files (none ∷ fs) = dup_files fs
dup_files (some f ∷ fs) = filedup f ∷ dup_files fs

-- `if(curproc->ofile[i]) np->ofile[i] = filedup(curproc->ofile[i]);`: a slot that is empty in the
-- parent keeps what the child's entry holds.
abbrev pub copy_files : List (Option ℕ) → List (Option ℕ) → List (Option ℕ)
copy_files (some f ∷ fs) (_ ∷ gs) = some f ∷ copy_files fs gs
copy_files (none ∷ fs) (g ∷ gs) = g ∷ copy_files fs gs
copy_files _ gs = gs

abbrev pub release_child : Proc → Proc
release_child p = record p { kstack = 0; state = unused }

abbrev pub copy_parent : Proc → ℕ → ℕ → ℕ → Proc → Proc
copy_parent parent cur pgdir ticks p = record p {
  pgdir = pgdir;
  sz = parent.sz;
  parent = some cur;
  tf = record (parent.tf) { eax = 0 };
  tickets = parent.tickets;
  ofile = copy_files parent.ofile p.ofile;
  cwd = parent.cwd;
  name = parent.name;
  enqueue_time = ticks;
  state = runnable;
}

-- After `allocproc`: `pgdir` is the answer of `copyuvm`, 0 if it failed.
abbrev pub populate : Kernel → ℕ → ℕ → Proc → Proc → ℕ → ℕ × Kernel × List Call
populate k cur i parent child pgdir =
    if pgdir == 0
    then (
      minus_one,
      record k { table = modify i (λ p. record (release_child p) { pgdir = 0 }) k.table },
      kfree_page child.kstack ∷ [],
    )
    else (
      child.pid,
      record k { table = modify i (copy_parent parent cur pgdir k.ticks) k.table },
      dup_files parent.ofile ++ idup parent.cwd ∷ [],
    )

abbrev pub fork_into :
    Kernel → ℕ → ℕ → ℕ → Option Proc → Option Proc → Option (ℕ × Kernel × List Call)
fork_into k cur i pgdir (some parent) (some child) = some (populate k cur i parent child pgdir)
fork_into k cur i pgdir _ _ = none

abbrev pub fork_rest : Kernel → ℕ → ℕ → Option ℕ → Option (ℕ × Kernel × List Call)
fork_rest k cur pgdir none = some (minus_one, k, [])
fork_rest k cur pgdir (some i) =
    fork_into k cur i pgdir (get_elem? k.table cur) (get_elem? k.table i)

-- `none` is a process pointer outside the table.
unfoldable pub fork : Kernel → ℕ → Option ℕ → ℕ → Option (ℕ × Kernel × List Call)
fork k cur page pgdir = let (child, k') = allocproc k page in fork_rest k' cur pgdir child
