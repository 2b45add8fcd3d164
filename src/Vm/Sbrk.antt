-- ===== src/Vm/Sbrk.antt =====
-- growproc of proc.c and sys_sbrk: the size of a process. An `int` is its bit pattern.
pub mod Sized
use os_project2_test.Prelude.{
  ℕ, Bool, true, false, Option, none, some, ◌==◌, if◌then◌else◌, add32, lt_int, minus_one,
}
use os_project2_test.Vm.{Vm}
use os_project2_test.Vm.Space.{allocuvm, deallocuvm}

-- 0 is a failure.
abbrev pub size_or_none : ℕ → Option ℕ
size_or_none sz = if sz == 0 then none else some sz

-- The new size, `none` for -1; the outer `none` is a panic.
pub growproc : ℕ → Vm → ℕ → ℕ → ℕ → Option (Option ℕ × Vm)
growproc kernel_end s pgdir sz n =
    if lt_int 0 n
    then elim (allocuvm kernel_end s pgdir sz (add32 sz n)) [
      | none ↦ none
      | some (sz', s') ↦ some (size_or_none sz', s')
    ]
    else if lt_int n 0
    then elim (deallocuvm kernel_end s pgdir sz (add32 sz n)) [
      | none ↦ none
      | some (sz', s') ↦ some (size_or_none sz', s')
    ]
    else some (some sz, s)

-- The result, the size and the memory afterwards; `arg` is what argint answers.
pub sys_sbrk : ℕ → Vm → ℕ → ℕ → Option ℕ → Option (ℕ × ℕ × Vm)
sys_sbrk kernel_end s pgdir sz arg = elim arg [
  | none ↦ some (minus_one, sz, s)
  | some n ↦ elim (growproc kernel_end s pgdir sz n) [
    | none ↦ none
    | some (grown, s') ↦ elim grown [
      | none ↦ some (minus_one, sz, s')
      | some sz' ↦ some (sz, sz', s')
    ]
  ]
]
