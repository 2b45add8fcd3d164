-- ===== src/Vm/Space.antt =====
-- vm.c: a user's address space that grows, shrinks and is freed.
pub mod Fork
pub mod Shrunk
pub mod Shrink
pub mod Grown
pub mod Grow
use os_project2_test.Prelude.{
  ℕ, zero, suc, ◌+◌, ◌-◌, ◌*◌, ◌/◌, ◌%◌, ◌^◌, Bool, true, false, not, ◌&&◌, ◌||◌, Option, none,
  some, List, [], ◌∷◌, ◌==◌, ltb, leb, if◌then◌else◌, add32, sub32,
}
use os_project2_test.Kalloc.{Kmem, kernbase, kalloc, kfree}
use os_project2_test.Fs.{Blocks}
use os_project2_test.Vm.{
  Vm, pte_at, set_pte, pdx, ptx, is_present, pte_frame, pte_flags, is_user, frame, p2v, fill_frame,
  round_up, round_down, find_pte, mappages, free_page,
}

-- The loop of `deallocuvm`, from `a` on; each turn moves up a page at least. `none` is a panic.
pub dealloc_from : ℕ → ℕ → Vm → ℕ → ℕ → ℕ → Option Vm
dealloc_from zero kernel_end s pgdir a oldsz = some s
dealloc_from (suc turns) kernel_end s pgdir a oldsz =
    let skip = dealloc_from turns kernel_end s pgdir ((pdx a + 1) * 2 ^ 22 % 2 ^ 32) oldsz in
    let past = dealloc_from turns kernel_end s pgdir (add32 a 4096) oldsz in
    if ltb a oldsz
    then elim (find_pte s.mem pgdir a) [
      | none ↦ skip
      | some (t, i) ↦
          let e = pte_at s.mem t i in
          if is_present e
          then if pte_frame e == 0
            then none
            else elim (free_page kernel_end s (p2v (pte_frame e))) [
              | none ↦ none
              | some s' ↦
                  dealloc_from turns kernel_end (record s' { mem = set_pte s'.mem t i 0 }) pgdir
                    (add32 a 4096) oldsz
            ]
          else past
    ]
    else some s

pub deallocuvm : ℕ → Vm → ℕ → ℕ → ℕ → Option (ℕ × Vm)
deallocuvm kernel_end s pgdir oldsz newsz =
    if leb oldsz newsz
    then some (oldsz, s)
    else elim (dealloc_from (oldsz / 4096 + 1) kernel_end s pgdir (round_up newsz) oldsz) [
      | none ↦ none
      | some s' ↦ some (newsz, s')
    ]

-- The loop of `allocuvm`, from `a` on; `none` is a panic, `false` the answer 0.
pub alloc_from : ℕ → ℕ → Vm → ℕ → ℕ → ℕ → ℕ → Option (Bool × Vm)
alloc_from zero kernel_end s pgdir a oldsz newsz = some (true, s)
alloc_from (suc turns) kernel_end s pgdir a oldsz newsz =
    let (page, k) = kalloc s.kmem in
    if ltb a newsz
    then elim page [
      | none ↦ elim (deallocuvm kernel_end (record s { kmem = k }) pgdir newsz oldsz) [
        | none ↦ none
        | some (size, s') ↦ some (false, s')
      ]
      | some v ↦
          elim (mappages (record { mem = fill_frame s.mem (frame v) 0; kmem = k }) pgdir a 4096
            (sub32 v kernbase) 6) [
              | none ↦ none
              | some (ok, s') ↦ elim ok [
                | true ↦ alloc_from turns kernel_end s' pgdir (add32 a 4096) oldsz newsz
                | false ↦ elim (deallocuvm kernel_end s' pgdir newsz oldsz) [
                  | none ↦ none
                  | some (size, s'') ↦ elim (free_page kernel_end s'' v) [
                    | none ↦ none
                    | some s3 ↦ some (false, s3)
                  ]
                ]
              ]
            ]
    ]
    else some (true, s)

-- `newsz` or 0, and `oldsz` for a size that is not larger.
pub allocuvm : ℕ → Vm → ℕ → ℕ → ℕ → Option (ℕ × Vm)
allocuvm kernel_end s pgdir oldsz newsz =
    if leb kernbase newsz
    then some (0, s)
    else if ltb newsz oldsz
    then some (oldsz, s)
    else elim (alloc_from (newsz / 4096 + 1) kernel_end s pgdir (round_up oldsz) oldsz newsz) [
      | none ↦ none
      | some (ok, s') ↦ some (if ok then newsz else 0, s')
    ]

-- The loop of `freevm` over the directory, with `n` entries left.
pub free_tables : ℕ → ℕ → Vm → ℕ → ℕ → Option Vm
free_tables zero kernel_end s pgdir i = some s
free_tables (suc n) kernel_end s pgdir i =
    let rest = free_tables n kernel_end s pgdir (suc i) in
    let e = pte_at s.mem pgdir i in
    if is_present e
    then elim (free_page kernel_end s (p2v (pte_frame e))) [
      | none ↦ none
      | some s' ↦ free_tables n kernel_end s' pgdir (suc i)
    ]
    else rest

pub freevm : ℕ → Vm → ℕ → Option Vm
freevm kernel_end s pgdir = elim (deallocuvm kernel_end s pgdir kernbase 0) [
  | none ↦ none
  | some (size, s') ↦ elim (free_tables 1024 kernel_end s' pgdir 0) [
    | none ↦ none
    | some s'' ↦ free_page kernel_end s'' (p2v pgdir)
  ]
]
