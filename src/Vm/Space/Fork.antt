-- ===== src/Vm/Space/Fork.antt =====
-- vm.c: the kernel's part of a page table, and a copy of an address space.
use os_project2_test.Prelude.{
  ℕ, zero, suc, ◌+◌, ◌*◌, ◌/◌, ◌^◌, true, false, ◌&&◌, Option, none, some, List, [], ◌∷◌, ◌==◌, ltb,
  leb, if◌then◌else◌, add32, sub32,
}
use os_project2_test.Kalloc.{kernbase, kalloc}
use os_project2_test.Fs.{Blocks}
use os_project2_test.Vm.{
  Vm, pte_at, is_present, pte_frame, pte_flags, frame, fill_frame, find_pte, mappages, free_page,
}
use os_project2_test.Vm.Space.{freevm}

-- A row of `kmap`.
pub record Kmap : Type 0 where
  pub virt : ℕ
  pub phys_start : ℕ
  pub phys_end : ℕ
  pub perm : ℕ

-- `kdata` is the linker's symbol `data`.
abbrev pub kmap : ℕ → List Kmap
kmap kdata =
    record { virt = kernbase; phys_start = 0; phys_end = 2 ^ 20; perm = 2 }
    ∷ record {
      virt = kernbase + 2 ^ 20;
      phys_start = 2 ^ 20;
      phys_end = sub32 kdata kernbase;
      perm = 0;
    }
    ∷ record { virt = kdata; phys_start = sub32 kdata kernbase; phys_end = 14 * 2 ^ 24; perm = 2 }
    ∷ record { virt = 254 * 2 ^ 24; phys_start = 254 * 2 ^ 24; phys_end = 0; perm = 2 }
    ∷ []

pub map_all : ℕ → Vm → ℕ → List Kmap → Option (Option ℕ × Vm)
map_all kernel_end s pgdir [] = some (some pgdir, s)
map_all kernel_end s pgdir (k ∷ ks) =
    elim (mappages s pgdir k.virt (sub32 k.phys_end k.phys_start) k.phys_start k.perm) [
      | none ↦ none
      | some (ok, s') ↦ elim ok [
        | true ↦ map_all kernel_end s' pgdir ks
        | false ↦ elim (freevm kernel_end s' pgdir) [ none ↦ none | some s'' ↦ some (none, s'') ]
      ]
    ]

-- The inner `none` is the answer 0.
pub setupkvm : ℕ → ℕ → Vm → Option (Option ℕ × Vm)
setupkvm kernel_end kdata s =
    let (page, k) = kalloc s.kmem in
    elim page [
      | none ↦ some (none, record s { kmem = k })
      | some v ↦
          map_all kernel_end (record { mem = fill_frame s.mem (frame v) 0; kmem = k }) (frame v)
            (kmap kdata)
    ]

-- `memmove` of a page.
abbrev pub copy_frame : Blocks → ℕ → ℕ → Blocks
copy_frame m from to a i = if to == a && ltb i 4096 then m from i else m a i

abbrev pub give_up : ℕ → Vm → ℕ → Option (Option ℕ × Vm)
give_up kernel_end s d = elim (freevm kernel_end s d) [ none ↦ none | some s' ↦ some (none, s') ]

-- The loop of `copyuvm`, from `i` on; `none` is a panic.
pub copy_from : ℕ → ℕ → Vm → ℕ → ℕ → ℕ → ℕ → Option (Option ℕ × Vm)
copy_from zero kernel_end s pgdir d i sz = some (some d, s)
copy_from (suc turns) kernel_end s pgdir d i sz =
    if ltb i sz
    then elim (find_pte s.mem pgdir i) [
      | none ↦ none
      | some (t, j) ↦
          let e = pte_at s.mem t j in
          let (page, k) = kalloc s.kmem in
          if is_present e
          then elim page [
            | none ↦ give_up kernel_end (record s { kmem = k }) d
            | some v ↦
                elim (mappages (record { mem = copy_frame s.mem (pte_frame e) (frame v); kmem = k })
                  d i 4096 (sub32 v kernbase) (pte_flags e)) [
                    | none ↦ none
                    | some (ok, s') ↦ elim ok [
                      | true ↦ copy_from turns kernel_end s' pgdir d (add32 i 4096) sz
                      | false ↦ elim (free_page kernel_end s' v) [
                        | none ↦ none
                        | some s'' ↦ give_up kernel_end s'' d
                      ]
                    ]
                  ]
          ]
          else none
    ]
    else some (some d, s)

pub copyuvm : ℕ → ℕ → Vm → ℕ → ℕ → Option (Option ℕ × Vm)
copyuvm kernel_end kdata s pgdir sz = elim (setupkvm kernel_end kdata s) [
  | none ↦ none
  | some (made, s') ↦ elim made [
    | none ↦ some (none, s')
    | some d ↦ copy_from (sz / 4096 + 1) kernel_end s' pgdir d 0 sz
  ]
]

-- `memmove(mem, init, sz)`
abbrev pub load : Blocks → ℕ → (ℕ → ℕ) → ℕ → Blocks
load m f init sz a i = if f == a && ltb i sz then init i else m a i

-- The first process's memory: `none` is a panic, or a page that kalloc does not give, which the code
-- does not look at. Nor does it look at the answer of mappages.
pub inituvm : Vm → ℕ → (ℕ → ℕ) → ℕ → Option Vm
inituvm s pgdir init sz =
    let (page, k) = kalloc s.kmem in
    if leb 4096 sz then none else elim page [
      | none ↦ none
      | some v ↦
          elim (mappages (record { mem = fill_frame s.mem (frame v) 0; kmem = k }) pgdir 0 4096
            (sub32 v kernbase) 6) [
              | none ↦ none
              | some (ok, s') ↦ some (record s' { mem = load s'.mem (frame v) init sz })
            ]
    ]
