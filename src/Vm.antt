-- ===== src/Vm.antt =====
-- vm.c: page tables. Physical memory is known by page frames, `mem f i` being byte `i` of frame `f`; a
-- page directory or a page table is known by its frame, and the kernel's addresses of pages, which
-- kalloc and kfree take, are turned into frames by `V2P`. A page table entry is a word: a page-aligned
-- physical address and 12 bits of flags.
pub mod Table
pub mod Walk
pub mod Page
pub mod Space
pub mod Copy
pub mod Sbrk
mod Tests
use os_project2_test.Prelude.{
  ℕ, zero, suc, ◌+◌, ◌-◌, ◌*◌, ◌/◌, ◌%◌, ◌^◌, Bool, true, false, not, ◌&&◌, ◌||◌, Option, none,
  some, List, [], ◌∷◌, ◌==◌, ltb, leb, if◌then◌else◌, add32, sub32,
}
use os_project2_test.Kalloc.{Kmem, kernbase, kalloc, kfree}
use os_project2_test.Fs.{Blocks, get_word, put_word}

pub record Vm : Type 0 where
  pub mem : Blocks
  pub kmem : Kmem

-- `PDX(va)` and `PTX(va)`
abbrev pub pdx : ℕ → ℕ
pdx va = va / 2 ^ 22 % 1024

abbrev pub ptx : ℕ → ℕ
ptx va = va / 2 ^ 12 % 1024

-- `e & PTE_P`, `PTE_ADDR(e)` as a frame, and `PTE_FLAGS(e)`
abbrev pub is_present : ℕ → Bool
is_present e = e % 2 == 1

abbrev pub pte_frame : ℕ → ℕ
pte_frame e = e / 4096

abbrev pub pte_flags : ℕ → ℕ
pte_flags e = e % 4096

-- `e & PTE_U`
abbrev pub is_user : ℕ → Bool
is_user e = e / 4 % 2 == 1

-- `V2P(v)` as a frame, and `P2V` of a frame.
abbrev pub frame : ℕ → ℕ
frame v = sub32 v kernbase / 4096

abbrev pub p2v : ℕ → ℕ
p2v f = add32 (f * 4096) kernbase

-- `pa | perm | PTE_P`, for an address that is page-aligned and flags below 4096.
abbrev pub new_pte : ℕ → ℕ → ℕ
new_pte pa perm = pa + (if perm % 2 == 1 then perm else perm + 1)

-- `memset(v, c, PGSIZE)`
abbrev pub fill_frame : Blocks → ℕ → ℕ → Blocks
fill_frame m f c a i = if f == a && ltb i 4096 then c else m a i

-- `PGROUNDUP` and `PGROUNDDOWN`
abbrev pub round_up : ℕ → ℕ
round_up a = add32 a 4095 / 4096 * 4096

abbrev pub round_down : ℕ → ℕ
round_down a = a / 4096 * 4096

-- An entry of a page table or directory.
pub pte_at : Blocks → ℕ → ℕ → ℕ
pte_at m t i = get_word m t i

pub set_pte : Blocks → ℕ → ℕ → ℕ → Blocks
set_pte m t i e = put_word m t i e

-- `walkpgdir(pgdir, va, 0)`: the table and the index in it.
pub find_pte : Blocks → ℕ → ℕ → Option (ℕ × ℕ)
find_pte m pgdir va =
    if is_present (pte_at m pgdir (pdx va))
    then some (pte_frame (pte_at m pgdir (pdx va)), ptx va)
    else none

-- `walkpgdir(pgdir, va, 1)`
pub walkpgdir : Vm → ℕ → ℕ → Option (ℕ × ℕ) × Vm
walkpgdir s pgdir va =
    if is_present (pte_at s.mem pgdir (pdx va))
    then (some (pte_frame (pte_at s.mem pgdir (pdx va)), ptx va), s)
    else let (page, k) = kalloc s.kmem in
      elim page [
        | none ↦ (none, record s { kmem = k })
        | some v ↦ (
          some (frame v, ptx va),
          record {
            mem = set_pte (fill_frame s.mem (frame v) 0) pgdir (pdx va) (sub32 v kernbase + 7);
            kmem = k;
          },
        )
      ]

-- The loop of `mappages`; a turn for each page is enough. `none` is a panic, `false` the answer -1.
pub map_from : ℕ → Vm → ℕ → ℕ → ℕ → ℕ → ℕ → Option (Bool × Vm)
map_from zero s pgdir a last pa perm = none
map_from (suc turns) s pgdir a last pa perm =
    let (pte, s') = walkpgdir s pgdir a in
    elim pte [
      | none ↦ some (false, s')
      | some (t, i) ↦
          let s'' = record s' { mem = set_pte s'.mem t i (new_pte pa perm) } in
          let rest = map_from turns s'' pgdir (add32 a 4096) last (add32 pa 4096) perm in
          if is_present (pte_at s'.mem t i)
          then none
          else if a == last
          then some (true, s'')
          else rest
    ]

pub mappages : Vm → ℕ → ℕ → ℕ → ℕ → ℕ → Option (Bool × Vm)
mappages s pgdir va size pa perm =
    let a = round_down va in
    let last = round_down (sub32 (add32 va size) 1) in
    map_from (sub32 last a / 4096 + 1) s pgdir a last pa perm

-- `kfree(v)`, which fills the page with junk; `none` is a panic.
pub free_page : ℕ → Vm → ℕ → Option Vm
free_page kernel_end s v = elim (kfree kernel_end s.kmem v) [
  | none ↦ none
  | some k ↦ some (record { mem = fill_frame s.mem (frame v) 1; kmem = k })
]

-- `none` is a panic.
pub clearpteu : Vm → ℕ → ℕ → Option Vm
clearpteu s pgdir va = elim (find_pte s.mem pgdir va) [
  | none ↦ none
  | some (t, i) ↦
      let e = pte_at s.mem t i in
      some (record s { mem = set_pte s.mem t i (if is_user e then e - 4 else e) })
]
