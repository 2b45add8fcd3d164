-- ===== src/Vm/Tests.antt =====
-- Examples for the page tables.
use os_project2_test.Prelude.{
  ℕ, ◌+◌, ◌*◌, ◌/◌, ◌^◌, ◌≡◌, refl, true, some, [], ◌∷◌, ◌==◌, if◌then◌else◌, min, minus_one, false,
  ltb, arith, ◌⊎◌,
}
use os_project2_test.Kalloc.{kernbase}
use os_project2_test.Fs.{Blocks}
use os_project2_test.Vm.{Vm, pte_at, set_pte, p2v}
use os_project2_test.Vm.Table.{entry, Owner, give, is_spare, on_list, IsSpace}
use os_project2_test.Vm.Table.Change.{write_entry, IsSpace-map}
use os_project2_test.Vm.Table.Moves.{IsSpace-table}
use os_project2_test.Vm.Space.{deallocuvm, allocuvm}
use os_project2_test.Vm.Space.Shrunk.{Shrunk}
use os_project2_test.Vm.Space.Shrink.{deallocuvm_lem}
use os_project2_test.Vm.Space.Grown.{Grown, Unmoved}
use os_project2_test.Vm.Space.Grow.{allocuvm_lem}
use os_project2_test.Vm.Sbrk.{sys_sbrk}
use os_project2_test.Vm.Sbrk.Sized.{IsSized, Resized, sys_sbrk-Resized}
use os_project2_test.Vm.Copy.{copyout}
use os_project2_test.Vm.Copy.Copied.{Copied}
use os_project2_test.Vm.Copy.Out.{copyout_lem}

abbrev end_of_kernel : ℕ
end_of_kernel = kernbase + 2 ^ 20

-- An address space without pages: frame 1024 is the directory, 1025 and 1026 are held, 1027 and 1028 free.
abbrev owner : Owner
owner f = if f == 1024 then 2 else if f == 1027 then 0 else if f == 1028 then 0 else 1

abbrev bare : Vm
bare = record {
  mem = λ f i. 0;
  kmem = record { use_lock = true; freelist = p2v 1027 ∷ p2v 1028 ∷ [] };
}

bare-IsSpace : IsSpace end_of_kernel bare 1024 owner
unfolding pte_at entry is_spare on_list
bare-IsSpace = record {
  above = ground arith;
  dir = refl;
  tables = λ i h. refl;
  pages = λ n h. refl;
  mapped = λ f n h. ground arith;
  range = λ f. ground arith;
  spare = refl;
  listed = λ f. ground arith;
}

-- Frame 1025 becomes its table, and 1026 its page 0.
abbrev with_table : Vm
with_table = record bare { mem = set_pte bare.mem 1024 0 (1025 * 4096 + 7) }

with_table-IsSpace : IsSpace end_of_kernel with_table 1024 (give owner 1025 3)
unfolding pte_at
with_table-IsSpace =
    let (space, same) =
      IsSpace-table end_of_kernel bare 1024 owner bare-IsSpace 1025 0 (omega arith) refl refl
        (λ j h. refl) refl in
    space

abbrev small : Vm
small = write_entry with_table 1024 0 (1026 * 4096 + 7)

small-IsSpace : IsSpace end_of_kernel small 1024 (give (give owner 1025 3) 1026 2000)
unfolding pte_at set_pte entry
small-IsSpace =
    IsSpace-map end_of_kernel with_table 1024 (give owner 1025 3) with_table-IsSpace 0 1026
      (1026 * 4096 + 7) (omega arith) (omega arith) refl refl refl refl refl refl

deallocuvm_lem_example :
    (s' : Vm) × (own' : Owner) × (deallocuvm end_of_kernel small 1024 4096 0
      ≡ some (min 4096 0, s'))
    × Shrunk end_of_kernel small 1024 (give (give owner 1025 3) 1026 2000) 0 1 s' own'
deallocuvm_lem_example =
    deallocuvm_lem end_of_kernel small 1024 (give (give owner 1025 3) 1026 2000) 4096 0
      small-IsSpace (omega arith)

allocuvm_lem_example :
    (s' : Vm) × (own' : Owner) × (((allocuvm end_of_kernel bare 1024 0 4000 ≡ some (4000, s'))
        × Grown end_of_kernel bare 1024 owner 0 1 s' own')
      ⊎ ((allocuvm end_of_kernel bare 1024 0 4000 ≡ some (0, s'))
          × Unmoved end_of_kernel bare 1024 owner s' own'))
unfolding pte_at entry
allocuvm_lem_example =
    allocuvm_lem end_of_kernel bare 1024 owner 0 4000 bare-IsSpace (omega arith) (omega arith)
      (λ n h w. refl)

copyout_lem_example :
    (m : Blocks) × (copyout small.mem 1024 10 (λ i. i + 65) 5 ≡ some (true, m))
    × Copied end_of_kernel small 1024 (give (give owner 1025 3) 1026 2000) 10 (λ i. i + 65) 0 5 m
unfolding pte_at set_pte entry
copyout_lem_example =
    copyout_lem end_of_kernel small 1024 (give (give owner 1025 3) 1026 2000) 10 (λ i. i + 65) 5
      small-IsSpace (omega arith) (λ x w. let z : x / 4096 ≡ 0 = ground arith in rw z refl)

bare-IsSized : IsSized end_of_kernel bare 1024 owner 0
unfolding pte_at entry
bare-IsSized = record { space = bare-IsSpace; bound = omega arith; pages = λ n h. no_page n }
  where
    no_page : (n : ℕ) → false ≡ ltb n 0
    no_page n = ground arith

sys_sbrk-Resized_example :
    (s' : Vm) × (own' : Owner) × (((sys_sbrk end_of_kernel bare 1024 0 (some 100)
          ≡ some (minus_one, 0, s'))
        × Resized end_of_kernel bare 1024 0 s' own' 0)
      ⊎ ((sys_sbrk end_of_kernel bare 1024 0 (some 100) ≡ some (0, 100, s'))
          × Resized end_of_kernel bare 1024 0 s' own' 100))
sys_sbrk-Resized_example =
    sys_sbrk-Resized end_of_kernel bare 1024 owner 0 100 bare-IsSized (omega arith) refl
