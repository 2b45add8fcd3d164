-- ===== src/Vm/Copy.antt =====
-- vm.c: bytes copied to a user's address.
pub mod Copied
pub mod Out
use os_project2_test.Prelude.{
  ℕ, zero, suc, ◌+◌, ◌-◌, ◌*◌, ◌/◌, ◌%◌, ◌^◌, Bool, true, false, not, ◌&&◌, ◌||◌, Option, none,
  some, List, [], ◌∷◌, ◌==◌, ltb, leb, if◌then◌else◌, add32, sub32,
}
use os_project2_test.Kalloc.{Kmem, kernbase, kalloc, kfree}
use os_project2_test.Fs.{Blocks}
use os_project2_test.Vm.{
  Vm, pte_at, set_pte, pdx, ptx, is_present, pte_frame, pte_flags, is_user, frame, p2v, fill_frame,
  round_up, round_down, find_pte, mappages, free_page,
}

-- The page that a user address is mapped to, as a frame. `walkpgdir` may give 0 here, which the code
-- does not look at: this is the outer `none`.
pub uva2ka : Blocks → ℕ → ℕ → Option (Option ℕ)
uva2ka m pgdir uva = elim (find_pte m pgdir uva) [
  | none ↦ none
  | some (t, i) ↦
      let e = pte_at m t i in
      some
        (if not (is_present e) then none else if not (is_user e) then none else some (pte_frame e))
]

-- `memmove(pa0 + (va - va0), buf, n)`
abbrev pub to_frame : Blocks → ℕ → ℕ → (ℕ → ℕ) → ℕ → ℕ → Blocks
to_frame m f i p buf n a j = if f == a && leb i j && ltb j (i + n) then p (buf + (j - i)) else m a j

-- The loop of `copyout`; each turn copies a byte at least.
pub copyout_from : ℕ → Blocks → ℕ → ℕ → (ℕ → ℕ) → ℕ → ℕ → Option (Bool × Blocks)
copyout_from zero m pgdir va p buf len = some (true, m)
copyout_from (suc turns) m pgdir va p buf len =
    let va0 = round_down va in
    let n = if ltb len (4096 - (va - va0)) then len else 4096 - (va - va0) in
    if len == 0 then some (true, m) else elim (uva2ka m pgdir va0) [
      | none ↦ none
      | some page ↦ elim page [
        | none ↦ some (false, m)
        | some f ↦
            copyout_from turns (to_frame m f (va - va0) p buf n) pgdir (add32 va0 4096) p (buf + n)
              (len - n)
      ]
    ]

-- `false` is the answer -1.
pub copyout : Blocks → ℕ → ℕ → (ℕ → ℕ) → ℕ → Option (Bool × Blocks)
copyout m pgdir va p len = copyout_from len m pgdir va p 0 len
