-- ===== src/Kalloc/Range.antt =====
-- freerange puts exactly the whole pages of its range on the free list.
use os_project2_test.Prelude.{
  ℕ, zero, suc, ◌+◌, ◌*◌, ◌%◌, ◌≡◌, ◌≤◌, ◌<◌, refl, ◌∙◌, Bool, false, ◌&&◌, some, ◌∷◌, ◌==◌, leb,
  if◌then◌else◌, arith, Bool-cases, inl, inr,
}
use os_project2_test.Kalloc.{Kmem, kfree, is_bad, free_from, freerange, page_up, kernbase, phystop}
use os_project2_test.Kalloc.Pages.{times}

-- `x` is a page that lies in full between `p` and `vend`.
abbrev pub is_page_of : ℕ → ℕ → ℕ → Bool
is_page_of p vend x = x % 4096 == 0 && leb p x && leb (x + 4096) vend

free_from-times :
    (fuel kernel_end vend p : ℕ) (k : Kmem)
    → p % 4096 ≡ 0
    → kernel_end ≤ p
    → kernbase ≤ p
    → vend ≤ kernbase + phystop
    → 0 < fuel
    → vend < p + 4096 * fuel
    → (k' : Kmem) × (free_from fuel kernel_end vend p k ≡ some k')
      × ((x : ℕ)
          → times x k'.freelist ≡ times x k.freelist + (if is_page_of p vend x then 1 else 0))
unfolding free_from kfree
free_from-times zero kernel_end vend p k page above base top pos enough = absurd (omega arith)
free_from-times (suc fuel) kernel_end vend p k page above base top pos enough =
    elim (Bool-cases (leb (p + 4096) vend)) [
      | inl more ↦
          let room : p + 4096 ≤ vend = ground arith in
          let good : is_bad kernel_end p ≡ false = ground arith in
          let (k', e, h) =
            free_from-times fuel kernel_end vend (p + 4096) (record k { freelist = p ∷ k.freelist })
              (omega arith) (omega arith) (omega arith) top (omega arith) (omega arith) in
          rw (more, good) (k', e, λ x. ground (arith, h x))
      | inr stop ↦ rw stop (k, refl, λ x. ground arith)
    ]

-- For a range above the kernel's end and KERNBASE and within the memory, and fuel for its pages,
-- `freerange` does not panic and puts each page that lies in the range in full on the free list
-- once, and nothing else.
pub freerange-times :
    (fuel kernel_end : ℕ) (k : Kmem) (vstart vend x : ℕ)
    → kernel_end ≤ vstart
    → kernbase ≤ vstart
    → vend ≤ kernbase + phystop
    → 0 < fuel
    → vend < vstart + 4096 * fuel
    → (k' : Kmem) × (freerange fuel kernel_end k vstart vend ≡ some k')
      × (times x k'.freelist ≡ times x k.freelist + (if is_page_of vstart vend x then 1 else 0))
freerange-times fuel kernel_end k vstart vend x above base top pos enough =
    let (k', e, h) =
      free_from-times fuel kernel_end vend (page_up vstart) k (omega arith) (omega arith)
        (omega arith) top pos (omega arith) in
    (k', e, h x ∙ ground arith)
