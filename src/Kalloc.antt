-- ===== src/Kalloc.antt =====
-- kalloc.c. The free list is the list of page addresses that its links run through; the links lie in
-- the free pages themselves, which nobody writes to. The junk that `kfree` fills a page with is left
-- out. `kernel_end` is the linker's symbol `end`.
pub mod Pages
pub mod Range
mod Tests
use os_project2_test.Prelude.{
  ℕ, zero, suc, ◌+◌, ◌*◌, ◌/◌, ◌%◌, ◌^◌, Bool, true, false, not, ◌||◌, Option, none, some, List, [],
  ◌∷◌, ◌==◌, ltb, leb, if◌then◌else◌, sub32,
}

-- `kmem`
pub record Kmem : Type 0 where
  pub use_lock : Bool
  pub freelist : List ℕ

-- `PHYSTOP` and `KERNBASE`
abbrev pub phystop : ℕ
phystop = 14 * 2 ^ 24

abbrev pub kernbase : ℕ
kernbase = 2 ^ 31

-- The test that makes `kfree` panic.
abbrev pub is_bad : ℕ → ℕ → Bool
is_bad kernel_end v = not (v % 4096 == 0) || ltb v kernel_end || leb phystop (sub32 v kernbase)

-- `none` is a panic.
unfoldable pub kfree : ℕ → Kmem → ℕ → Option Kmem
kfree kernel_end k v =
    if is_bad kernel_end v then none else some (record k { freelist = v ∷ k.freelist })

unfoldable pub kalloc : Kmem → Option ℕ × Kmem
kalloc k = elim k.freelist [ [] ↦ (none, k) | r ∷ rest ↦ (some r, record k { freelist = rest }) ]

abbrev pub page_up : ℕ → ℕ
page_up a = (a + 4095) / 4096 * 4096

-- The loop of `freerange` from page `p` on. `none` is a panic, or fuel that ran out.
pub free_from : ℕ → ℕ → ℕ → ℕ → Kmem → Option Kmem
free_from zero kernel_end vend p k = none
free_from (suc fuel) kernel_end vend p k =
    if leb (p + 4096) vend
    then elim (kfree kernel_end k p) [
      | none ↦ none
      | some k' ↦ free_from fuel kernel_end vend (p + 4096) k'
    ]
    else some k

abbrev pub freerange : ℕ → ℕ → Kmem → ℕ → ℕ → Option Kmem
freerange fuel kernel_end k vstart vend = free_from fuel kernel_end vend (page_up vstart) k

pub kinit1 : ℕ → ℕ → Kmem → ℕ → ℕ → Option Kmem
kinit1 fuel kernel_end k vstart vend =
    freerange fuel kernel_end (record k { use_lock = false }) vstart vend

pub kinit2 : ℕ → ℕ → Kmem → ℕ → ℕ → Option Kmem
kinit2 fuel kernel_end k vstart vend = elim (freerange fuel kernel_end k vstart vend) [
  | none ↦ none
  | some k' ↦ some (record k' { use_lock = true })
]
