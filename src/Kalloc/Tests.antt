-- ===== src/Kalloc/Tests.antt =====
-- A memory of a few pages.
use os_project2_test.Prelude.{◌+◌, ◌≡◌, ◌^◌, refl, false, [], ◌∷◌}
use os_project2_test.Kalloc.{Kmem, kalloc}
use os_project2_test.Kalloc.Pages.{times, Use, done, allocates, Use-times}

abbrev memory : Kmem
memory = record { use_lock = false; freelist = (2 ^ 31 + 4096) ∷ (2 ^ 31) ∷ [] }

abbrev taken : Kmem
taken = record memory { freelist = (2 ^ 31) ∷ [] }

taken_page : Use (2 ^ 31) memory [] taken ((2 ^ 31 + 4096) ∷ [])
unfolding kalloc
taken_page = allocates (2 ^ 31 + 4096) done refl

Use-times_example :
    times (2 ^ 31) taken.freelist + times (2 ^ 31) ((2 ^ 31 + 4096) ∷ [])
    ≡ times (2 ^ 31) memory.freelist + times (2 ^ 31) []
Use-times_example = Use-times taken_page (2 ^ 31)
