-- ===== src/Cache/Tests.antt =====
-- A cache of three buffers: block 7 in use, block 8 idle, and one never used.
use os_project2_test.Prelude.{
  ◌≡◌, ◌≤◌, ◌↔◌, refl, true, false, none, some, List, [], ◌∷◌, All, arith,
}
use os_project2_test.Cache.{
  Buf, new_buf, is_idle, bget, brelse, unlink, binit, push_all, claim, find_cached, recycle,
}
use os_project2_test.Cache.Use.{Use, booted, gets, Use-copies, binit-IsSmall}
use os_project2_test.Cache.Unique.{copies, bget-none_iff}

abbrev bufs : List Buf
bufs =
    record (new_buf 2) { dev = 1; blockno = 7; refcnt = 1 }
    ∷ record (new_buf 1) { dev = 1; blockno = 8; valid = true }
    ∷ new_buf 0
    ∷ []

-- The buffer least recently used is taken.
recycles :
    bget 1 9 bufs
    ≡ some (
      record (new_buf 0) { dev = 1; blockno = 9; refcnt = 1 },
      record (new_buf 2) { dev = 1; blockno = 7; refcnt = 1 }
          ∷ record (new_buf 1) { dev = 1; blockno = 8; valid = true }
          ∷ record (new_buf 0) { dev = 1; blockno = 9; refcnt = 1 }
          ∷ [],
    )
unfolding bget find_cached recycle
recycles = refl

bget-none_iff_example :
    (bget 1 9 bufs ≡ none) ↔ ((copies 1 9 bufs ≡ 0) × All (λ (b : Buf). is_idle b ≡ false) bufs)
bget-none_iff_example = bget-none_iff 1 9 bufs

abbrev released : List Buf
released =
    record (new_buf 0) { dev = 1; blockno = 9; refcnt = 0 }
    ∷ record (new_buf 2) { dev = 1; blockno = 7; refcnt = 1 }
    ∷ record (new_buf 1) { dev = 1; blockno = 8; valid = true }
    ∷ []

-- A buffer released goes to the front.
releases_last :
    brelse true 0 (
      record (new_buf 2) { dev = 1; blockno = 7; refcnt = 1 }
      ∷ record (new_buf 1) { dev = 1; blockno = 8; valid = true }
      ∷ record (new_buf 0) { dev = 1; blockno = 9; refcnt = 1 }
      ∷ [])
    ≡ some released
unfolding brelse unlink
releases_last = refl

abbrev after_one : List Buf
after_one = elim (bget 1 5 binit) [ none ↦ [] | some (_, bs) ↦ bs ]

got_one : Use after_one
unfolding bget find_cached recycle push_all
got_one = gets 1 5 (claim 1 5 (new_buf 0)) booted (omega arith) binit-IsSmall refl

Use-copies_example : copies 1 5 after_one ≤ 1
Use-copies_example = Use-copies got_one 1 5 (omega arith)
