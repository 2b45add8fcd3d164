-- ===== src/Cache.antt =====
-- bio.c: the list of buffers, most recently used first. A buffer is known by its `slot` in
-- `bcache.buf`; its data and its sleep lock are left out: bget's calls of `acquiresleep` follow what
-- is modelled, and brelse is given the answer of `holdingsleep`.
pub mod Unique
pub mod Use
mod Tests
use os_project2_test.Prelude.{
  ℕ, zero, suc, Bool, true, false, not, ◌&&◌, ◌||◌, Option, none, some, List, [], ◌∷◌, ◌==◌,
  if◌then◌else◌, update_first, add32, sub32,
}

-- `struct buf`, with B_VALID and B_DIRTY of its flags.
pub record Buf : Type 0 where
  pub slot : ℕ
  pub dev : ℕ
  pub blockno : ℕ
  pub refcnt : ℕ
  pub valid : Bool
  pub dirty : Bool

abbrev pub new_buf : ℕ → Buf
new_buf slot = record {
  slot = slot;
  dev = 0;
  blockno = 0;
  refcnt = 0;
  valid = false;
  dirty = false;
}

-- The loop of `binit`: each buffer goes to the front.
pub push_all : ℕ → ℕ → List Buf → List Buf
push_all zero slot bufs = bufs
push_all (suc n) slot bufs = push_all n (suc slot) (new_buf slot ∷ bufs)

abbrev pub binit : List Buf
binit = push_all 30 0 []

abbrev pub is_block : ℕ → ℕ → Buf → Bool
is_block dev blockno b = b.dev == dev && b.blockno == blockno

abbrev pub reuse : Buf → Buf
reuse b = record b { refcnt = add32 b.refcnt 1 }

-- The first loop of `bget`, from the front.
pub find_cached : ℕ → ℕ → List Buf → Option (Buf × List Buf)
find_cached dev blockno [] = none
find_cached dev blockno (b ∷ bufs) =
    let rest = find_cached dev blockno bufs in
    if is_block dev blockno b
    then some (reuse b, reuse b ∷ bufs)
    else elim rest [ none ↦ none | some (x, bufs') ↦ some (x, b ∷ bufs') ]

abbrev pub is_idle : Buf → Bool
is_idle b = b.refcnt == 0 && not b.dirty

abbrev pub claim : ℕ → ℕ → Buf → Buf
claim dev blockno b = record b {
  dev = dev;
  blockno = blockno;
  refcnt = 1;
  valid = false;
  dirty = false;
}

-- The second loop, from the back.
pub recycle : ℕ → ℕ → List Buf → Option (Buf × List Buf)
recycle dev blockno [] = none
recycle dev blockno (b ∷ bufs) = elim (recycle dev blockno bufs) [
  | some (x, bufs') ↦ some (x, b ∷ bufs')
  | none ↦ if is_idle b then some (claim dev blockno b, claim dev blockno b ∷ bufs) else none
]

-- `none` is a panic.
pub bget : ℕ → ℕ → List Buf → Option (Buf × List Buf)
bget dev blockno bufs = elim (find_cached dev blockno bufs) [
  | some found ↦ some found
  | none ↦ recycle dev blockno bufs
]

-- Whether `iderw` is called.
pub bread : ℕ → ℕ → List Buf → Option (Buf × List Buf × Bool)
bread dev blockno bufs = elim (bget dev blockno bufs) [
  | none ↦ none
  | some (b, bufs') ↦ some (b, bufs', not b.valid)
]

-- The buffer and the list without it.
pub unlink : ℕ → List Buf → Option (Buf × List Buf)
unlink slot [] = none
unlink slot (b ∷ bufs) =
    let rest = unlink slot bufs in
    if b.slot == slot
    then some (b, bufs)
    else elim rest [ none ↦ none | some (x, bufs') ↦ some (x, b ∷ bufs') ]

abbrev pub release : Buf → Buf
release b = record b { refcnt = sub32 b.refcnt 1 }

-- With the answer of `holdingsleep`; `none` is a panic, or no such buffer.
pub brelse : Bool → ℕ → List Buf → Option (List Buf)
brelse holding slot bufs = elim (unlink slot bufs) [
  | none ↦ none
  | some (b, rest) ↦
      if not holding
      then none
      else if sub32 b.refcnt 1 == 0
      then some (release b ∷ rest)
      else update_first (λ (b : Buf). b.slot == slot) release bufs
]
