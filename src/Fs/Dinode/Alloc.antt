-- ===== src/Fs/Dinode/Alloc.antt =====
-- ialloc takes a free inode and leaves the others alone.
use os_project2_test.Prelude.{
  ℕ, zero, suc, ◌+◌, ◌%◌, ◌-◌, ◌^◌, ◌≡◌, ◌≤◌, ◌<◌, refl, false, some, ◌∷◌, ◌==◌, arith, Bool-cases,
  inl, inr, All-replicate, replicate,
}
use os_project2_test.Fs.{Superblock, Inode, Fs, get_word, log_write}
use os_project2_test.Fs.Dinode.{
  put_words, inode_block, inode_word, pair, iupdate, load, ialloc_from, ialloc,
}
use os_project2_test.Fs.Dinode.Laws.{load-same, load-other}

module _ (sb : Superblock) where
  -- An inode's type on the disk.
  abbrev pub type_of : Fs → ℕ → ℕ
  type_of fs inum = get_word fs.cache (inode_block sb inum) (inode_word inum) % 2 ^ 16

  pub type_of-load : (fs : Fs) (ip : Inode) → type_of fs ip.inum ≡ (load sb fs ip).type
  unfolding load
  type_of-load fs ip = refl

  -- A new inode of a type.
  abbrev pub new_inode : ℕ → ℕ → Inode
  new_inode inum type = record {
    dev = 0;
    inum = inum;
    ref = 0;
    valid = false;
    type = type;
    major = 0;
    minor = 0;
    nlink = 0;
    size = 0;
    addrs = replicate 13 0;
  }

  -- The inode found was free; it has its type and nothing else, and other inodes are as they were.
  pub record Allocated (fs fs' : Fs) (inum type : ℕ) : Type 0 where
    pub was_free : type_of fs inum ≡ 0
    pub positive : 1 ≤ inum
    pub in_range : inum < sb.ninodes
    pub fields :
        (jp : Inode)
        → jp.inum ≡ inum
        → load sb fs' jp
          ≡ record (new_inode inum type) { dev = jp.dev; ref = jp.ref; valid = jp.valid }
    pub others : (jp : Inode) → (jp.inum == inum) ≡ false → load sb fs' jp ≡ load sb fs jp

  new_fields :
      (fs : Fs) (inum type : ℕ) (jp : Inode)
      → type < 2 ^ 16
      → jp.inum ≡ inum
      → load sb
          (log_write fs
            (put_words fs.cache
              (inode_block sb inum)
              (inode_word inum)
              (pair type 0 ∷ replicate 15 0))
            (inode_block sb inum))
          jp
        ≡ record (new_inode inum type) { dev = jp.dev; ref = jp.ref; valid = jp.valid }
  unfolding iupdate
  new_fields fs inum type jp h e =
      load-same sb fs (new_inode inum type) jp
        (record {
          type = h;
          major = omega arith;
          minor = omega arith;
          nlink = omega arith;
          size = omega arith;
          slots = refl;
          small = All-replicate (λ w. w < 2 ^ 32) 13 0 (omega arith);
        })
        e

  ialloc_from-Allocated :
      (fs : Fs) (type : ℕ) (n inum free : ℕ)
      → type < 2 ^ 16
      → 1 ≤ inum
      → inum + n ≤ sb.ninodes
      → inum ≤ free
      → free < inum + n
      → type_of fs free ≡ 0
      → (x : ℕ) × (fs' : Fs) × (ialloc_from sb n inum fs type ≡ some (x, fs'))
        × Allocated fs fs' x type
  unfolding ialloc_from
  ialloc_from-Allocated fs type zero inum free h pos top low high f = absurd (omega arith)
  ialloc_from-Allocated fs type (suc n) inum free h pos top low high f =
      elim (Bool-cases (type_of fs inum == 0)) [
        | inl z ↦
            let b = inode_block sb inum in
            let j = inode_word inum in
            (
              inum,
              log_write fs (put_words fs.cache b j (pair type 0 ∷ replicate 15 0)) b,
              rw z refl,
              record {
                was_free = ground arith;
                positive = pos;
                in_range = omega arith;
                fields = λ jp e. new_fields fs inum type jp h e;
                others = λ jp e.
                    load-other sb fs b inum (pair type 0 ∷ replicate 15 0) jp (omega arith) e;
              },
            )
        | inr nz ↦
            let (x, fs', e, a) =
              ialloc_from-Allocated fs type n (suc inum) free h (omega arith) (omega arith)
                (ground arith) (omega arith) f in
            (x, fs', rw nz e, a)
      ]

-- If an inode from 1 on has type 0 on disk, `ialloc` of a 16-bit type gives a number in range of
-- an inode that had type 0; read back, that inode has the type and 0 in all other fields, and
-- all other inodes are as before.
pub ialloc_lem :
    (sb : Superblock) (fs : Fs) (type free : ℕ)
    → type < 2 ^ 16
    → 1 ≤ free
    → free < sb.ninodes
    → type_of sb fs free ≡ 0
    → (inum : ℕ) × (fs' : Fs) × (ialloc sb fs type ≡ some (inum, fs'))
      × Allocated sb fs fs' inum type
unfolding ialloc
ialloc_lem sb fs type free h pos range f =
    ialloc_from-Allocated sb fs type (sb.ninodes - 1) 1 free h (omega arith) (omega arith) pos
      (omega arith) f
