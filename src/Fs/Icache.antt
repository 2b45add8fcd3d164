-- ===== src/Fs/Icache.antt =====
-- The table of inodes in memory in fs.c: iget, idup and iput. An inode is known by its place in the
-- table; `ref` is an `int`. The inode's own sleep lock, which iput takes and gives back, is that of
-- Sleeplock.
pub mod Refs
pub mod Last
use os_project2_test.Prelude.{
  ℕ, zero, suc, Bool, true, false, ◌&&◌, Option, none, some, List, [], ◌∷◌, ◌==◌, if◌then◌else◌,
  get_elem?, modify, add32, sub32, lt_int,
}
use os_project2_test.Fs.{Superblock, Inode, Fs}
use os_project2_test.Fs.Map.{itrunc}
use os_project2_test.Fs.Dinode.{iupdate}

-- `ip->ref > 0 && ip->dev == dev && ip->inum == inum`
abbrev pub is_cached : ℕ → ℕ → Inode → Bool
is_cached dev inum ip = lt_int 0 ip.ref && ip.dev == dev && ip.inum == inum

-- `if(empty == 0 && ip->ref == 0) empty = ip;`
abbrev pub note : Inode → ℕ → Option ℕ → Option ℕ
note ip i empty = elim empty [ some k ↦ some k | none ↦ if ip.ref == 0 then some i else none ]

-- How the loop of `iget` ends.
pub data Place : Type 0 where
  cached : ℕ → Place
  recycled : ℕ → Place
  full : Place

-- The loop, from entry `i` on.
pub seek : ℕ → ℕ → List Inode → ℕ → Option ℕ → Place
seek dev inum [] i empty = elim empty [ none ↦ full | some k ↦ recycled k ]
seek dev inum (ip ∷ ips) i empty =
    let rest = seek dev inum ips (suc i) (note ip i empty) in
    if is_cached dev inum ip then cached i else rest

abbrev pub more : Inode → Inode
more ip = record ip { ref = add32 ip.ref 1 }

abbrev pub fewer : Inode → Inode
fewer ip = record ip { ref = sub32 ip.ref 1 }

abbrev pub renewed : ℕ → ℕ → Inode → Inode
renewed dev inum ip = record ip { dev = dev; inum = inum; ref = 1; valid = false }

-- `none` is a panic.
pub iget : ℕ → ℕ → List Inode → Option (ℕ × List Inode)
iget dev inum table = elim (seek dev inum table 0 none) [
  | cached i ↦ some (i, modify i more table)
  | recycled i ↦ some (i, modify i (renewed dev inum) table)
  | full ↦ none
]

pub idup : ℕ → List Inode → List Inode
idup i table = modify i more table

-- `none` is a panic, or no such inode.
pub iput : Superblock → Fs → List Inode → ℕ → Option (Fs × List Inode)
iput sb fs table i = elim (get_elem? table i) [
  | none ↦ none
  | some ip ↦
      if ip.valid && ip.nlink == 0 && ip.ref == 1
      then elim (itrunc sb fs ip) [
        | none ↦ none
        | some (fs', ip') ↦
            let freed = record ip' { type = 0 } in
            some
              (iupdate sb fs' freed, modify i (λ _. fewer (record freed { valid = false })) table)
      ]
      else some (fs, modify i fewer table)
]
