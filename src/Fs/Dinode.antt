-- ===== src/Fs/Dinode.antt =====
-- Inodes on the disk in fs.c: iupdate, the loading part of ilock, and ialloc. A `struct dinode` is 16
-- words of a block; its four `short` fields, as 16-bit patterns, are two to a word.
pub mod Laws
pub mod Alloc
use os_project2_test.Prelude.{
  ℕ, zero, suc, ◌+◌, ◌-◌, ◌*◌, ◌/◌, ◌%◌, ◌^◌, Bool, true, false, Option, none, some, List, [], ◌∷◌,
  ◌==◌, ltb, if◌then◌else◌, replicate,
}
use os_project2_test.Fs.{Blocks, Superblock, Inode, Fs, get_word, put_word, log_write}

abbrev pub put_words : Blocks → ℕ → ℕ → List ℕ → Blocks
put_words c b j [] = c
put_words c b j (w ∷ ws) = put_words (put_word c b j w) b (suc j) ws

abbrev pub get_words : Blocks → ℕ → ℕ → ℕ → List ℕ
get_words c b j zero = []
get_words c b j (suc n) = get_word c b j ∷ get_words c b (suc j) n

-- `IBLOCK(inum, sb)`
abbrev pub inode_block : Superblock → ℕ → ℕ
inode_block sb inum = inum / 8 + sb.inodestart

-- The first word of `(struct dinode*)bp->data + inum%IPB`.
abbrev pub inode_word : ℕ → ℕ
inode_word inum = inum % 8 * 16

abbrev pub pair : ℕ → ℕ → ℕ
pair low high = low % 2 ^ 16 + high % 2 ^ 16 * 2 ^ 16

-- `struct dinode`
abbrev pub dinode : Inode → List ℕ
dinode ip = pair ip.type ip.major ∷ pair ip.minor ip.nlink ∷ ip.size ∷ ip.addrs

pub iupdate : Superblock → Fs → Inode → Fs
iupdate sb fs ip =
    let b = inode_block sb ip.inum in
    log_write fs (put_words fs.cache b (inode_word ip.inum) (dinode ip)) b

-- The fields that `ilock` copies from the disk.
pub load : Superblock → Fs → Inode → Inode
load sb fs ip =
    let b = inode_block sb ip.inum in
    let j = inode_word ip.inum in
    record ip {
      type = get_word fs.cache b j % 2 ^ 16;
      major = get_word fs.cache b j / 2 ^ 16;
      minor = get_word fs.cache b (suc j) % 2 ^ 16;
      nlink = get_word fs.cache b (suc j) / 2 ^ 16;
      size = get_word fs.cache b (suc (suc j));
      addrs = get_words fs.cache b (suc (suc (suc j))) 13;
    }

abbrev pub locked : Inode → Option Inode
locked ip = if ip.type == 0 then none else some (record ip { valid = true })

-- `ilock`, once the inode's sleep lock is held; `none` is a panic.
pub ilock : Superblock → Fs → Inode → Option Inode
ilock sb fs ip = if ip.ref == 0 then none else if ip.valid then some ip else locked (load sb fs ip)

-- The loop of `ialloc`, with `n` inodes left, up to its call of `iget`.
pub ialloc_from : Superblock → ℕ → ℕ → Fs → ℕ → Option (ℕ × Fs)
ialloc_from sb zero inum fs type = none
ialloc_from sb (suc n) inum fs type =
    let b = inode_block sb inum in
    let j = inode_word inum in
    let rest = ialloc_from sb n (suc inum) fs type in
    if get_word fs.cache b j % 2 ^ 16 == 0
    then some (inum, log_write fs (put_words fs.cache b j (pair type 0 ∷ replicate 15 0)) b)
    else rest

pub ialloc : Superblock → Fs → ℕ → Option (ℕ × Fs)
ialloc sb fs type = ialloc_from sb (sb.ninodes - 1) 1 fs type
