-- ===== src/Fs/Content.antt =====
-- readi, writei and stati in fs.c. Memory is a function from addresses to bytes; whether a device of
-- `devsw` has a `read` or `write` is a parameter, and what it does is left open.
pub mod Read
pub mod Only
pub mod Write
pub mod Store
pub mod Back
use os_project2_test.Prelude.{
  ℕ, zero, suc, ◌+◌, ◌-◌, ◌*◌, ◌/◌, ◌%◌, ◌^◌, Bool, true, false, not, ◌&&◌, ◌||◌, Option, none,
  some, List, [], ◌∷◌, ◌==◌, ltb, leb, if◌then◌else◌,
}
use os_project2_test.Fs.{Blocks, Superblock, Inode, Fs, log_write}
use os_project2_test.Fs.Map.{bmap}
use os_project2_test.Fs.Dinode.{iupdate}

abbrev pub Mem : Type 0
Mem = ℕ → ℕ

-- `memmove(dst, bp->data + i, m)`
abbrev pub from_block : Blocks → ℕ → ℕ → Mem → ℕ → ℕ → Mem
from_block c b i mem dst m a = if leb dst a && ltb a (dst + m) then c b (i + (a - dst)) else mem a

-- `memmove(bp->data + i, src, m)`
abbrev pub to_block : Blocks → ℕ → ℕ → Mem → ℕ → ℕ → Blocks
to_block c b i mem src m a j =
    if b == a && leb i j && ltb j (i + m) then mem (src + (j - i)) else c a j

-- `min(n - tot, BSIZE - off%BSIZE)`, where `n - tot` is `left`
abbrev pub chunk : ℕ → ℕ → ℕ
chunk left off = if ltb left (512 - off % 512) then left else 512 - off % 512

-- What readi and writei return: -1, the device's result, or the number of bytes.
pub data Moved : Type 0 where
  refused : Moved
  by_device : Moved
  moved : ℕ → Moved

-- `struct stat`
pub record Stat : Type 0 where
  pub type : ℕ
  pub dev : ℕ
  pub ino : ℕ
  pub nlink : ℕ
  pub size : ℕ

pub stati : Inode → Stat
stati ip = record { dev = ip.dev; ino = ip.inum; type = ip.type; nlink = ip.nlink; size = ip.size }

module _ (sb : Superblock) where
  -- The loop of `readi` with `n` bytes left; each turn moves at least one, so that `n` turns are
  -- enough. `off + n` is known not to wrap.
  pub read_loop : ℕ → Fs → Inode → Mem → ℕ → ℕ → ℕ → Option (Mem × Fs × Inode)
  read_loop zero fs ip mem dst off n = some (mem, fs, ip)
  read_loop (suc turns) fs ip mem dst off n =
      if n == 0 then some (mem, fs, ip) else elim (bmap sb fs ip (off / 512)) [
        | none ↦ none
        | some (b, fs', ip') ↦
            let m = chunk n off in
            read_loop turns fs' ip' (from_block fs'.cache b (off % 512) mem dst m) (dst + m)
              (off + m) (n - m)
      ]

  pub write_loop : ℕ → Fs → Inode → Mem → ℕ → ℕ → ℕ → Option (Fs × Inode)
  write_loop zero fs ip mem src off n = some (fs, ip)
  write_loop (suc turns) fs ip mem src off n =
      if n == 0 then some (fs, ip) else elim (bmap sb fs ip (off / 512)) [
        | none ↦ none
        | some (b, fs', ip') ↦
            let m = chunk n off in
            write_loop turns (log_write fs' (to_block fs'.cache b (off % 512) mem src m) b) ip' mem
              (src + m) (off + m) (n - m)
      ]

  -- `has` tells for which major numbers `devsw` has the function; a negative one is 2^15 at least.
  -- `none` is a panic.
  pub readi : (ℕ → Bool) → Fs → Inode → Mem → ℕ → ℕ → ℕ → Option (Moved × Mem × Fs × Inode)
  readi has fs ip mem dst off n =
      if ip.type == 3
      then if leb (2 ^ 15) ip.major || leb 10 ip.major || not (has ip.major)
        then some (refused, mem, fs, ip)
        else some (by_device, mem, fs, ip)
      else if ltb ip.size off || ltb ((off + n) % 2 ^ 32) off
      then some (refused, mem, fs, ip)
      else let n' = if ltb ip.size ((off + n) % 2 ^ 32) then ip.size - off else n in
        elim (read_loop n' fs ip mem dst off n') [
          | none ↦ none
          | some (mem', fs', ip') ↦ some (moved n', mem', fs', ip')
        ]

  -- The end of `writei`, where `off` has been moved on by `n`.
  abbrev pub resized : Fs → Inode → ℕ → ℕ → Fs × Inode
  resized fs ip off n =
      if ltb 0 n && ltb ip.size off
      then (iupdate sb fs (record ip { size = off }), record ip { size = off })
      else (fs, ip)

  pub writei : (ℕ → Bool) → Fs → Inode → Mem → ℕ → ℕ → ℕ → Option (Moved × Fs × Inode)
  writei has fs ip mem src off n =
      if ip.type == 3
      then if leb (2 ^ 15) ip.major || leb 10 ip.major || not (has ip.major)
        then some (refused, fs, ip)
        else some (by_device, fs, ip)
      else if ltb ip.size off || ltb ((off + n) % 2 ^ 32) off
      then some (refused, fs, ip)
      else if ltb (140 * 512) ((off + n) % 2 ^ 32)
      then some (refused, fs, ip)
      else elim (write_loop n fs ip mem src off n) [
        | none ↦ none
        | some (fs', ip') ↦
            let (fs'', ip'') = resized fs' ip' (off + n) n in some (moved n, fs'', ip'')
      ]
