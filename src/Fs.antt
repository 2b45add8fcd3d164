-- ===== src/Fs.antt =====
-- fs.c. One device, as the source says of the superblock. `cache` gives the bytes that `bread` finds
-- in a block; a change to a buffer that `log_write` records is a change to `cache`, and the block's
-- number goes to `logged`. `log_write` does not fail here: its panics on a full log are those of Log,
-- and a caller's blocks must fit. `brelse` has nothing to do here.
pub mod Bitmap
pub mod Map
pub mod Dinode
pub mod Content
pub mod Path
pub mod Icache
pub mod Dir
mod Tests
use os_project2_test.Prelude.{
  ℕ, zero, suc, ◌+◌, ◌*◌, ◌/◌, ◌%◌, ◌^◌, Bool, true, false, not, ◌&&◌, ◌||◌, List, [], ◌∷◌, ◌==◌,
  ltb, if◌then◌else◌,
}

abbrev pub Blocks : Type 0
Blocks = ℕ → ℕ → ℕ

-- `struct superblock`
pub record Superblock : Type 0 where
  pub size : ℕ
  pub nblocks : ℕ
  pub ninodes : ℕ
  pub nlog : ℕ
  pub logstart : ℕ
  pub inodestart : ℕ
  pub bmapstart : ℕ

-- `struct inode`; its sleep lock is that of Sleeplock.
pub record Inode : Type 0 where
  pub dev : ℕ
  pub inum : ℕ
  pub ref : ℕ
  pub valid : Bool
  pub type : ℕ
  pub major : ℕ
  pub minor : ℕ
  pub nlink : ℕ
  pub size : ℕ
  pub addrs : List ℕ

pub record Fs : Type 0 where
  pub cache : Blocks
  pub logged : List ℕ

abbrev pub put_byte : Blocks → ℕ → ℕ → ℕ → Blocks
put_byte c b i v a j = if b == a && i == j then v else c a j

-- The `j`th `uint` of a block.
abbrev pub get_word : Blocks → ℕ → ℕ → ℕ
get_word c b j =
    c b (4 * j) + c b (4 * j + 1) * 2 ^ 8 + c b (4 * j + 2) * 2 ^ 16 + c b (4 * j + 3) * 2 ^ 24

abbrev pub put_word : Blocks → ℕ → ℕ → ℕ → Blocks
put_word c b j w a i =
    if b == a && i / 4 == j
    then if i % 4 == 0
      then w % 2 ^ 8
      else if i % 4 == 1
      then w / 2 ^ 8 % 2 ^ 8
      else if i % 4 == 2
      then w / 2 ^ 16 % 2 ^ 8
      else w / 2 ^ 24 % 2 ^ 8
    else c a i

-- `log_write` of a block whose buffer has been changed.
abbrev pub log_write : Fs → Blocks → ℕ → Fs
log_write fs c b = record fs { cache = c; logged = b ∷ fs.logged }

-- `memset(bp->data, 0, BSIZE)`
abbrev pub zeroed : Blocks → ℕ → Blocks
zeroed c b a i = if b == a && ltb i 512 then 0 else c a i

pub bzero : Fs → ℕ → Fs
bzero fs b = log_write fs (zeroed fs.cache b) b
