-- ===== src/Fs/Bitmap.antt =====
-- The free map of fs.c: balloc and bfree.
pub mod Laws
pub mod Count
use os_project2_test.Prelude.{
  ℕ, zero, suc, ◌+◌, ◌*◌, ◌/◌, ◌%◌, ◌-◌, Bool, true, false, not, ◌&&◌, Option, none, some, List, [],
  ◌∷◌, ◌==◌, ltb, if◌then◌else◌,
}
use os_project2_test.Fs.{Blocks, Superblock, Fs, put_byte, log_write, bzero}

-- `byte & (1 << k)` is not 0.
unfoldable pub is_set : ℕ → ℕ → Bool
is_set byte zero = byte % 2 == 1
is_set byte (suc k) = is_set (byte / 2) k

-- `byte | (1 << k)`
pub or_bit : ℕ → ℕ → ℕ
or_bit byte zero = if byte % 2 == 1 then byte else byte + 1
or_bit byte (suc k) = byte % 2 + 2 * or_bit (byte / 2) k

-- `byte & ~(1 << k)`
pub clear_bit : ℕ → ℕ → ℕ
clear_bit byte zero = if byte % 2 == 1 then byte - 1 else byte
clear_bit byte (suc k) = byte % 2 + 2 * clear_bit (byte / 2) k

-- `BBLOCK(b, sb)`, and where the bit of block `b` is there.
abbrev pub map_block : Superblock → ℕ → ℕ
map_block sb b = b / 4096 + sb.bmapstart

abbrev pub map_byte : ℕ → ℕ
map_byte b = b % 4096 / 8

abbrev pub map_bit : ℕ → ℕ
map_bit b = b % 4096 % 8

abbrev pub mark : Superblock → Fs → ℕ → Fs
mark sb fs b =
    log_write fs
      (put_byte fs.cache (map_block sb b) (map_byte b)
        (or_bit (fs.cache (map_block sb b) (map_byte b)) (map_bit b)))
      (map_block sb b)

-- The inner loop of `balloc`, from `bi` on, with `n` rounds to 4096 left.
pub find_free : Superblock → Blocks → ℕ → ℕ → ℕ → Option ℕ
find_free sb c b zero bi = none
find_free sb c b (suc n) bi =
    let rest = find_free sb c b n (suc bi) in
    if ltb (b + bi) sb.size
    then if is_set (c (map_block sb b) (bi / 8)) (bi % 8) then rest else some bi
    else none

-- The outer loop, from the block `b` on; `none` is a panic, or fuel that ran out.
pub balloc_from : Superblock → Fs → ℕ → ℕ → Option (ℕ × Fs)
balloc_from sb fs zero b = none
balloc_from sb fs (suc fuel) b =
    let rest = balloc_from sb fs fuel (b + 4096) in
    if ltb b sb.size
    then elim (find_free sb fs.cache b 4096 0) [
      | none ↦ rest
      | some bi ↦ some (b + bi, bzero (mark sb fs (b + bi)) (b + bi))
    ]
    else none

pub balloc : Superblock → Fs → Option (ℕ × Fs)
balloc sb fs = balloc_from sb fs (sb.size / 4096 + 1) 0

-- `none` is a panic.
pub bfree : Superblock → Fs → ℕ → Option Fs
bfree sb fs b =
    if not (is_set (fs.cache (map_block sb b) (map_byte b)) (map_bit b))
    then none
    else some (
        log_write fs
          (put_byte fs.cache (map_block sb b) (map_byte b)
            (clear_bit (fs.cache (map_block sb b) (map_byte b)) (map_bit b)))
          (map_block sb b))
