-- ===== src/Fs/Map.antt =====
-- The blocks of an inode in fs.c: bmap and itrunc.
pub mod Owned
pub mod Laws
pub mod Bmap
pub mod Trunc
pub mod Free
pub mod Stored
use os_project2_test.Prelude.{
  ℕ, zero, suc, ◌+◌, ◌-◌, Bool, true, false, not, Option, none, some, List, [], ◌∷◌, ◌==◌, ltb,
  if◌then◌else◌, get_or, set,
}
use os_project2_test.Fs.{Blocks, Superblock, Inode, Fs, get_word, put_word, log_write}
use os_project2_test.Fs.Bitmap.{balloc, bfree}
use os_project2_test.Fs.Dinode.{iupdate}

-- `if((addr = ip->addrs[i]) == 0) ip->addrs[i] = addr = balloc(ip->dev);`
pub map_slot : Superblock → Fs → Inode → ℕ → Option (ℕ × Fs × Inode)
map_slot sb fs ip i =
    if get_or ip.addrs i 0 == 0
    then elim (balloc sb fs) [
      | none ↦ none
      | some (addr, fs') ↦ some (addr, fs', record ip { addrs = set ip.addrs i addr })
    ]
    else some (get_or ip.addrs i 0, fs, ip)

-- `if((addr = a[j]) == 0){ a[j] = addr = balloc(ip->dev); log_write(bp); }`, where `a` is block `ind`.
pub map_word : Superblock → Fs → ℕ → ℕ → Option (ℕ × Fs)
map_word sb fs ind j =
    if get_word fs.cache ind j == 0
    then elim (balloc sb fs) [
      | none ↦ none
      | some (addr, fs') ↦ some (addr, log_write fs' (put_word fs'.cache ind j addr) ind)
    ]
    else some (get_word fs.cache ind j, fs)

-- `none` is a panic.
pub bmap : Superblock → Fs → Inode → ℕ → Option (ℕ × Fs × Inode)
bmap sb fs ip bn =
    if ltb bn 12
    then map_slot sb fs ip bn
    else if ltb (bn - 12) 128
    then elim (map_slot sb fs ip 12) [
      | none ↦ none
      | some (ind, fs', ip') ↦ elim (map_word sb fs' ind (bn - 12)) [
        | none ↦ none
        | some (addr, fs'') ↦ some (addr, fs'', ip')
      ]
    ]
    else none

-- The first loop of `itrunc`, from slot `i` on, with `n` slots left.
pub free_slots : Superblock → ℕ → ℕ → Fs → Inode → Option (Fs × Inode)
free_slots sb zero i fs ip = some (fs, ip)
free_slots sb (suc n) i fs ip =
    let rest = free_slots sb n (suc i) fs ip in
    if get_or ip.addrs i 0 == 0 then rest else elim (bfree sb fs (get_or ip.addrs i 0)) [
      | none ↦ none
      | some fs' ↦ free_slots sb n (suc i) fs' (record ip { addrs = set ip.addrs i 0 })
    ]

-- The second loop, over the words of block `ind`.
pub free_words : Superblock → ℕ → ℕ → ℕ → Fs → Option Fs
free_words sb ind zero j fs = some fs
free_words sb ind (suc n) j fs =
    let rest = free_words sb ind n (suc j) fs in
    if get_word fs.cache ind j == 0 then rest else elim (bfree sb fs (get_word fs.cache ind j)) [
      | none ↦ none
      | some fs' ↦ free_words sb ind n (suc j) fs'
    ]

-- The part of `itrunc` about the indirect block.
pub free_indirect : Superblock → Fs → Inode → Option (Fs × Inode)
free_indirect sb fs ip =
    let ind = get_or ip.addrs 12 0 in
    if ind == 0 then some (fs, ip) else elim (free_words sb ind 128 0 fs) [
      | none ↦ none
      | some fs' ↦ elim (bfree sb fs' ind) [
        | none ↦ none
        | some fs'' ↦ some (fs'', record ip { addrs = set ip.addrs 12 0 })
      ]
    ]

-- `none` is a panic.
pub itrunc : Superblock → Fs → Inode → Option (Fs × Inode)
itrunc sb fs ip = elim (free_slots sb 12 0 fs ip) [
  | none ↦ none
  | some (fs', ip') ↦ elim (free_indirect sb fs' ip') [
    | none ↦ none
    | some (fs'', ip'') ↦
        let empty = record ip'' { size = 0 } in some (iupdate sb fs'' empty, empty)
  ]
]
