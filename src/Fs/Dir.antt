-- ===== src/Fs/Dir.antt =====
-- Directories in fs.c: dirlookup and dirlink. A `struct dirent` is 16 bytes, the inode's number and 14
-- bytes of name; `de` is the address of the one on the stack, `name` that of the name.
pub mod Entry
pub mod Lookup
pub mod Answer
pub mod Empty
pub mod Link
mod Tests
use os_project2_test.Prelude.{
  ℕ, zero, suc, ◌+◌, ◌*◌, ◌/◌, ◌%◌, ◌^◌, Bool, true, false, ◌&&◌, Option, none, some, List, [], ◌∷◌,
  ◌==◌, ltb, if◌then◌else◌,
}
use os_project2_test.Text.{strncmp, strncpy, write}
use os_project2_test.Fs.{Superblock, Inode, Fs}
use os_project2_test.Fs.Content.{Mem, Moved, refused, by_device, moved, readi, writei}
use os_project2_test.Fs.Icache.{iget, iput}

-- `readi(...) == sizeof(de)`
abbrev pub is_entry : Moved → Bool
is_entry refused = false
is_entry by_device = false
is_entry (moved n) = n == 16

-- `de.inum`
abbrev pub inum_at : Mem → ℕ → ℕ
inum_at m a = m a + m (a + 1) * 2 ^ 8

-- `strncpy(de.name, name, DIRSIZ); de.inum = inum;`
abbrev pub fill_entry : Mem → ℕ → ℕ → ℕ → Mem
fill_entry mem name de inum =
    write (write (strncpy mem (de + 2) name 14) de (inum % 2 ^ 8)) (de + 1) (inum / 2 ^ 8 % 2 ^ 8)

module _ (sb : Superblock) (has : ℕ → Bool) where
  -- The loop of `dirlookup`: the number and the offset of the entry found. A turn for each entry is
  -- enough. `none` is a panic.
  pub find_name : ℕ → Fs → Inode → Mem → ℕ → ℕ → ℕ → Option (Option (ℕ × ℕ) × Mem × Fs × Inode)
  find_name zero fs dp mem name de off = some (none, mem, fs, dp)
  find_name (suc turns) fs dp mem name de off =
      if ltb off dp.size
      then elim (readi sb has fs dp mem de off 16) [
        | none ↦ none
        | some (r, mem', fs', dp') ↦
            let rest = find_name turns fs' dp' mem' name de ((off + 16) % 2 ^ 32) in
            if is_entry r
            then if inum_at mem' de == 0
              then rest
              else if strncmp mem' name (de + 2) 14 == 0
              then some (some (inum_at mem' de, off), mem', fs', dp')
              else rest
            else none
      ]
      else some (none, mem, fs, dp)

  -- The place of the inode in the table, and `*poff`. `none` is a panic.
  pub dirlookup :
      Fs
      → Inode
      → List Inode
      → Mem
      → ℕ
      → ℕ
      → Option (Option (ℕ × ℕ) × List Inode × Mem × Fs × Inode)
  dirlookup fs dp table mem name de =
      if dp.type == 1
      then elim (find_name (dp.size / 16 + 1) fs dp mem name de 0) [
        | none ↦ none
        | some (found, mem', fs', dp') ↦ elim found [
          | none ↦ some (none, table, mem', fs', dp')
          | some (inum, off) ↦ elim (iget dp.dev inum table) [
            | none ↦ none
            | some (i, table') ↦ some (some (i, off), table', mem', fs', dp')
          ]
        ]
      ]
      else none

  -- The loop of `dirlink`: the offset of the first entry without inode, or of the end.
  pub find_empty : ℕ → Fs → Inode → Mem → ℕ → ℕ → Option (ℕ × Mem × Fs × Inode)
  find_empty zero fs dp mem de off = some (off, mem, fs, dp)
  find_empty (suc turns) fs dp mem de off =
      if ltb off dp.size
      then elim (readi sb has fs dp mem de off 16) [
        | none ↦ none
        | some (r, mem', fs', dp') ↦
            let rest = find_empty turns fs' dp' mem' de ((off + 16) % 2 ^ 32) in
            if is_entry r
            then if inum_at mem' de == 0 then some (off, mem', fs', dp') else rest
            else none
      ]
      else some (off, mem, fs, dp)

  -- `false` is the answer -1.
  pub dirlink :
      Fs → Inode → List Inode → Mem → ℕ → ℕ → ℕ → Option (Bool × List Inode × Mem × Fs × Inode)
  dirlink fs dp table mem name de inum = elim (dirlookup fs dp table mem name de) [
    | none ↦ none
    | some (found, table', mem', fs', dp') ↦ elim found [
      | some (i, off) ↦ elim (iput sb fs' table' i) [
        | none ↦ none
        | some (fs'', table'') ↦ some (false, table'', mem', fs'', dp')
      ]
      | none ↦ elim (find_empty (dp'.size / 16 + 1) fs' dp' mem' de 0) [
        | none ↦ none
        | some (off, mem'', fs'', dp'') ↦
            let filled = fill_entry mem'' name de inum in
            elim (writei sb has fs'' dp'' filled de off 16) [
              | none ↦ none
              | some (r, fs3, dp3) ↦
                  if is_entry r then some (true, table', filled, fs3, dp3) else none
            ]
      ]
    ]
  ]
