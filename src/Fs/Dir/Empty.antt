-- ===== src/Fs/Dir/Empty.antt =====
-- The first loop of dirlink finds an entry that is not in use, or the end.
use os_project2_test.Prelude.{
  ℕ, zero, suc, ◌+◌, ◌*◌, ◌%◌, ◌^◌, ◌≡◌, ◌≤◌, refl, ap, ◌∙◌, Bool, true, false, ◌⊎◌, inl, inr, some,
  ◌==◌, ltb, arith, Bool-cases,
}
use os_project2_test.Text.Strings.{IsBytes}
use os_project2_test.Fs.{Superblock, Inode, Fs}
use os_project2_test.Fs.Content.{Mem, moved, readi}
use os_project2_test.Fs.Content.Read.{content}
use os_project2_test.Fs.Dir.{inum_at, find_empty}
use os_project2_test.Fs.Dir.Entry.{
  entry_inum, IsDir, IsApart, Kept, read-inum, name_kept, read-IsBytes,
}
use os_project2_test.Fs.Dir.Lookup.{read_entry}

module _ (sb : Superblock) (has : ℕ → Bool) where
  module _ (turns : ℕ) (fs : Fs) (dp : Inode) (mem mem' : Mem) (de off : ℕ)
      (there : ltb off dp.size ≡ true)
      (e : readi sb has fs dp mem de off 16 ≡ some (moved 16, mem', fs, dp)) where
    turn_found :
        (inum_at mem' de == 0) ≡ true
        → find_empty sb has (suc turns) fs dp mem de off ≡ some (off, mem', fs, dp)
    unfolding find_empty
    turn_found z = rw (there, find_empty, e, z) refl

    turn_used :
        (inum_at mem' de == 0) ≡ false
        → find_empty sb has (suc turns) fs dp mem de off
          ≡ find_empty sb has turns fs dp mem' de ((off + 16) % 2 ^ 32)
    unfolding find_empty
    turn_used z = rw (there, find_empty, e, z) refl

  pub find_empty_lem :
      (fs : Fs) (dp : Inode) (size turns k n : ℕ) (mem : Mem) (name de : ℕ)
      → IsDir fs dp size
      → k + n ≡ size
      → n ≤ turns
      → IsApart name de
      → IsBytes mem
      → (j : ℕ) × (mem' : Mem) × (find_empty sb has turns fs dp mem de (16 * k)
          ≡ some (16 * j, mem', fs, dp))
        × Kept mem mem' name
        × (j ≤ size)
        × ((j ≡ size) ⊎ (entry_inum (content fs.cache dp) j ≡ 0))
  unfolding find_empty
  find_empty_lem fs dp size zero k n mem name de d sum fuel apart bytes =
      (k, mem, refl, (refl, bytes), omega arith, inl (omega arith))
  find_empty_lem fs dp size (suc turns) k zero mem name de d sum fuel apart bytes =
      let s = d.entries in
      let stop : ltb (16 * k) dp.size ≡ false = ground arith in
      (k, mem, rw stop refl, (refl, bytes), omega arith, inl (omega arith))
  find_empty_lem fs dp size (suc turns) k (suc n) mem name de d sum fuel apart bytes =
      let s = d.entries in
      let fit = d.fit in
      let there : ltb (16 * k) dp.size ≡ true = ground arith in
      let (mem', e, new, old) = read_entry sb has fs dp size mem de k d (omega arith) in
      let file = content fs.cache dp in
      let inum = read-inum file mem mem' name de k new old in
      let kept = name_kept file mem mem' name de k new old apart in
      let bytes' = read-IsBytes file mem mem' name de k new old d.bytes bytes in
      let next : (16 * k + 16) % 2 ^ 32 ≡ 16 * suc k = omega arith in
      elim (Bool-cases (inum_at mem' de == 0)) [
        | inl z ↦ (
          k,
          mem',
          turn_found turns fs dp mem mem' de (16 * k) there e z,
          (kept, bytes'),
          omega arith,
          inr (ground arith),
        )
        | inr nz ↦
            let (j, mem'', f, kp, le, unused) =
              find_empty_lem fs dp size turns (suc k) n mem' name de d (omega arith) (omega arith)
                apart bytes' in
            (
              j,
              mem'',
              turn_used turns fs dp mem mem' de (16 * k) there e nz
                  ∙ ap (find_empty sb has turns fs dp mem' de) next
                  ∙ f,
              (kp.0 ∙ kept, kp.1),
              le,
              unused,
            )
      ]
