-- ===== src/Fs/Dir/Lookup.antt =====
-- dirlookup finds the first entry in use that has the name.
use os_project2_test.Prelude.{
  ℕ, zero, suc, ◌+◌, ◌-◌, ◌*◌, ◌%◌, ◌^◌, ◌≡◌, ◌≤◌, ◌<◌, refl, ap, sym, ◌∙◌, subst, Bool, true,
  false, ◌&&◌, inl, inr, Option, none, some, ◌==◌, ltb, leb, arith, Bool-cases, min,
}
use os_project2_test.Text.{strncmp}
use os_project2_test.Text.Strings.{text, IsBytes, strncmp_iff}
use os_project2_test.Fs.{Superblock, Inode, Fs}
use os_project2_test.Fs.Content.{Mem, moved, readi}
use os_project2_test.Fs.Content.Read.{content, readi_lem}
use os_project2_test.Fs.Dir.{inum_at, find_name}
use os_project2_test.Fs.Dir.Entry.{
  Answer, Answer-next, IsDir, IsApart, Kept, read-inum, read-name, name_kept, read-IsBytes,
}

module _ (sb : Superblock) (has : ℕ → Bool) where
  pub read_entry :
      (fs : Fs) (dp : Inode) (n : ℕ) (mem : Mem) (de k : ℕ)
      → IsDir fs dp n
      → k < n
      → (mem' : Mem) × (readi sb has fs dp mem de (16 * k) 16 ≡ some (moved 16, mem', fs, dp))
        × ((i : ℕ) → i < 16 → mem' (de + i) ≡ content fs.cache dp (16 * k + i))
        × ((a : ℕ) → (leb de a && ltb a (de + 16)) ≡ false → mem' a ≡ mem a)
  read_entry fs dp n mem de k d h =
      let t = d.type in
      let s = d.entries in
      let f = d.fit in
      let (mem', e, at) =
        readi_lem sb has fs dp mem de (16 * k) 16 (rw t refl) (omega arith) f (omega arith)
          d.filled in
      let all : min 16 (dp.size - 16 * k) ≡ 16 = omega arith in
      (
        mem',
        e ∙ ap (λ c. some (moved c, mem', fs, dp)) all,
        λ i l.
            let inside : (leb de (de + i) && ltb (de + i) (de + min 16 (dp.size - 16 * k))) ≡ true =
              ground arith in
            let place : 16 * k + (de + i - de) ≡ 16 * k + i = omega arith in
            at (de + i) ∙ rw (inside, place) refl,
        λ a o.
            let outside : (leb de a && ltb a (de + min 16 (dp.size - 16 * k))) ≡ false =
              ground arith in
            at a ∙ rw outside refl,
      )

  -- A turn of the loop, by the entry read.
  module _ (turns : ℕ) (fs : Fs) (dp : Inode) (mem mem' : Mem) (name de off : ℕ)
      (there : ltb off dp.size ≡ true)
      (e : readi sb has fs dp mem de off 16 ≡ some (moved 16, mem', fs, dp)) where
    turn_free :
        (inum_at mem' de == 0) ≡ true
        → find_name sb has (suc turns) fs dp mem name de off
          ≡ find_name sb has turns fs dp mem' name de ((off + 16) % 2 ^ 32)
    unfolding find_name
    turn_free z = rw (there, find_name, e, z) refl

    turn_hit :
        (inum_at mem' de == 0) ≡ false
        → (strncmp mem' name (de + 2) 14 == 0) ≡ true
        → find_name sb has (suc turns) fs dp mem name de off
          ≡ some (some (inum_at mem' de, off), mem', fs, dp)
    unfolding find_name
    turn_hit nz hit = rw (there, find_name, e, nz, hit) refl

    turn_miss :
        (inum_at mem' de == 0) ≡ false
        → (strncmp mem' name (de + 2) 14 == 0) ≡ false
        → find_name sb has (suc turns) fs dp mem name de off
          ≡ find_name sb has turns fs dp mem' name de ((off + 16) % 2 ^ 32)
    unfolding find_name
    turn_miss nz miss = rw (there, find_name, e, nz, miss) refl

  pub find_name_lem :
      (fs : Fs) (dp : Inode) (size turns k n : ℕ) (mem : Mem) (name de : ℕ)
      → IsDir fs dp size
      → k + n ≡ size
      → n ≤ turns
      → IsApart name de
      → IsBytes mem
      → (r : Option (ℕ × ℕ)) × (mem' : Mem) × (find_name sb has turns fs dp mem name de (16 * k)
          ≡ some (r, mem', fs, dp))
        × Kept mem mem' name
        × Answer (content fs.cache dp) (text mem name 14) k n r
  unfolding find_name
  find_name_lem fs dp size zero k n mem name de d sum fuel apart bytes =
      (none, mem, refl, (refl, bytes), λ j l h. absurd (omega arith))
  find_name_lem fs dp size (suc turns) k zero mem name de d sum fuel apart bytes =
      let s = d.entries in
      let stop : ltb (16 * k) dp.size ≡ false = ground arith in
      (none, mem, rw stop refl, (refl, bytes), λ j l h. absurd (omega arith))
  find_name_lem fs dp size (suc turns) k (suc n) mem name de d sum fuel apart bytes =
      let s = d.entries in
      let fit = d.fit in
      let there : ltb (16 * k) dp.size ≡ true = ground arith in
      let (mem', e, new, old) = read_entry fs dp size mem de k d (omega arith) in
      let file = content fs.cache dp in
      let nm = text mem name 14 in
      let inum = read-inum file mem mem' name de k new old in
      let kept = name_kept file mem mem' name de k new old apart in
      let shown = read-name file mem mem' name de k new old in
      let bytes' = read-IsBytes file mem mem' name de k new old d.bytes bytes in
      let next : (16 * k + 16) % 2 ^ 32 ≡ 16 * suc k = omega arith in
      let (r, mem'', f, kp, a) =
        find_name_lem fs dp size turns (suc k) n mem' name de d (omega arith) (omega arith) apart
          bytes' in
      let rest = ap (find_name sb has turns fs dp mem' name de) next ∙ f in
      let a' = subst (λ ns. Answer file ns (suc k) n r) kept a in
      elim (Bool-cases (inum_at mem' de == 0)) [
        | inl z ↦ (
          r,
          mem'',
          turn_free turns fs dp mem mem' name de (16 * k) there e z ∙ rest,
          (kp.0 ∙ kept, kp.1),
          Answer-next file nm k n r (inl (ground arith)) a',
        )
        | inr nz ↦ elim (Bool-cases (strncmp mem' name (de + 2) 14 == 0)) [
          | inl hit ↦
              let same = (strncmp_iff mem' name (de + 2) 14 bytes').0 (ground arith) in
              (
                some (inum_at mem' de, 16 * k),
                mem',
                turn_hit turns fs dp mem mem' name de (16 * k) there e nz hit,
                (kept, bytes'),
                (
                  k,
                  refl,
                  omega arith,
                  omega arith,
                  inum,
                  nz,
                  sym shown ∙ sym same ∙ kept,
                  λ i l h. absurd (omega arith),
                ),
              )
          | inr miss ↦ (
            r,
            mem'',
            turn_miss turns fs dp mem mem' name de (16 * k) there e nz miss ∙ rest,
            (kp.0 ∙ kept, kp.1),
            Answer-next file nm k n r
                (inr (λ q.
                  let c = (strncmp_iff mem' name (de + 2) 14 bytes').1 (kept ∙ sym q ∙ sym shown) in
                  ground arith))
                a',
          )
        ]
      ]
