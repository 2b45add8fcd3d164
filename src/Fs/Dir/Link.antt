-- ===== src/Fs/Dir/Link.antt =====
-- dirlink puts a name into the first entry that is not in use, or behind the last one.
use os_project2_test.Prelude.{
  ℕ, ◌+◌, ◌-◌, ◌*◌, ◌/◌, ◌%◌, ◌^◌, ◌≡◌, ◌≤◌, ◌<◌, refl, ap, ap₂, ◌∙◌, subst, Bool, true, false,
  ◌&&◌, ◌⊎◌, inl, inr, Option, none, some, List, ◌==◌, ltb, leb, if◌then◌else◌, arith, max,
}
use os_project2_test.Text.{strncpy}
use os_project2_test.Text.Strings.{text, IsBytes}
use os_project2_test.Text.Copy.{text-strncpy}
use os_project2_test.Fs.{Superblock, Inode, Fs}
use os_project2_test.Fs.Bitmap.Count.{free_count}
use os_project2_test.Fs.Map.Owned.{IsOwned}
use os_project2_test.Fs.Dinode.{inode_block}
use os_project2_test.Fs.Content.{Mem, moved, writei}
use os_project2_test.Fs.Content.Read.{content}
use os_project2_test.Fs.Content.Store.{span, writei_lem}
use os_project2_test.Fs.Dir.{inum_at, find_name, find_empty, fill_entry, dirlookup, dirlink}
use os_project2_test.Fs.Dir.Entry.{
  text_shift, entry_inum, entry_name, Misses, IsDir, IsApart, Kept, Answer,
}
use os_project2_test.Fs.Dir.Lookup.{find_name_lem}
use os_project2_test.Fs.Dir.Answer.{lookup-none}
use os_project2_test.Fs.Dir.Empty.{find_empty_lem}

-- The entry that is written.
module _ (mem : Mem) (name de inum : ℕ) (small : inum < 2 ^ 16) (apart : IsApart name de) where
  abbrev entry : Mem
  entry = fill_entry mem name de inum

  filled_inum : inum_at entry de ≡ inum
  filled_inum =
      let low : entry de ≡ inum % 2 ^ 8 = ground arith in
      let high : entry (de + 1) ≡ inum / 2 ^ 8 % 2 ^ 8 = ground arith in omega arith

  filled_name : text entry (de + 2) 14 ≡ text mem name 14
  filled_name =
      text_shift entry (strncpy mem (de + 2) name 14) (de + 2) (de + 2) 14 (λ i l. ground arith)
      ∙ text-strncpy mem (de + 2) name 14
          (elim apart [ inl h ↦ inr (omega arith) | inr h ↦ inl (omega arith) ])

-- Entry `k`, which was not in use or lay behind the last of `n`, has the name and the number; all others
-- are as before.
pub record Linked (file file' : Mem) (name : List ℕ) (n inum k : ℕ) : Type 0 where
  pub place : (k ≡ n) ⊎ (entry_inum file k ≡ 0)
  pub number : entry_inum file' k ≡ inum
  pub shown : entry_name file' k ≡ name
  pub rest :
      (j : ℕ)
      → j < 4480
      → (j == k) ≡ false
      → (entry_inum file' j ≡ entry_inum file j) × (entry_name file' j ≡ entry_name file j)

module _ (file file' mem : Mem) (name de n inum k : ℕ) (small : inum < 2 ^ 16)
    (apart : IsApart name de) (low : k < 4480)
    (bytes : (p : ℕ)
      → p < 140 * 512
      → file' p ≡ (
          if leb (16 * k) p && ltb p (16 * k + 16)
          then fill_entry mem name de inum (de + (p - 16 * k))
          else file p)) where
  stored_byte : (i : ℕ) → i < 16 → file' (16 * k + i) ≡ fill_entry mem name de inum (de + i)
  stored_byte i h =
      let inside : (leb (16 * k) (16 * k + i) && ltb (16 * k + i) (16 * k + 16)) ≡ true =
        ground arith in
      let at : de + (16 * k + i - 16 * k) ≡ de + i = omega arith in
      bytes (16 * k + i) (omega arith) ∙ rw inside (ap (fill_entry mem name de inum) at)

  other_byte :
      (p : ℕ) → p < 140 * 512 → (leb (16 * k) p && ltb p (16 * k + 16)) ≡ false → file' p ≡ file p
  other_byte p h out = bytes p h ∙ rw out refl

  entry-Linked : (k ≡ n) ⊎ (entry_inum file k ≡ 0) → Linked file file' (text mem name 14) n inum k
  entry-Linked place = record {
    place = place;
    number =
        let first : file' (16 * k) ≡ fill_entry mem name de inum de =
          ap file' (let e : 16 * k ≡ 16 * k + 0 = omega arith in e)
          ∙ stored_byte 0 (omega arith)
          ∙ ap (fill_entry mem name de inum) (let e : de + 0 ≡ de = omega arith in e) in
        ap₂ (λ a b. a + b * 2 ^ 8) first (stored_byte 1 (omega arith))
        ∙ filled_inum mem name de inum small apart;
    shown =
        text_shift file' (fill_entry mem name de inum) (16 * k + 2) (de + 2) 14 (λ i l.
          ap file' (let e : 16 * k + 2 + i ≡ 16 * k + (2 + i) = omega arith in e)
          ∙ stored_byte (2 + i) (omega arith)
          ∙ ap (fill_entry mem name de inum) (let e : de + (2 + i) ≡ de + 2 + i = omega arith in e))
        ∙ filled_name mem name de inum small apart;
    rest = λ j h d. (
      ap₂ (λ a b. a + b * 2 ^ 8) (other_byte (16 * j) (omega arith) (ground arith))
          (other_byte (16 * j + 1) (omega arith) (ground arith)),
      text_shift file' file (16 * j + 2) (16 * j + 2) 14
          (λ i l. other_byte (16 * j + 2 + i) (omega arith) (ground arith)),
    );
  }

module _ (sb : Superblock) (has : ℕ → Bool) where
  dirlink-some :
      (fs fs' : Fs) (dp dp' : Inode) (table : List Inode) (mem mem' mem'' : Mem)
      (name de inum off : ℕ)
      → dirlookup sb has fs dp table mem name de ≡ some (none, table, mem', fs, dp)
      → find_empty sb has (dp.size / 16 + 1) fs dp mem' de 0 ≡ some (off, mem'', fs, dp)
      → writei sb has fs dp (fill_entry mem'' name de inum) de off 16 ≡ some (moved 16, fs', dp')
      → dirlink sb has fs dp table mem name de inum
        ≡ some (true, table, fill_entry mem'' name de inum, fs', dp')
  unfolding dirlink
  dirlink-some fs fs' dp dp' table mem mem' mem'' name de inum off e f g =
      rw (dirlink, e, f, g) refl

  find_name-none :
      (fs : Fs) (dp : Inode) (n : ℕ) (mem : Mem) (name de : ℕ)
      → IsDir fs dp n
      → IsApart name de
      → IsBytes mem
      → ((j : ℕ) → j < n → Misses (content fs.cache dp) (text mem name 14) j)
      → (mem' : Mem) × (find_name sb has (dp.size / 16 + 1) fs dp mem name de 0
          ≡ some (none, mem', fs, dp))
        × Kept mem mem' name
  find_name-none fs dp n mem name de d apart bytes absent =
      let s = d.entries in
      let (r, mem', e, kp, a) =
        find_name_lem sb has fs dp n (dp.size / 16 + 1) 0 n mem name de d (omega arith)
          (omega arith) apart bytes in
      by_answer r mem' e kp a
    where
      by_answer :
          (r : Option (ℕ × ℕ)) (mem' : Mem)
          → find_name sb has (dp.size / 16 + 1) fs dp mem name de 0 ≡ some (r, mem', fs, dp)
          → Kept mem mem' name
          → Answer (content fs.cache dp) (text mem name 14) 0 n r
          → (mem' : Mem) × (find_name sb has (dp.size / 16 + 1) fs dp mem name de 0
              ≡ some (none, mem', fs, dp))
            × Kept mem mem' name
      by_answer none mem' e kp a = (mem', e, kp)
      by_answer (some (inum, off)) mem' e kp (j, at, l, h, same, z, shown, before) =
          elim (absent j (omega arith)) [
            | inl unused ↦ absurd (ground arith)
            | inr other ↦ absurd (other shown)
          ]

-- For a directory of n entries, n below 4480, whose blocks are its own and there and whose
-- inode's block is before the free map, none of whose entries in use has the name, a memory and
-- blocks of bytes, a name that does not lie where entries are read to, a 16-bit number, and two
-- free blocks: `dirlink` returns 0 and the table of inodes as it was; an entry that was not in
-- use, or the one behind the last, has the name and the number afterwards, all other entries are
-- as before, and the directory ends behind its last entry or the new one.
pub dirlink_lem :
    (sb : Superblock) (has : ℕ → Bool) (fs : Fs) (dp : Inode) (n : ℕ) (table : List Inode)
    (mem : Mem) (name de inum : ℕ)
    → IsDir fs dp n
    → n < 4480
    → IsApart name de
    → IsBytes mem
    → inum < 2 ^ 16
    → ((j : ℕ) → j < n → Misses (content fs.cache dp) (text mem name 14) j)
    → IsOwned sb fs.cache dp
    → inode_block sb dp.inum < sb.bmapstart
    → 2 ≤ free_count sb fs.cache sb.size
    → (fs' : Fs) × (dp' : Inode) × (mem' : Mem) × (k : ℕ) × (dirlink sb has fs dp table mem name de
          inum
        ≡ some (true, table, mem', fs', dp'))
      × (dp'.size ≡ max dp.size (16 * k + 16))
      × Linked (content fs.cache dp) (content fs'.cache dp') (text mem name 14) n inum k
dirlink_lem sb has fs dp n table mem name de inum d range apart bytes small absent v low two =
    let s = d.entries in
    let t = d.type in
    let dir : (dp.type == 1) ≡ true = ground arith in
    let (mem', e, kp) = find_name-none sb has fs dp n mem name de d apart bytes absent in
    let (k, mem'', f, kp', le, unused) =
      find_empty_lem sb has fs dp n (dp.size / 16 + 1) 0 n mem' name de d (omega arith)
        (omega arith) apart kp.1 in
    let (fs', dp', g, w) =
      writei_lem sb has fs dp (fill_entry mem'' name de inum) de (16 * k) 16 (ground arith)
        (omega arith) (omega arith) (omega arith) d.fit v d.filled low
        (let one : span (16 * k) 16 ≡ 1 = ground arith in omega arith) in
    let l =
      entry-Linked (content fs.cache dp) (content fs'.cache dp') mem'' name de n inum k small apart
        (omega arith) w.bytes unused in
    (
      fs',
      dp',
      fill_entry mem'' name de inum,
      k,
      dirlink-some sb has fs fs' dp dp' table mem mem' mem'' name de inum (16 * k)
          (lookup-none sb has fs dp table mem mem' name de dir e) f g,
      w.size,
      subst (λ ns. Linked (content fs.cache dp) (content fs'.cache dp') ns n inum k) (kp'.0 ∙ kp.0)
          l,
    )
