-- ===== src/Fs/Dir/Answer.antt =====
-- dirlookup as a whole, with the reference that iget counts.
use os_project2_test.Prelude.{
  ℕ, ◌+◌, ◌-◌, ◌*◌, ◌/◌, ◌^◌, ◌≡◌, ◌≤◌, ◌<◌, refl, subst, Bool, true, false, Option, none, some,
  List, ◌==◌, arith, All,
}
use os_project2_test.Text.Strings.{text, IsBytes}
use os_project2_test.Fs.{Superblock, Inode, Fs}
use os_project2_test.Fs.Content.{Mem}
use os_project2_test.Fs.Content.Read.{content}
use os_project2_test.Fs.Icache.{iget}
use os_project2_test.Fs.Icache.Refs.{copies, free, Referenced, iget_lem}
use os_project2_test.Fs.Dir.{find_name, dirlookup}
use os_project2_test.Fs.Dir.Entry.{entry_inum, entry_name, Misses, Answer, IsDir, IsApart}
use os_project2_test.Fs.Dir.Lookup.{find_name_lem}

-- What `dirlookup` gives for a directory of `n` entries.
abbrev pub Outcome : Mem → List ℕ → ℕ → ℕ → List Inode → List Inode → Option (ℕ × ℕ) → Type 0
Outcome file name n dev table table' none =
    (table' ≡ table) × ((j : ℕ) → j < n → Misses file name j)
Outcome file name n dev table table' (some (i, off)) =
    (j : ℕ) × (off ≡ 16 * j)
    × (j < n)
    × (entry_name file j ≡ name)
    × ((entry_inum file j == 0) ≡ false)
    × ((k : ℕ) → k < j → Misses file name k)
    × Referenced dev (entry_inum file j) table table' i

module _ (sb : Superblock) (has : ℕ → Bool) where
  pub lookup-none :
      (fs : Fs) (dp : Inode) (table : List Inode) (mem mem' : Mem) (name de : ℕ)
      → (dp.type == 1) ≡ true
      → find_name sb has (dp.size / 16 + 1) fs dp mem name de 0 ≡ some (none, mem', fs, dp)
      → dirlookup sb has fs dp table mem name de ≡ some (none, table, mem', fs, dp)
  unfolding dirlookup
  lookup-none fs dp table mem mem' name de t e = rw (t, dirlookup, e) refl

  lookup-some :
      (fs : Fs) (dp : Inode) (table table' : List Inode) (mem mem' : Mem) (name de inum off i : ℕ)
      → (dp.type == 1) ≡ true
      → find_name sb has (dp.size / 16 + 1) fs dp mem name de 0
        ≡ some (some (inum, off), mem', fs, dp)
      → iget dp.dev inum table ≡ some (i, table')
      → dirlookup sb has fs dp table mem name de ≡ some (some (i, off), table', mem', fs, dp)
  unfolding dirlookup
  lookup-some fs dp table table' mem mem' name de inum off i t e g = rw (t, dirlookup, e, g) refl

-- For a directory of n entries, of at most 71680 bytes and with its blocks there, a memory and
-- blocks of bytes, a name that does not lie where entries are read to, and a table of inodes
-- that holds each inode at most once, with counts below 2^31 - 1 and a free entry: `dirlookup`
-- does not panic; it gives no entry and leaves the table alone, if every directory entry is
-- unused or has another name, and else the offset of the first that is in use and has the name,
-- with one reference more to its inode and no others.
pub dirlookup_lem :
    (sb : Superblock) (has : ℕ → Bool) (fs : Fs) (dp : Inode) (n : ℕ) (table : List Inode)
    (mem : Mem) (name de : ℕ)
    → IsDir fs dp n
    → IsApart name de
    → IsBytes mem
    → ((d k : ℕ) → copies d k table ≤ 1)
    → All (λ (ip : Inode). ip.ref < 2 ^ 31 - 1) table
    → (free table == 0) ≡ false
    → (r : Option (ℕ × ℕ)) × (table' : List Inode) × (mem' : Mem) × (dirlookup sb has fs dp table
          mem name de
        ≡ some (r, table', mem', fs, dp))
      × Outcome (content fs.cache dp) (text mem name 14) n dp.dev table table' r
dirlookup_lem sb has fs dp n table mem name de d apart bytes unique small room =
    let s = d.entries in
    let (r, mem', e, _, a) =
      find_name_lem sb has fs dp n (dp.size / 16 + 1) 0 n mem name de d (omega arith) (omega arith)
        apart bytes in
    answer r mem' e a
  where
    answer :
        (r : Option (ℕ × ℕ)) (mem' : Mem)
        → find_name sb has (dp.size / 16 + 1) fs dp mem name de 0 ≡ some (r, mem', fs, dp)
        → Answer (content fs.cache dp) (text mem name 14) 0 n r
        → (r : Option (ℕ × ℕ)) × (table' : List Inode) × (mem' : Mem) × (dirlookup sb has fs dp
              table mem name de
            ≡ some (r, table', mem', fs, dp))
          × Outcome (content fs.cache dp) (text mem name 14) n dp.dev table table' r
    answer none mem' e a = (
      none,
      table,
      mem',
      lookup-none sb has fs dp table mem mem' name de (let t = d.type in ground arith) e,
      (refl, λ j h. a j (omega arith) (omega arith)),
    )
    answer (some (inum, off)) mem' e (j, at, l, h, same, z, shown, before) =
        let (i, table', g, t) = iget_lem dp.dev inum table unique small (ground arith) in
        (
          some (i, off),
          table',
          mem',
          lookup-some sb has fs dp table table' mem mem' name de inum off i
              (let t = d.type in ground arith) e g,
          (
            j,
            at,
            omega arith,
            shown,
            subst (λ m. (m == 0) ≡ false) same z,
            (λ k q. before k (omega arith) q),
            subst (λ m. Referenced dp.dev m table table' i) same t,
          ),
        )
