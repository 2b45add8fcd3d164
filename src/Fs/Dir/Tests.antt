-- ===== src/Fs/Dir/Tests.antt =====
-- A directory of two entries, searched and added to.
use os_project2_test.Prelude.{
  ◌*◌, max, Option, ℕ, zero, suc, ◌+◌, ◌/◌, ◌%◌, ◌^◌, ◌≡◌, ◌<◌, refl, true, some, List, [], ◌==◌,
  if◌then◌else◌, arith, Bool-cases, inl, inr,
}
use os_project2_test.Fs.{Inode, Fs}
use os_project2_test.Fs.Bitmap.{is_set}
use os_project2_test.Fs.Bitmap.Count.{free_count}
use os_project2_test.Fs.Map.Owned.{block_of, IsOwned}
use os_project2_test.Fs.Content.{Mem}
use os_project2_test.Fs.Content.Read.{content}
use os_project2_test.Text.Strings.{text}
use os_project2_test.Fs.Dir.{dirlookup, dirlink}
use os_project2_test.Fs.Dir.Link.{Linked, dirlink_lem}
use os_project2_test.Fs.Content.Only.{Only-IsOwned}
use os_project2_test.Fs.Dir.Entry.{Misses, IsDir}
use os_project2_test.Fs.Dir.Answer.{Outcome, dirlookup_lem}
use os_project2_test.Fs.Tests.{sb, file, cache, no_device, inodes, file-IsOwned, inodes_unique}

-- A directory of two entries, `a` for inode 5 and `b` for inode 7.
abbrev dir : Inode
dir = record file { type = 1; size = 32 }

abbrev dir_fs : Fs
dir_fs = record {
  cache = λ b i.
      if b == 11
      then if i == 0
        then 5
        else if i == 2
        then 97
        else if i == 16
        then 7
        else if i == 18
        then 98
        else 0
      else cache b i;
  logged = [];
}

dir_bytes : (b i : ℕ) → dir_fs.cache b i < 2 ^ 8
dir_bytes b i = ground arith

dir-IsDir : IsDir dir_fs dir 2
dir-IsDir = record {
  type = refl;
  entries = refl;
  fit = omega arith;
  filled = λ p h. let first : p / 512 ≡ 0 = omega arith in rw first refl;
  bytes = λ p. elim (Bool-cases (block_of dir_fs.cache dir (p / 512) == 0)) [
    | inl z ↦ rw z (omega arith)
    | inr nz ↦ rw nz (dir_bytes (block_of dir_fs.cache dir (p / 512)) (p % 512))
  ];
}

-- The name `b`, at 500.
abbrev name_mem : Mem
name_mem a = if a == 500 then 98 else 0

dirlookup_lem_example :
    (r : Option (ℕ × ℕ)) × (table' : List Inode) × (mem' : Mem) × (dirlookup sb no_device dir_fs dir
        inodes name_mem 500 600
      ≡ some (r, table', mem', dir_fs, dir))
    × Outcome (content dir_fs.cache dir) (text name_mem 500 14) 2 1 inodes table' r
dirlookup_lem_example =
    dirlookup_lem sb no_device dir_fs dir 2 inodes name_mem 500 600 dir-IsDir (inl (omega arith))
      (λ a. ground arith) inodes_unique (omega arith, (omega arith, tt)) refl

dir-IsOwned : IsOwned sb dir_fs.cache dir
dir-IsOwned =
    let v = file-IsOwned in
    Only-IsOwned sb cache dir_fs.cache dir 11
      (record { same = λ a i h. ground arith; apart = refl; off_map = refl })
      (record {
        laid = v.laid;
        fits = v.fits;
        boot = v.boot;
        small = v.small;
        slots = v.slots;
        top = v.top;
        each = v.each;
        below = v.below;
        differ = v.differ;
      })

dir_free : free_count sb dir_fs.cache 40 ≡ 28
unfolding is_set
dir_free = refl

-- The name `c`, at 500, is none of the two.
abbrev new_name : Mem
new_name a = if a == 500 then 99 else 0

no_c : (j : ℕ) → j < 2 → Misses (content dir_fs.cache dir) (text new_name 500 14) j
unfolding text
no_c zero h = inr (λ e. ground arith)
no_c (suc zero) h = inr (λ e. ground arith)
no_c (suc (suc j)) h = absurd (omega arith)

dirlink_lem_example :
    (fs' : Fs) × (dp' : Inode) × (mem' : Mem) × (k : ℕ) × (dirlink sb no_device dir_fs dir inodes
        new_name 500 600 9
      ≡ some (true, inodes, mem', fs', dp'))
    × (dp'.size ≡ max 32 (16 * k + 16))
    × Linked (content dir_fs.cache dir) (content fs'.cache dp') (text new_name 500 14) 2 9 k
dirlink_lem_example =
    dirlink_lem sb no_device dir_fs dir 2 inodes new_name 500 600 9 dir-IsDir (omega arith)
      (inl (omega arith)) (λ a. ground arith) (omega arith) no_c dir-IsOwned (omega arith)
      (let e = dir_free in omega arith)
