-- ===== src/Fs/Tests.antt =====
-- A file system of 40 blocks: inodes in block 8 and 9, the free map in block 10, and a file of 5 bytes
-- in block 11.
use os_project2_test.Prelude.{
  ℕ, zero, suc, ◌+◌, ◌/◌, ◌%◌, ◌^◌, ◌≡◌, ◌≤◌, ◌<◌, refl, ap, ◌∙◌, Bool, true, false, not, ◌&&◌,
  ◌||◌, some, List, [], ◌∷◌, ◌==◌, ltb, if◌then◌else◌, arith, Bool-cases, inl, inr, All-replicate,
  modify, replicate,
}
use os_project2_test.Fs.{Blocks, Superblock, Inode, Fs}
use os_project2_test.Fs.Bitmap.{is_set, map_block, bfree}
use os_project2_test.Fs.Bitmap.Laws.{marked, IsLaid, bfree_lem}
use os_project2_test.Fs.Bitmap.Count.{free_count}
use os_project2_test.Fs.Map.{bmap, itrunc}
use os_project2_test.Fs.Map.Owned.{block_of, is_owned, IsOwned, Added}
use os_project2_test.Fs.Map.Bmap.{bmap_lem}
use os_project2_test.Fs.Map.Free.{Truncated, has_block}
use os_project2_test.Fs.Map.Stored.{itrunc_lem}
use os_project2_test.Fs.Dinode.{iupdate, load, ilock, ialloc}
use os_project2_test.Fs.Dinode.Laws.{IsDinode, ilock-iupdate}
use os_project2_test.Fs.Dinode.Alloc.{type_of, Allocated, ialloc_lem}
use os_project2_test.Fs.Content.{Mem, moved, readi, writei}
use os_project2_test.Fs.Content.Read.{copied, IsFilled, readi_lem}
use os_project2_test.Fs.Content.Store.{Written, writei_lem}
use os_project2_test.Fs.Content.Back.{readi-writei}
use os_project2_test.Fs.Path.Names.{names, filled, parts, names_lem}
use os_project2_test.Fs.Icache.{iget, iput}
use os_project2_test.Fs.Icache.Refs.{copies, Referenced, iget_lem}
use os_project2_test.Fs.Icache.Last.{iput_last}

-- A test passes below a bound.
check : (ℕ → Bool) → ℕ → Bool
check p zero = true
check p (suc n) = p n && check p n

check-below : (p : ℕ → Bool) (n b : ℕ) → check p n ≡ true → b < n → p b ≡ true
unfolding check
check-below p zero b e h = absurd (omega arith)
check-below p (suc n) b e h = elim (Bool-cases (b == n)) [
  | inl here ↦ let at : b ≡ n = ground arith in ap p at ∙ ground arith
  | inr there ↦ check-below p n b (ground arith) (ground arith)
]

abbrev pub sb : Superblock
sb = record {
  size = 40;
  nblocks = 29;
  ninodes = 16;
  nlog = 6;
  logstart = 2;
  inodestart = 8;
  bmapstart = 10;
}

abbrev pub cache : Blocks
cache b i =
    if b == 10 && i == 0
    then 255
    else if b == 10 && i == 1
    then 15
    else if b == 11 && ltb i 5
    then 97 + i
    else 0

abbrev fs : Fs
fs = record { cache = cache; logged = [] }

abbrev pub file : Inode
file = record {
  dev = 1;
  inum = 3;
  ref = 1;
  valid = true;
  type = 2;
  major = 0;
  minor = 0;
  nlink = 0;
  size = 5;
  addrs = 11 ∷ replicate 12 0;
}

laid : IsLaid sb cache
unfolding is_set check
laid b h = check-below (marked sb cache) 11 b refl (ground arith)

pub file-IsOwned : IsOwned sb cache file
unfolding is_set check
file-IsOwned = record {
  laid = laid;
  fits = omega arith;
  boot = refl;
  small = omega arith;
  slots = refl;
  top = refl;
  each = λ b h. check-below (λ b. is_owned sb cache (block_of cache file b)) 140 b refl h;
  below = λ b h.
      check-below (λ b. block_of cache file b == 0 || not (block_of cache file b == 0)) 140 b refl
        h;
  differ = λ a b h k.
      let outer =
        check-below
          (λ a.
            block_of cache file a == 0
            || check (λ b. a == b || not (block_of cache file a == block_of cache file b)) 140)
          140 a refl h in
      elim (Bool-cases (block_of cache file a == 0)) [
        | inl z ↦ ground arith
        | inr nz ↦
            let inner =
              check-below (λ b. a == b || not (block_of cache file a == block_of cache file b)) 140
                b (ground arith) k in
            ground arith
      ];
}

free_blocks : free_count sb cache 40 ≡ 28
unfolding is_set
free_blocks = refl

bfree_lem_example :
    (fs' : Fs) × (bfree sb fs 11 ≡ some fs')
    × (marked sb fs'.cache 7 ≡ (not (11 == 7) && marked sb cache 7))
    × (fs'.logged ≡ map_block sb 11 ∷ [])
unfolding is_set
bfree_lem_example = bfree_lem sb fs 11 7 refl

-- Block 20 is behind the indirect block, which is not there yet.
bmap_lem_example :
    (x : ℕ) × (fs' : Fs) × (ip' : Inode) × (bmap sb fs file 20 ≡ some (x, fs', ip'))
    × Added sb cache fs'.cache file ip' 20 x
bmap_lem_example =
    bmap_lem sb fs file 20 file-IsOwned (omega arith) (let e = free_blocks in omega arith)

file-IsDinode : IsDinode file
file-IsDinode = record {
  type = omega arith;
  major = omega arith;
  minor = omega arith;
  nlink = omega arith;
  size = omega arith;
  slots = refl;
  small = (omega arith, All-replicate (λ w. w < 2 ^ 32) 12 0 (omega arith));
}

itrunc_lem_example :
    (fs' : Fs) × (ip' : Inode) × (itrunc sb fs file ≡ some (fs', ip'))
    × Truncated sb cache fs'.cache file ip'
    × (load sb fs' ip' ≡ ip')
itrunc_lem_example = itrunc_lem sb fs file file-IsOwned file-IsDinode (omega arith)

abbrev stale : Inode
stale = record file { valid = false; type = 9; size = 77; addrs = [] }

ilock-iupdate_example :
    (ilock sb (iupdate sb fs file) stale ≡ some file)
    × (ilock sb (iupdate sb fs file) (record stale { inum = 4 })
        ≡ ilock sb fs (record stale { inum = 4 }))
ilock-iupdate_example =
    ilock-iupdate sb fs file stale (record stale { inum = 4 }) file-IsDinode refl refl refl refl
      refl

ialloc_lem_example :
    (inum : ℕ) × (fs' : Fs) × (ialloc sb fs 2 ≡ some (inum, fs')) × Allocated sb fs fs' inum 2
ialloc_lem_example = ialloc_lem sb fs 2 5 (omega arith) (omega arith) (omega arith) refl

abbrev pub no_device : ℕ → Bool
no_device n = false

abbrev source : Mem
source a = a % 256

file-IsFilled : IsFilled cache file 5
file-IsFilled p h = let first : p / 512 ≡ 0 = omega arith in rw first refl

readi_lem_example :
    (mem' : Mem) × (readi sb no_device fs file source 100 2 10 ≡ some (moved 3, mem', fs, file))
    × ((a : ℕ) → mem' a ≡ copied sb cache file source 100 2 3 a)
readi_lem_example =
    readi_lem sb no_device fs file source 100 2 10 refl (omega arith) (omega arith) (omega arith)
      file-IsFilled

writei_lem_example :
    (fs' : Fs) × (ip' : Inode) × (writei sb no_device fs file source 100 3 600
      ≡ some (moved 600, fs', ip'))
    × Written sb fs fs' file ip' source 100 3 600
writei_lem_example =
    writei_lem sb no_device fs file source 100 3 600 refl (omega arith) (omega arith) (omega arith)
      (omega arith) file-IsOwned file-IsFilled (omega arith) (let e = free_blocks in omega arith)

readi-writei_example :
    (fs' : Fs) × (ip' : Inode) × (mem'' : Mem) × (writei sb no_device fs file source 100 3 600
      ≡ some (moved 600, fs', ip'))
    × (readi sb no_device fs' ip' source 1000 3 600 ≡ some (moved 600, mem'', fs', ip'))
    × ((k : ℕ) → k < 600 → mem'' (1000 + k) ≡ source (100 + k))
readi-writei_example =
    readi-writei sb no_device fs file source source 100 1000 3 600 refl (omega arith) (omega arith)
      (omega arith) (omega arith) file-IsOwned file-IsFilled (omega arith)
      (let e = free_blocks in omega arith)

-- `//a/b/`
names_lem_example :
    names 6 (47 ∷ 47 ∷ 97 ∷ 47 ∷ 98 ∷ 47 ∷ []) ≡ filled (parts (47 ∷ 47 ∷ 97 ∷ 47 ∷ 98 ∷ 47 ∷ []))
names_lem_example = names_lem 6 (47 ∷ 47 ∷ 97 ∷ 47 ∷ 98 ∷ 47 ∷ []) (omega arith)

two_names : filled (parts (47 ∷ 47 ∷ 97 ∷ 47 ∷ 98 ∷ 47 ∷ [])) ≡ (97 ∷ []) ∷ (98 ∷ []) ∷ []
two_names = refl

abbrev pub inodes : List Inode
inodes = file ∷ record file { ref = 0 } ∷ []

pub inodes_unique : (d n : ℕ) → copies d n inodes ≤ 1
inodes_unique d n = ground arith

iget_lem_example :
    (i : ℕ) × (table' : List Inode) × (iget 1 7 inodes ≡ some (i, table'))
    × Referenced 1 7 inodes table' i
iget_lem_example = iget_lem 1 7 inodes inodes_unique (omega arith, (omega arith, tt)) refl

iput_last_example :
    (fs' : Fs) × (ip' : Inode) × (iput sb fs inodes 0 ≡ some (fs', modify 0 (λ _. ip') inodes))
    × (ip'.ref ≡ 0)
    × (type_of sb fs' 3 ≡ 0)
    × ((a : ℕ) → marked sb fs'.cache a ≡ (marked sb cache a && not (has_block cache file a)))
iput_last_example =
    iput_last sb fs inodes 0 file refl refl file-IsOwned (omega arith) (omega arith) (omega arith)
