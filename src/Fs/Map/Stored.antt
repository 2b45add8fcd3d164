-- ===== src/Fs/Map/Stored.antt =====
-- itrunc as a whole: the blocks are given back and the inode is written to the disk.
use os_project2_test.Prelude.{
  ℕ, suc, ◌^◌, ◌≡◌, ◌<◌, refl, ap, ◌∙◌, some, List, [], ◌∷◌, get_or, arith, All,
}
use os_project2_test.Fs.{Superblock, Inode, Fs}
use os_project2_test.Fs.Bitmap.{is_set, map_block, map_byte, map_bit}
use os_project2_test.Fs.Bitmap.Laws.{marked}
use os_project2_test.Fs.Map.{free_slots, free_indirect, itrunc}
use os_project2_test.Fs.Map.Owned.{IsOwned}
use os_project2_test.Fs.Map.Free.{Truncated, free_blocks_lem}
use os_project2_test.Fs.Dinode.{iupdate, inode_block, load}
use os_project2_test.Fs.Dinode.Laws.{IsDinode, load-same, iupdate-other}

pub All-zero : (xs : List ℕ) → ((k : ℕ) → get_or xs k 0 ≡ 0) → All (λ w. w < 2 ^ 32) xs
All-zero [] h = tt
All-zero (x ∷ xs) h = (let z = h 0 in omega arith, All-zero xs (λ k. h (suc k)))

module _ (sb : Superblock) where
  pub marked-iupdate :
      (fs : Fs) (ip : Inode) (a : ℕ)
      → inode_block sb ip.inum < sb.bmapstart
      → marked sb (iupdate sb fs ip).cache a ≡ marked sb fs.cache a
  marked-iupdate fs ip a low =
      ap (λ byte. is_set byte (map_bit a))
        (iupdate-other sb fs ip (map_block sb a) (map_byte a) (ground arith))

  -- The inode's own block is no data block.
  Truncated-iupdate :
      (fs fs' : Fs) (ip ip' : Inode)
      → inode_block sb ip.inum < sb.bmapstart
      → Truncated sb fs.cache fs'.cache ip ip'
      → Truncated sb fs.cache (iupdate sb fs' ip').cache ip ip'
  Truncated-iupdate fs fs' ip ip' low t =
      let inum : ip'.inum ≡ ip.inum = ap (λ (q : Inode). q.inum) t.others in
      record {
        marks = λ a. marked-iupdate fs' ip' a (rw inum low) ∙ t.marks a;
        same = λ a j h. iupdate-other sb fs' ip' a j (let q = low in ground arith) ∙ t.same a j h;
        slots = t.slots;
        empty = t.empty;
        others = t.others;
      }

  itrunc-some :
      (fs fs' fs'' : Fs) (ip ip' ip'' : Inode)
      → free_slots sb 12 0 fs ip ≡ some (fs', ip')
      → free_indirect sb fs' ip' ≡ some (fs'', ip'')
      → itrunc sb fs ip
        ≡ some (iupdate sb fs'' (record ip'' { size = 0 }), record ip'' { size = 0 })
  unfolding itrunc
  itrunc-some fs fs' fs'' ip ip' ip'' e f = rw (e, f, itrunc) refl

  -- What is on the disk for the inode is what it is in memory.
  stored :
      (fs fs' : Fs) (ip ip' : Inode)
      → IsDinode ip
      → Truncated sb fs.cache fs'.cache ip ip'
      → load sb (iupdate sb fs' ip') ip' ≡ ip'
  stored fs fs' ip ip' d t =
      let maj : ip'.major ≡ ip.major = ap (λ (q : Inode). q.major) t.others in
      let min : ip'.minor ≡ ip.minor = ap (λ (q : Inode). q.minor) t.others in
      let link : ip'.nlink ≡ ip.nlink = ap (λ (q : Inode). q.nlink) t.others in
      let type : ip'.type ≡ ip.type = ap (λ (q : Inode). q.type) t.others in
      let size : ip'.size ≡ 0 = ap (λ (q : Inode). q.size) t.others in
      load-same sb fs' ip' ip'
        (record {
          type = let h = d.type in omega arith;
          major = let h = d.major in omega arith;
          minor = let h = d.minor in omega arith;
          nlink = let h = d.nlink in omega arith;
          size = omega arith;
          slots = t.slots;
          small = All-zero ip'.addrs t.empty;
        })
        refl

pub itrunc-Truncated :
    (sb : Superblock) (fs : Fs) (ip : Inode)
    → IsOwned sb fs.cache ip
    → inode_block sb ip.inum < sb.bmapstart
    → (fs' : Fs) × (ip' : Inode) × (itrunc sb fs ip ≡ some (fs', ip'))
      × Truncated sb fs.cache fs'.cache ip ip'
itrunc-Truncated sb fs ip v low =
    let (fs', ip', fs'', ip'', e, f, t) = free_blocks_lem sb fs ip v in
    (
      iupdate sb fs'' (record ip'' { size = 0 }),
      record ip'' { size = 0 },
      itrunc-some sb fs fs' fs'' ip ip' ip'' e f,
      Truncated-iupdate sb fs fs'' ip (record ip'' { size = 0 }) low t,
    )

-- For an inode whose blocks are its own, whose fields fit their places on disk and whose own
-- block is before the free map, `itrunc` does not panic; it clears the marks of exactly the
-- inode's blocks and its indirect block in the free map, leaves no address and the size 0,
-- changes no data block and no other field, and what the disk holds of the inode afterwards is
-- what is in memory.
pub itrunc_lem :
    (sb : Superblock) (fs : Fs) (ip : Inode)
    → IsOwned sb fs.cache ip
    → IsDinode ip
    → inode_block sb ip.inum < sb.bmapstart
    → (fs' : Fs) × (ip' : Inode) × (itrunc sb fs ip ≡ some (fs', ip'))
      × Truncated sb fs.cache fs'.cache ip ip'
      × (load sb fs' ip' ≡ ip')
itrunc_lem sb fs ip v d low =
    let (fs', ip', fs'', ip'', e, f, t) = free_blocks_lem sb fs ip v in
    (
      iupdate sb fs'' (record ip'' { size = 0 }),
      record ip'' { size = 0 },
      itrunc-some sb fs fs' fs'' ip ip' ip'' e f,
      Truncated-iupdate sb fs fs'' ip (record ip'' { size = 0 }) low t,
      stored sb fs fs'' ip (record ip'' { size = 0 }) d t,
    )
