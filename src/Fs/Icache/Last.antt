-- ===== src/Fs/Icache/Last.antt =====
-- What iput does with the last reference to an inode without links.
use os_project2_test.Prelude.{
  ℕ, ◌^◌, ◌≡◌, ◌<◌, refl, ap, ◌∙◌, subst, true, false, not, ◌&&◌, some, List, ◌==◌, get_elem?,
  modify, arith,
}
use os_project2_test.Fs.{Superblock, Inode, Fs}
use os_project2_test.Fs.Bitmap.Laws.{marked}
use os_project2_test.Fs.Map.{itrunc}
use os_project2_test.Fs.Map.Owned.{IsOwned}
use os_project2_test.Fs.Map.Free.{has_block}
use os_project2_test.Fs.Map.Stored.{All-zero, marked-iupdate, itrunc-Truncated}
use os_project2_test.Fs.Dinode.{iupdate, inode_block}
use os_project2_test.Fs.Dinode.Laws.{IsDinode, load-same}
use os_project2_test.Fs.Dinode.Alloc.{type_of, type_of-load}
use os_project2_test.Fs.Icache.{fewer, iput}

abbrev pub freed : Inode → Inode
freed ip = record ip { type = 0 }

module _ (sb : Superblock) where
  iput-some :
      (fs fs' : Fs) (table : List Inode) (i : ℕ) (ip ip' : Inode)
      → get_elem? table i ≡ some ip
      → (ip.valid && ip.nlink == 0 && ip.ref == 1) ≡ true
      → itrunc sb fs ip ≡ some (fs', ip')
      → iput sb fs table i
        ≡ some (
          iupdate sb fs' (freed ip'),
          modify i (λ _. fewer (record (freed ip') { valid = false })) table,
        )
  unfolding iput
  iput-some fs fs' table i ip ip' at last e = rw (at, iput, last, e) refl

-- For the last reference to a valid inode without links, whose blocks are its own, whose place
-- on disk is before the free map and whose device numbers have 16 bits, `iput` frees exactly the
-- inode's blocks, leaves type 0 on disk, so that `ialloc` may take it, and leaves the entry
-- without references.
pub iput_last :
    (sb : Superblock) (fs : Fs) (table : List Inode) (i : ℕ) (ip : Inode)
    → get_elem? table i ≡ some ip
    → (ip.valid && ip.nlink == 0 && ip.ref == 1) ≡ true
    → IsOwned sb fs.cache ip
    → inode_block sb ip.inum < sb.bmapstart
    → ip.major < 2 ^ 16
    → ip.minor < 2 ^ 16
    → (fs' : Fs) × (ip' : Inode) × (iput sb fs table i ≡ some (fs', modify i (λ _. ip') table))
      × (ip'.ref ≡ 0)
      × (type_of sb fs' ip.inum ≡ 0)
      × ((a : ℕ) → marked sb fs'.cache a ≡ (marked sb fs.cache a && not (has_block fs.cache ip a)))
iput_last sb fs table i ip at last v low major minor =
    let (fs', ip', e, t) = itrunc-Truncated sb fs ip v low in
    let inum : ip'.inum ≡ ip.inum = ap (λ (q : Inode). q.inum) t.others in
    let maj : ip'.major ≡ ip.major = ap (λ (q : Inode). q.major) t.others in
    let min : ip'.minor ≡ ip.minor = ap (λ (q : Inode). q.minor) t.others in
    let link : ip'.nlink ≡ ip.nlink = ap (λ (q : Inode). q.nlink) t.others in
    let ref : ip'.ref ≡ ip.ref = ap (λ (q : Inode). q.ref) t.others in
    let size : ip'.size ≡ 0 = ap (λ (q : Inode). q.size) t.others in
    let links : ip.nlink ≡ 0 = ground arith in
    let one : ip.ref ≡ 1 = ground arith in
    let d : IsDinode (freed ip') = record {
      type = omega arith;
      major = omega arith;
      minor = omega arith;
      nlink = omega arith;
      size = omega arith;
      slots = t.slots;
      small = All-zero ip'.addrs t.empty;
    } in
    (
      iupdate sb fs' (freed ip'),
      fewer (record (freed ip') { valid = false }),
      iput-some sb fs fs' table i ip ip' at last e,
      omega arith,
      subst (λ n. type_of sb (iupdate sb fs' (freed ip')) n ≡ 0) inum
          (type_of-load sb (iupdate sb fs' (freed ip')) (freed ip')
            ∙ ap (λ (q : Inode). q.type) (load-same sb fs' (freed ip') (freed ip') d refl)),
      λ a. marked-iupdate sb fs' (freed ip') a (rw inum low) ∙ t.marks a,
    )
