-- ===== src/Fs/Content/Back.antt =====
-- What writei has stored, readi gives back.
use os_project2_test.Prelude.{
  ℕ, ◌+◌, ◌*◌, ◌-◌, ◌≡◌, ◌≤◌, ◌<◌, refl, ap, ◌∙◌, Bool, true, false, ◌&&◌, some, ◌==◌, ltb, leb,
  arith, min,
}
use os_project2_test.Fs.{Superblock, Inode, Fs}
use os_project2_test.Fs.Bitmap.Count.{free_count}
use os_project2_test.Fs.Map.Owned.{IsOwned}
use os_project2_test.Fs.Dinode.{inode_block}
use os_project2_test.Fs.Content.{Mem, moved, readi, writei}
use os_project2_test.Fs.Content.Read.{IsFilled, readi_lem}
use os_project2_test.Fs.Content.Store.{span, writei_lem}

-- For a write of at most 1536 bytes, the most that filewrite makes in one transaction, where
-- `log_write` has room for its blocks (its panics are not in this model), to a file of at most
-- 71680 bytes that is not a device, with its blocks its own, those of its bytes there and its
-- inode's block before the free map, an offset not behind its end, an end of the write within
-- 71680 bytes and two free blocks for each block of the write: `writei` stores the n bytes, and
-- `readi` at that offset then gives n bytes, which are those written.
pub readi-writei :
    (sb : Superblock) (has : ℕ → Bool) (fs : Fs) (ip : Inode) (mem mem' : Mem) (src dst off n : ℕ)
    → (ip.type == 3) ≡ false
    → off ≤ ip.size
    → n ≤ 3 * 512
    → off + n ≤ 140 * 512
    → ip.size ≤ 140 * 512
    → IsOwned sb fs.cache ip
    → IsFilled fs.cache ip ip.size
    → inode_block sb ip.inum < sb.bmapstart
    → 2 * span off n ≤ free_count sb fs.cache sb.size
    → (fs' : Fs) × (ip' : Inode) × (mem'' : Mem) × (writei sb has fs ip mem src off n
        ≡ some (moved n, fs', ip'))
      × (readi sb has fs' ip' mem' dst off n ≡ some (moved n, mem'', fs', ip'))
      × ((k : ℕ) → k < n → mem'' (dst + k) ≡ mem (src + k))
readi-writei sb has fs ip mem mem' src dst off n file range short top fit v filled low free =
    let (fs', ip', e, w) =
      writei_lem sb has fs ip mem src off n file range short top fit v filled low free in
    let size = w.size in
    let type : ip'.type ≡ ip.type = ap (λ (q : Inode). q.type) w.others in
    let (mem'', r, at) =
      readi_lem sb has fs' ip' mem' dst off n (rw type file) (ground arith) (ground arith)
        (omega arith) w.filled in
    let all : min n (ip'.size - off) ≡ n = ground arith in
    (
      fs',
      ip',
      mem'',
      e,
      r ∙ ap (λ k. some (moved k, mem'', fs', ip')) all,
      λ k h.
          let inside : (leb dst (dst + k) && ltb (dst + k) (dst + min n (ip'.size - off))) ≡ true =
            ground arith in
          let place : off + (dst + k - dst) ≡ off + k = omega arith in
          let new : (leb off (off + k) && ltb (off + k) (off + n)) ≡ true = ground arith in
          let from : src + (off + k - off) ≡ src + k = omega arith in
          at (dst + k) ∙ rw (inside, place) (w.bytes (off + k) (omega arith) ∙ rw (new, from) refl),
    )
