-- ===== src/Fs/Content/Store.antt =====
-- writei as a whole, with enough free blocks, and the last step, iupdate.
use os_project2_test.Prelude.{
  ℕ, zero, suc, ◌+◌, ◌*◌, ◌/◌, ◌%◌, ◌-◌, ◌^◌, ◌≡◌, ◌≤◌, ◌<◌, refl, ap, sym, ◌∙◌, subst, Bool, true,
  false, ◌&&◌, ◌||◌, Option, some, ◌==◌, ltb, leb, if◌then◌else◌, arith, Bool-cases, inl, inr, max,
}
use os_project2_test.Fs.{Blocks, Superblock, Inode, Fs, log_write}
use os_project2_test.Fs.Bitmap.Count.{free_count}
use os_project2_test.Fs.Map.{bmap}
use os_project2_test.Fs.Map.Owned.{block_of, byte_of, IsOwned}
use os_project2_test.Fs.Map.Bmap.{bmap-Added, bmap-some}
use os_project2_test.Fs.Dinode.{iupdate, inode_block}
use os_project2_test.Fs.Dinode.Laws.{iupdate-other}
use os_project2_test.Fs.Content.{Mem, to_block, chunk, moved, write_loop, writei}
use os_project2_test.Fs.Content.Read.{content, IsFilled}
use os_project2_test.Fs.Content.Only.{Only, Only-block_of, Only-IsOwned}
use os_project2_test.Fs.Content.Write.{Stored, IfStored, write_loop-IfStored, turn, turn-free}

-- How many blocks hold `n` bytes from `off` on.
abbrev pub span : ℕ → ℕ → ℕ
span off n = if n == 0 then 0 else suc ((off + n - 1) / 512) - off / 512

span-chunk :
    (off n : ℕ) → (n == 0) ≡ false → 1 + span (off + chunk n off) (n - chunk n off) ≤ span off n
span-chunk off n h = ground arith

module _ (sb : Superblock) where
  loop_turn :
      (turns : ℕ) (fs fs' : Fs) (ip ip' : Inode) (mem : Mem) (src off n x : ℕ)
      (r : Option (Fs × Inode))
      → (n == 0) ≡ false
      → bmap sb fs ip (off / 512) ≡ some (x, fs', ip')
      → write_loop sb turns
          (log_write fs' (to_block fs'.cache x (off % 512) mem src (chunk n off)) x)
          ip'
          mem
          (src + chunk n off)
          (off + chunk n off)
          (n - chunk n off)
        ≡ r
      → write_loop sb (suc turns) fs ip mem src off n ≡ r
  unfolding write_loop
  loop_turn turns fs fs' ip ip' mem src off n x r nz e f = rw (nz, e) f

  loop_end :
      (turns : ℕ) (fs : Fs) (ip : Inode) (mem : Mem) (src off n : ℕ)
      → (n == 0) ≡ true
      → write_loop sb (suc turns) fs ip mem src off n ≡ some (fs, ip)
  unfolding write_loop
  loop_end turns fs ip mem src off n z = rw z refl

  write_loop-some :
      (turns : ℕ) (fs : Fs) (ip : Inode) (mem : Mem) (src off n : ℕ)
      → off + n ≤ 140 * 512
      → IsOwned sb fs.cache ip
      → 2 * span off n ≤ free_count sb fs.cache sb.size
      → (fs' : Fs) × (ip' : Inode) × (write_loop sb turns fs ip mem src off n ≡ some (fs', ip'))
  unfolding write_loop
  write_loop-some zero fs ip mem src off n top v free = (fs, ip, refl)
  write_loop-some (suc turns) fs ip mem src off n top v free = elim (Bool-cases (n == 0)) [
    | inl z ↦ (fs, ip, loop_end turns fs ip mem src off n z)
    | inr nz ↦
        let one = span-chunk off n nz in
        let (x, fs', ip', e) = bmap-some sb fs ip (off / 512) v (ground arith) (omega arith) in
        let a = bmap-Added sb fs fs' ip ip' (off / 512) x v e in
        let m = chunk n off in
        let c'' = to_block fs'.cache x (off % 512) mem src m in
        let s = turn sb fs.cache fs'.cache ip ip' mem src off n x (ground arith) top a in
        let cost = a.cost in
        let same = turn-free sb fs.cache fs'.cache ip ip' mem src off n x (ground arith) top a in
        let (fs'', ip'', f) =
          write_loop-some turns (log_write fs' c'' x) ip' mem (src + m) (off + m) (n - m)
            (ground arith) s.owned (omega arith) in
        (fs'', ip'', loop_turn turns fs fs' ip ip' mem src off n x (some (fs'', ip'')) nz e f)
  ]

  -- What `writei` does to a file.
  pub record Written (fs fs' : Fs) (ip ip' : Inode) (mem : Mem) (src off n : ℕ) : Type 0 where
    pub owned : IsOwned sb fs'.cache ip'
    pub size : ip'.size ≡ max ip.size (off + n)
    pub bytes :
        (p : ℕ)
        → p < 140 * 512
        → content fs'.cache ip' p
          ≡ (if leb off p && ltb p (off + n) then mem (src + (p - off)) else content fs.cache ip p)
    pub filled : IsFilled fs'.cache ip' ip'.size
    pub others : ip' ≡ record ip { addrs = ip'.addrs; size = ip'.size }

  -- The last part, where the file has grown.
  iupdate-Only :
      (fs : Fs) (ip : Inode)
      → IsOwned sb fs.cache ip
      → inode_block sb ip.inum < sb.bmapstart
      → Only sb fs.cache (iupdate sb fs ip).cache ip (inode_block sb ip.inum)
  iupdate-Only fs ip v low = record {
    same = λ a i h. iupdate-other sb fs ip a i h;
    apart = let t = v.top in ground arith;
    off_map = ground arith;
  }

  resized-IsOwned :
      (c : Blocks) (ip : Inode) (k : ℕ) → IsOwned sb c ip → IsOwned sb c (record ip { size = k })
  resized-IsOwned c ip k v = record {
    laid = v.laid;
    fits = v.fits;
    boot = v.boot;
    small = v.small;
    slots = v.slots;
    top = v.top;
    each = v.each;
    below = v.below;
    differ = v.differ;
  }

  iupdate-byte_of :
      (fs : Fs) (ip : Inode) (b i : ℕ)
      → IsOwned sb fs.cache ip
      → inode_block sb ip.inum < sb.bmapstart
      → b < 140
      → byte_of (iupdate sb fs ip).cache ip b i ≡ byte_of fs.cache ip b i
  iupdate-byte_of fs ip b i v low h =
      let o = iupdate-Only fs ip v low in
      let e = Only-block_of sb fs.cache (iupdate sb fs ip).cache ip (inode_block sb ip.inum) b o in
      elim (Bool-cases (block_of fs.cache ip b == 0)) [
        | inl z ↦ rw (e, z) refl
        | inr nz ↦
            let q = v.each b h in rw (e, nz) (o.same (block_of fs.cache ip b) i (ground arith))
      ]

  module _ (fs fs' : Fs) (ip ip' : Inode) (mem : Mem) (src off n : ℕ)
      (s : Stored sb fs.cache fs'.cache ip ip' mem src off n) (range : off ≤ ip.size)
      (top : off + n ≤ 140 * 512) (fit : ip.size ≤ 140 * 512)
      (low : inode_block sb ip.inum < sb.bmapstart) (filled : IsFilled fs.cache ip ip.size) where
    filled_then : IsFilled fs'.cache ip' (max ip.size (off + n))
    filled_then p h = elim (Bool-cases (leb off p && ltb p (off + n))) [
      | inl inside ↦ s.filled p (ground arith) (ground arith) (ground arith)
      | inr outside ↦ s.more (p / 512) (ground arith) (filled p (ground arith))
    ]

    unchanged : ltb 0 n && ltb ip'.size (off + n) ≡ false → Written fs fs' ip ip' mem src off n
    unchanged h =
        let same : ip'.size ≡ ip.size = ap (λ (q : Inode). q.size) s.others in
        let size : ip'.size ≡ max ip.size (off + n) = ground arith in
        record {
          owned = s.owned;
          size = size;
          bytes = s.bytes;
          filled = subst (IsFilled fs'.cache ip') (sym size) filled_then;
          others = s.others ∙ ap (λ z. record ip { addrs = ip'.addrs; size = z }) (sym same);
        }

    grown :
        ltb 0 n && ltb ip'.size (off + n) ≡ true
        → Written fs
            (iupdate sb fs' (record ip' { size = off + n }))
            ip
            (record ip' { size = off + n })
            mem
            src
            off
            n
    grown h =
        let same : ip'.size ≡ ip.size = ap (λ (q : Inode). q.size) s.others in
        let inum : ip'.inum ≡ ip.inum = ap (λ (q : Inode). q.inum) s.others in
        let jp = record ip' { size = off + n } in
        let v = resized-IsOwned fs'.cache ip' (off + n) s.owned in
        let size : off + n ≡ max ip.size (off + n) = ground arith in
        let o = iupdate-Only fs' jp v (rw inum low) in
        record {
          owned =
              Only-IsOwned sb fs'.cache (iupdate sb fs' jp).cache jp (inode_block sb ip'.inum) o v;
          size = size;
          bytes = λ p h.
              iupdate-byte_of fs' jp (p / 512) (p % 512) v (rw inum low) (ground arith)
              ∙ s.bytes p h;
          filled = λ p h.
              subst (λ b. (b == 0) ≡ false)
                (sym (
                  Only-block_of sb fs'.cache (iupdate sb fs' jp).cache jp (inode_block sb ip'.inum)
                    (p / 512) o))
                (filled_then p (rw⁻¹ size h));
          others = ap (λ (q : Inode). record q { size = off + n }) s.others;
        }

-- For a write of at most 1536 bytes, the most that filewrite makes in one transaction, where
-- `log_write` has room for its blocks (its panics are not in this model), to a file of at most
-- 71680 bytes that is not a device, with its blocks its own, those of its bytes there and its
-- inode's block before the free map, an offset not behind its end, an end of the write within
-- 71680 bytes and two free blocks for each block of the write: `writei` returns n; the file's
-- size is the larger of the old one and the end of the write; each of the file's bytes is the
-- one written, in the range of the write, or as before; its blocks are its own again, those of
-- its bytes are there, and nothing in the inode but addresses and size has changed.
pub writei_lem :
    (sb : Superblock) (has : ℕ → Bool) (fs : Fs) (ip : Inode) (mem : Mem) (src off n : ℕ)
    → (ip.type == 3) ≡ false
    → off ≤ ip.size
    → n ≤ 3 * 512
    → off + n ≤ 140 * 512
    → ip.size ≤ 140 * 512
    → IsOwned sb fs.cache ip
    → IsFilled fs.cache ip ip.size
    → inode_block sb ip.inum < sb.bmapstart
    → 2 * span off n ≤ free_count sb fs.cache sb.size
    → (fs' : Fs) × (ip' : Inode) × (writei sb has fs ip mem src off n ≡ some (moved n, fs', ip'))
      × Written sb fs fs' ip ip' mem src off n
unfolding writei
writei_lem sb has fs ip mem src off n file range short top fit v filled low free =
    let wrap : (ltb ip.size off || ltb ((off + n) % 2 ^ 32) off) ≡ false = ground arith in
    let big : ltb (140 * 512) ((off + n) % 2 ^ 32) ≡ false = ground arith in
    let (fs', ip', e) = write_loop-some sb n fs ip mem src off n top v free in
    let s : Stored sb fs.cache fs'.cache ip ip' mem src off n =
      subst (IfStored sb fs.cache ip mem src off n) e
        (write_loop-IfStored sb n fs ip mem src off n (omega arith) top v) in
    elim (Bool-cases (ltb 0 n && ltb ip'.size (off + n))) [
      | inl h ↦ (
        iupdate sb fs' (record ip' { size = off + n }),
        record ip' { size = off + n },
        rw (file, wrap, big, e, h) refl,
        grown sb fs fs' ip ip' mem src off n s range top fit low filled h,
      )
      | inr h ↦ (
        fs',
        ip',
        rw (file, wrap, big, e, h) refl,
        unchanged sb fs fs' ip ip' mem src off n s range top fit low filled h,
      )
    ]
