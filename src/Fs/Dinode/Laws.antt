-- ===== src/Fs/Dinode/Laws.antt =====
-- What iupdate and ialloc write, ilock reads; other inodes keep their fields.
use os_project2_test.Prelude.{
  ℕ, zero, suc, ◌+◌, ◌*◌, ◌/◌, ◌%◌, ◌^◌, ◌≡◌, ◌≤◌, ◌<◌, refl, ap, ap₂, sym, ◌∙◌, true, false, ◌&&◌,
  none, some, List, [], ◌∷◌, ◌==◌, ltb, leb, if◌then◌else◌, arith, length, All,
}
use os_project2_test.Fs.{Blocks, Superblock, Inode, Fs, get_word, put_word, log_write}
use os_project2_test.Fs.Map.Owned.{get_word-put_word}
use os_project2_test.Fs.Dinode.{
  put_words, get_words, inode_block, inode_word, pair, dinode, iupdate, load, locked, ilock,
}

-- Bytes outside the words written are kept.
pub put_words-other :
    (c : Blocks) (b j : ℕ) (ws : List ℕ) (a i : ℕ)
    → (b == a && leb j (i / 4) && ltb (i / 4) (j + length ws)) ≡ false
    → put_words c b j ws a i ≡ c a i
put_words-other c b j [] a i h = refl
put_words-other c b j (w ∷ ws) a i h =
    put_words-other (put_word c b j w) b (suc j) ws a i (ground arith) ∙ ground arith

module _ (sb : Superblock) where
  word_kept :
      (c : Blocks) (b j : ℕ) (ws : List ℕ) (a k : ℕ)
      → (b == a && leb j k && ltb k (j + length ws)) ≡ false
      → get_word (put_words c b j ws) a k ≡ get_word c a k
  word_kept c b j ws a k h = omega (
    arith,
    put_words-other c b j ws a (4 * k) (ground arith),
    put_words-other c b j ws a (4 * k + 1) (ground arith),
    put_words-other c b j ws a (4 * k + 2) (ground arith),
    put_words-other c b j ws a (4 * k + 3) (ground arith),
  )

  word_first :
      (c : Blocks) (b j w : ℕ) (ws : List ℕ)
      → w < 2 ^ 32
      → get_word (put_words c b j (w ∷ ws)) b j ≡ w
  word_first c b j w ws h =
      word_kept (put_word c b j w) b (suc j) ws b j (ground arith)
      ∙ get_word-put_word sb c b j w j h
      ∙ ground arith

  get_words-put_words :
      (c : Blocks) (b j : ℕ) (ws : List ℕ)
      → All (λ w. w < 2 ^ 32) ws
      → get_words (put_words c b j ws) b j (length ws) ≡ ws
  get_words-put_words c b j [] h = refl
  get_words-put_words c b j (w ∷ ws) h =
      ap₂ (λ x xs. x ∷ xs) (word_first c b j w ws h.0)
        (get_words-put_words (put_word c b j w) b (suc j) ws h.1)

  get_words-other :
      (c : Blocks) (b j : ℕ) (ws : List ℕ) (a k n : ℕ)
      → (b == a && ltb j (k + n) && ltb k (j + length ws)) ≡ false
      → get_words (put_words c b j ws) a k n ≡ get_words c a k n
  get_words-other c b j ws a k zero h = refl
  get_words-other c b j ws a k (suc n) h =
      ap₂ (λ x xs. x ∷ xs) (word_kept c b j ws a k (ground arith))
        (get_words-other c b j ws a (suc k) n (ground arith))

-- The fields fit into a `struct dinode`.
pub record IsDinode (ip : Inode) : Type 0 where
  pub type : ip.type < 2 ^ 16
  pub major : ip.major < 2 ^ 16
  pub minor : ip.minor < 2 ^ 16
  pub nlink : ip.nlink < 2 ^ 16
  pub size : ip.size < 2 ^ 32
  pub slots : length ip.addrs ≡ 13
  pub small : All (λ w. w < 2 ^ 32) ip.addrs

module _ (sb : Superblock) where
  load_fields :
      (fs : Fs) (ip jp : Inode)
      → IsDinode ip
      → jp.inum ≡ ip.inum
      → get_word fs.cache (inode_block sb ip.inum) (inode_word ip.inum) ≡ pair ip.type ip.major
      → get_word fs.cache (inode_block sb ip.inum) (suc (inode_word ip.inum))
        ≡ pair ip.minor ip.nlink
      → get_word fs.cache (inode_block sb ip.inum) (suc (suc (inode_word ip.inum))) ≡ ip.size
      → get_words fs.cache (inode_block sb ip.inum) (suc (suc (suc (inode_word ip.inum)))) 13
        ≡ ip.addrs
      → load sb fs jp ≡ record ip { dev = jp.dev; ref = jp.ref; valid = jp.valid }
  unfolding load
  load_fields fs ip jp d same w0 w1 w2 ws =
      let t = d.type in
      let m = d.major in
      let n = d.minor in
      let l = d.nlink in
      let c0 : pair ip.type ip.major % 2 ^ 16 ≡ ip.type = omega arith in
      let c1 : pair ip.type ip.major / 2 ^ 16 ≡ ip.major = omega arith in
      let c2 : pair ip.minor ip.nlink % 2 ^ 16 ≡ ip.minor = omega arith in
      let c3 : pair ip.minor ip.nlink / 2 ^ 16 ≡ ip.nlink = omega arith in
      rw (same, w0, w1, w2, ws, c0, c1, c2, c3) refl

  pub load-same :
      (fs : Fs) (ip jp : Inode)
      → IsDinode ip
      → jp.inum ≡ ip.inum
      → load sb (iupdate sb fs ip) jp ≡ record ip { dev = jp.dev; ref = jp.ref; valid = jp.valid }
  unfolding load iupdate
  load-same fs ip jp d same =
      let b = inode_block sb ip.inum in
      let j = inode_word ip.inum in
      let t = d.type in
      let m = d.major in
      let n = d.minor in
      let l = d.nlink in
      let w0 =
        word_first sb fs.cache b j (pair ip.type ip.major)
          (pair ip.minor ip.nlink ∷ ip.size ∷ ip.addrs) (omega arith) in
      let c1 = put_word fs.cache b j (pair ip.type ip.major) in
      let w1 =
        word_first sb c1 b (suc j) (pair ip.minor ip.nlink) (ip.size ∷ ip.addrs) (omega arith) in
      let c2 = put_word c1 b (suc j) (pair ip.minor ip.nlink) in
      let w2 = word_first sb c2 b (suc (suc j)) ip.size ip.addrs d.size in
      let c3 = put_word c2 b (suc (suc j)) ip.size in
      let ws : get_words (put_words c3 b (suc (suc (suc j))) ip.addrs) b (suc (suc (suc j))) 13
          ≡ ip.addrs =
        ap (get_words (put_words c3 b (suc (suc (suc j))) ip.addrs) b (suc (suc (suc j))))
          (sym d.slots)
        ∙ get_words-put_words sb c3 b (suc (suc (suc j))) ip.addrs d.small in
      load_fields (iupdate sb fs ip) ip jp d same w0 w1 w2 ws

  -- Two inodes share no word.
  pub load-other :
      (fs : Fs) (b inum : ℕ) (ws : List ℕ) (jp : Inode)
      → length ws ≤ 16
      → (jp.inum == inum) ≡ false
      → load sb (log_write fs (put_words fs.cache (inode_block sb inum) (inode_word inum) ws) b) jp
        ≡ load sb fs jp
  unfolding load
  load-other fs b inum ws jp len differ =
      let j = inode_word inum in
      let k = inode_word jp.inum in
      let w0 =
        word_kept sb fs.cache (inode_block sb inum) j ws (inode_block sb jp.inum) k
          (ground arith) in
      let w1 =
        word_kept sb fs.cache (inode_block sb inum) j ws (inode_block sb jp.inum) (suc k)
          (ground arith) in
      let w2 =
        word_kept sb fs.cache (inode_block sb inum) j ws (inode_block sb jp.inum) (suc (suc k))
          (ground arith) in
      let w3 =
        get_words-other sb fs.cache (inode_block sb inum) j ws (inode_block sb jp.inum)
          (suc (suc (suc k))) 13 (ground arith) in
      rw (w0, w1, w2, w3) refl

  load-iupdate :
      (fs : Fs) (ip jp : Inode)
      → IsDinode ip
      → (jp.inum == ip.inum) ≡ false
      → load sb (iupdate sb fs ip) jp ≡ load sb fs jp
  unfolding iupdate
  load-iupdate fs ip jp d differ =
      let n = d.slots in
      load-other fs (inode_block sb ip.inum) ip.inum (dinode ip) jp (omega arith) differ

-- For an inode whose fields fit on disk and whose type is not 0: after `iupdate`, `ilock` of an
-- entry for it that has references and is not valid gives all its fields on disk back; `ilock`
-- of an entry for any other inode does as before.
pub ilock-iupdate :
    (sb : Superblock) (fs : Fs) (ip jp kp : Inode)
    → IsDinode ip
    → (ip.type == 0) ≡ false
    → jp.inum ≡ ip.inum
    → (jp.ref == 0) ≡ false
    → jp.valid ≡ false
    → (kp.inum == ip.inum) ≡ false
    → (ilock sb (iupdate sb fs ip) jp
        ≡ some (record ip { dev = jp.dev; ref = jp.ref; valid = true }))
      × (ilock sb (iupdate sb fs ip) kp ≡ ilock sb fs kp)
unfolding ilock
ilock-iupdate sb fs ip jp kp d typed same held invalid differ = (
  rw (held, invalid) refl ∙ ap locked (load-same sb fs ip jp d same) ∙ rw typed refl,
  ap (λ l. if kp.ref == 0 then none else if kp.valid then some kp else locked l)
      (load-iupdate sb fs ip kp d differ),
)

-- Only the inode's block changes.
pub iupdate-other :
    (sb : Superblock) (fs : Fs) (ip : Inode) (a i : ℕ)
    → (inode_block sb ip.inum == a) ≡ false
    → (iupdate sb fs ip).cache a i ≡ fs.cache a i
unfolding iupdate
iupdate-other sb fs ip a i h =
    put_words-other fs.cache (inode_block sb ip.inum) (inode_word ip.inum) (dinode ip) a i
      (ground arith)
