-- ===== src/Fs/Map/Bmap.antt =====
-- bmap as a whole.
use os_project2_test.Prelude.{
  ℕ, ◌+◌, ◌-◌, ◌≡◌, ◌≤◌, ◌<◌, refl, subst, true, false, Option, none, some, ◌==◌, ltb, arith,
  Bool-cases, Option-cases, inl, inr, get_or, set,
}
use os_project2_test.Fs.{Superblock, Inode, Fs, get_word, put_word, log_write}
use os_project2_test.Fs.Bitmap.{balloc}
use os_project2_test.Fs.Bitmap.Laws.{IsLaid, balloc-Taken, balloc_lem}
use os_project2_test.Fs.Bitmap.Count.{free_count, free_count-pos}
use os_project2_test.Fs.Map.{map_slot, map_word, bmap}
use os_project2_test.Fs.Map.Owned.{
  Taken-Grown, Grown-IsLaid, Grown-free, indirect, block_of, IsOwned, Added, Same, Same-Added, kept,
}
use os_project2_test.Fs.Map.Laws.{
  slot-Added, with_top, top_added, new_top, grown, worded, word-Grown, word-Added,
}

module _ (sb : Superblock) where
  abbrev IfSome : (ℕ × Fs × Inode → Type 0) → Option (ℕ × Fs × Inode) → Type 0
  IfSome P none = Unit {0}
  IfSome P (some r) = P r

  Got : Fs → Inode → ℕ → ℕ × Fs × Inode → Type 0
  Got fs ip bn (x, fs', ip') = Added sb fs.cache fs'.cache ip ip' bn x

  slot-Got :
      (fs : Fs) (ip : Inode) (bn : ℕ)
      → IsOwned sb fs.cache ip
      → bn < 12
      → IfSome (Got fs ip bn) (map_slot sb fs ip bn)
  unfolding map_slot Got
  slot-Got fs ip bn v low = elim (Bool-cases (get_or ip.addrs bn 0 == 0)) [
    | inl empty ↦ elim (Option-cases (balloc sb fs)) [
      | inl e ↦ rw (empty, e) tt
      | inr ((x, fs'), e) ↦ rw (empty, e) (slot-Added sb fs fs' ip bn x v low (ground arith) e)
    ]
    | inr there ↦
        let at : block_of fs.cache ip bn ≡ get_or ip.addrs bn 0 =
          let l : ltb bn 12 ≡ true = ground arith in rw l refl in
        rw there (
          subst (λ x. Added sb fs.cache fs.cache ip ip bn x) at
            (kept sb fs.cache ip bn v (rw at there)))
  ]

  abbrev WordGot : Fs → Inode → ℕ → Option (ℕ × Fs) → Type 0
  WordGot fs ip j none = Unit {0}
  WordGot fs ip j (some (x, fs')) =
      Added sb fs.cache fs'.cache ip ip (12 + j) x
      × (free_count sb fs.cache sb.size ≤ 1 + free_count sb fs'.cache sb.size)

  -- The inode has an indirect block.
  word-Got :
      (fs : Fs) (ip : Inode) (j : ℕ)
      → IsOwned sb fs.cache ip
      → (indirect ip == 0) ≡ false
      → j < 128
      → WordGot fs ip j (map_word sb fs (indirect ip) j)
  unfolding map_word
  word-Got fs ip j v present range = elim (Bool-cases (get_word fs.cache (indirect ip) j == 0)) [
    | inl empty ↦ elim (Option-cases (balloc sb fs)) [
      | inl e ↦ rw (empty, e, WordGot) tt
      | inr ((x, fs'), e) ↦
          rw (empty, e, WordGot)
            (
              word-Added sb fs fs' ip j x v present range (ground arith)
                  (balloc-Taken sb fs fs' x e),
              (let g =
                    word-Grown sb fs fs' ip j x v present range (ground arith)
                      (balloc-Taken sb fs fs' x e) in
                  let f =
                    Grown-free sb fs.cache
                      (worded sb fs fs' ip j x v present range (ground arith)
                        (balloc-Taken sb fs fs' x e))
                      x (indirect ip) g in
                  omega arith),
            )
    ]
    | inr there ↦
        let at : 12 + j - 12 ≡ j = omega arith in
        let high : ltb (12 + j) 12 ≡ false = ground arith in
        let w : block_of fs.cache ip (12 + j) ≡ get_word fs.cache (indirect ip) j =
          rw (high, present, at) refl in
        rw (there, WordGot)
          (
            subst (λ x. Added sb fs.cache fs.cache ip ip (12 + j) x) w
                (kept sb fs.cache ip (12 + j) v (rw w there)),
            omega arith,
          )
  ]

  -- The rest of `bmap` behind the indirect block.
  abbrev with_word : Inode → Option (ℕ × Fs) → Option (ℕ × Fs × Inode)
  with_word ip r = elim r [ none ↦ none | some (x, fs) ↦ some (x, fs, ip) ]

  Same-refl : (fs : Fs) (ip : Inode) → IsOwned sb fs.cache ip → Same sb fs.cache fs.cache ip ip
  Same-refl fs ip v = record {
    owned = v;
    blocks = λ b h. refl;
    bytes = λ b i h k. refl;
    others = refl;
    cost = omega arith;
  }

  word-bmap :
      (fs fs' : Fs) (ip ip' : Inode) (bn : ℕ) (r : Option (ℕ × Fs))
      → (12 + (bn - 12) ≡ bn)
      → Same sb fs.cache fs'.cache ip ip'
      → WordGot fs' ip' (bn - 12) r
      → IfSome (Got fs ip bn) (with_word ip' r)
  unfolding Got
  word-bmap fs fs' ip ip' bn none at s g = tt
  word-bmap fs fs' ip ip' bn (some (x, fs'')) at s g =
      subst (λ b. Added sb fs.cache fs''.cache ip ip' b x) at
        (Same-Added sb fs.cache fs'.cache fs''.cache ip ip' ip' (12 + (bn - 12)) x s g.0 g.1)

  bmap-IfSome :
      (fs : Fs) (ip : Inode) (bn : ℕ)
      → IsOwned sb fs.cache ip
      → IfSome (Got fs ip bn) (bmap sb fs ip bn)
  unfolding bmap map_slot
  bmap-IfSome fs ip bn v = elim (Bool-cases (ltb bn 12)) [
    | inl low ↦ rw (low, bmap) (unfold map_slot in slot-Got fs ip bn v (ground arith))
    | inr high ↦ elim (Bool-cases (ltb (bn - 12) 128)) [
      | inr out ↦ rw (high, out, bmap) tt
      | inl near ↦
          let at : 12 + (bn - 12) ≡ bn = ground arith in
          elim (Bool-cases (indirect ip == 0)) [
            | inr there ↦
                rw (high, near, there, bmap)
                  (word-bmap fs fs ip ip bn (map_word sb fs (indirect ip) (bn - 12)) at
                    (Same-refl fs ip v) (word-Got fs ip (bn - 12) v there (ground arith)))
            | inl empty ↦ elim (Option-cases (balloc sb fs)) [
              | inl e ↦ rw (high, near, empty, e, bmap) tt
              | inr ((x, fs'), e) ↦
                  let t = balloc-Taken sb fs fs' x e in
                  let ip' = with_top sb fs fs' ip x v (ground arith) t in
                  let top : indirect ip' ≡ x = new_top sb fs fs' ip x v (ground arith) t in
                  let s = top_added sb fs fs' ip x v (ground arith) t in
                  let there : (indirect ip' == 0) ≡ false =
                    let n = (grown sb fs fs' ip x v (ground arith) t).nonzero in ground arith in
                  rw (high, near, empty, e, bmap)
                    (word-bmap fs fs' ip ip' bn (map_word sb fs' x (bn - 12)) at s (
                      subst (λ i. WordGot fs' ip' (bn - 12) (map_word sb fs' i (bn - 12))) top
                        (word-Got fs' ip' (bn - 12) s.owned there (ground arith))))
            ]
          ]
    ]
  ]

-- `bmap`, when it returns.
pub bmap-Added :
    (sb : Superblock) (fs fs' : Fs) (ip ip' : Inode) (bn x : ℕ)
    → IsOwned sb fs.cache ip
    → bmap sb fs ip bn ≡ some (x, fs', ip')
    → Added sb fs.cache fs'.cache ip ip' bn x
unfolding Got
bmap-Added sb fs fs' ip ip' bn x v e =
    subst (IfSome sb (Got sb fs ip bn)) e (bmap-IfSome sb fs ip bn v)

module _ (sb : Superblock) where
  word_some :
      (fs : Fs) (ind j : ℕ)
      → IsLaid sb fs.cache
      → 0 < free_count sb fs.cache sb.size
      → (r : ℕ × Fs) × (map_word sb fs ind j ≡ some r)
  unfolding map_word
  word_some fs ind j laid free = elim (Bool-cases (get_word fs.cache ind j == 0)) [
    | inl empty ↦
        let (a, range, unused) = free_count-pos sb fs.cache sb.size free in
        let (x, fs', e, _, _, _, _) = balloc_lem sb fs a a laid range unused range in
        ((x, log_write fs' (put_word fs'.cache ind j x) ind), rw (empty, e) refl)
    | inr there ↦ ((get_word fs.cache ind j, fs), rw there refl)
  ]

  slot_some :
      (fs : Fs) (ip : Inode) (i : ℕ)
      → IsOwned sb fs.cache ip
      → 0 < free_count sb fs.cache sb.size
      → (x : ℕ) × (fs' : Fs) × (ip' : Inode) × (map_slot sb fs ip i ≡ some (x, fs', ip'))
        × IsLaid sb fs'.cache
        × (free_count sb fs.cache sb.size ≤ 1 + free_count sb fs'.cache sb.size)
  unfolding map_slot
  slot_some fs ip i v free = elim (Bool-cases (get_or ip.addrs i 0 == 0)) [
    | inr there ↦ (get_or ip.addrs i 0, fs, ip, rw there refl, v.laid, omega arith)
    | inl empty ↦
        let (a, range, unused) = free_count-pos sb fs.cache sb.size free in
        let (x, fs', e, _, _, _, _) = balloc_lem sb fs a a v.laid range unused range in
        let g = Taken-Grown sb fs fs' x 0 v.laid v.boot (balloc-Taken sb fs fs' x e) in
        let one = Grown-free sb fs.cache fs'.cache x 0 g in
        (
          x,
          fs',
          record ip { addrs = set ip.addrs i x },
          rw (empty, e) refl,
          Grown-IsLaid sb fs.cache fs'.cache x 0 g v.fits v.laid,
          omega arith,
        )
  ]

-- `bmap` returns for a block in range if two blocks of the file system are free.
pub bmap-some :
    (sb : Superblock) (fs : Fs) (ip : Inode) (bn : ℕ)
    → IsOwned sb fs.cache ip
    → bn < 140
    → 2 ≤ free_count sb fs.cache sb.size
    → (x : ℕ) × (fs' : Fs) × (ip' : Inode) × (bmap sb fs ip bn ≡ some (x, fs', ip'))
unfolding bmap
bmap-some sb fs ip bn v range two = elim (Bool-cases (ltb bn 12)) [
  | inl low ↦
      let (x, fs', ip', e, _, _) = slot_some sb fs ip bn v (omega arith) in
      (x, fs', ip', rw (low, bmap) e)
  | inr high ↦
      let near : ltb (bn - 12) 128 ≡ true = ground arith in
      let (ind, fs', ip', e, laid, one) = slot_some sb fs ip 12 v (omega arith) in
      let ((x, fs''), f) = word_some sb fs' ind (bn - 12) laid (omega arith) in
      (x, fs'', ip', rw (high, near, e, f, bmap) refl)
]

module _ (sb : Superblock) where
  -- A block that is there is found.
  pub bmap-there :
      (fs : Fs) (ip : Inode) (bn : ℕ)
      → bn < 140
      → (block_of fs.cache ip bn == 0) ≡ false
      → bmap sb fs ip bn ≡ some (block_of fs.cache ip bn, fs, ip)
  unfolding bmap map_slot map_word
  bmap-there fs ip bn range there = elim (Bool-cases (ltb bn 12)) [
    | inl low ↦
        let there' : (get_or ip.addrs bn 0 == 0) ≡ false = ground arith in rw (low, there') refl
    | inr high ↦
        let near : ltb (bn - 12) 128 ≡ true = ground arith in
        elim (Bool-cases (indirect ip == 0)) [
          | inl z ↦ absurd (ground arith)
          | inr nz ↦
              let there' : (get_word fs.cache (indirect ip) (bn - 12) == 0) ≡ false =
                ground arith in
              rw (high, near, nz, there') refl
        ]
  ]

-- For an inode whose blocks are its own, a block number below 140 and two free blocks, `bmap`
-- returns a block that is not 0; it is the inode's block of that number afterwards, all its
-- other blocks and all its bytes are as before, its blocks are its own, and at most two blocks
-- more are taken.
pub bmap_lem :
    (sb : Superblock) (fs : Fs) (ip : Inode) (bn : ℕ)
    → IsOwned sb fs.cache ip
    → bn < 140
    → 2 ≤ free_count sb fs.cache sb.size
    → (x : ℕ) × (fs' : Fs) × (ip' : Inode) × (bmap sb fs ip bn ≡ some (x, fs', ip'))
      × Added sb fs.cache fs'.cache ip ip' bn x
bmap_lem sb fs ip bn v range two =
    let (x, fs', ip', e) = bmap-some sb fs ip bn v range two in
    (x, fs', ip', e, bmap-Added sb fs fs' ip ip' bn x v e)
