-- ===== src/Fs/Content/Write.antt =====
-- writei stores bytes in a file, at the blocks that bmap finds or adds.
use os_project2_test.Prelude.{
  ℕ, zero, suc, ◌+◌, ◌*◌, ◌/◌, ◌%◌, ◌-◌, ◌≡◌, ◌≤◌, ◌<◌, refl, ap, ◌∙◌, subst, true, false, ◌&&◌,
  Option, none, some, ◌==◌, ltb, leb, if◌then◌else◌, arith, Bool-cases, Option-cases, inl, inr,
}
use os_project2_test.Fs.{Blocks, Superblock, Inode, Fs, log_write}
use os_project2_test.Fs.Bitmap.Count.{free_count}
use os_project2_test.Fs.Map.{bmap}
use os_project2_test.Fs.Map.Owned.{block_of, IsOwned, Added}
use os_project2_test.Fs.Map.Bmap.{bmap-Added}
use os_project2_test.Fs.Content.{Mem, to_block, chunk, write_loop}
use os_project2_test.Fs.Content.Read.{content}
use os_project2_test.Fs.Content.Only.{
  Only-block_of, Only-free, Only-IsOwned, stored, stored-Only, byte_of-stored,
}

-- `m` bytes that do not leave the block of the first.
pub spot_in_block :
    (off m p : ℕ)
    → m ≤ 512 - off % 512
    → (p / 512 == off / 512 && leb (off % 512) (p % 512) && ltb (p % 512) (off % 512 + m))
      ≡ (leb off p && ltb p (off + m))
spot_in_block off m p h = ground arith

-- `m` bytes and then `n - m`.
both :
    (mem : Mem) (src off n m p y : ℕ)
    → m ≤ n
    → (if leb (off + m) p && ltb p (off + m + (n - m))
        then mem (src + m + (p - (off + m)))
        else if leb off p && ltb p (off + m)
        then mem (src + (p - off))
        else y)
      ≡ (if leb off p && ltb p (off + n) then mem (src + (p - off)) else y)
both mem src off n m p y h = elim (Bool-cases (leb (off + m) p)) [
  | inl late ↦
      let at : src + m + (p - (off + m)) ≡ src + (p - off) = ground arith in
      let e : ltb p (off + m + (n - m)) ≡ ltb p (off + n) = ground arith in
      let l : leb off p ≡ true = ground arith in
      let k : ltb p (off + m) ≡ false = ground arith in rw (late, l, e, k, at) refl
  | inr early ↦
      let k : ltb p (off + m) ≡ true = ground arith in
      let e : ltb p (off + n) ≡ true = ground arith in rw (early, k, e) refl
]

module _ (sb : Superblock) where
  -- The file has the `n` bytes at `src` from `off` on, and its other bytes as before.
  pub record Stored (c c' : Blocks) (ip ip' : Inode) (mem : Mem) (src off n : ℕ) : Type 0 where
    pub owned : IsOwned sb c' ip'
    pub bytes :
        (p : ℕ)
        → p < 140 * 512
        → content c' ip' p
          ≡ (if leb off p && ltb p (off + n) then mem (src + (p - off)) else content c ip p)
    pub filled :
        (p : ℕ) → off ≤ p → p < off + n → p < 140 * 512 → (block_of c' ip' (p / 512) == 0) ≡ false
    pub more : (b : ℕ) → b < 140 → (block_of c ip b == 0) ≡ false → (block_of c' ip' b == 0) ≡ false
    pub others : ip' ≡ record ip { addrs = ip'.addrs }

  Stored-none :
      (c : Blocks) (ip : Inode) (mem : Mem) (src off n : ℕ)
      → n ≡ 0
      → IsOwned sb c ip
      → Stored c c ip ip mem src off n
  Stored-none c ip mem src off n z v = record {
    owned = v;
    bytes = λ p h. let out : (leb off p && ltb p (off + n)) ≡ false = ground arith in rw out refl;
    filled = λ p h k l. absurd (omega arith);
    more = λ b h k. k;
    others = refl;
  }

  -- A turn of the loop.
  pub turn :
      (c c' : Blocks) (ip ip' : Inode) (mem : Mem) (src off n x : ℕ)
      → 0 < n
      → off + n ≤ 140 * 512
      → Added sb c c' ip ip' (off / 512) x
      → Stored c (to_block c' x (off % 512) mem src (chunk n off)) ip ip' mem src off (chunk n off)
  turn c c' ip ip' mem src off n x pos top a =
      let bn = off / 512 in
      let m = chunk n off in
      let at : block_of c' ip' bn ≡ x = let q = a.blocks bn (ground arith) in ground arith in
      let nz = a.nonzero in
      let there : (block_of c' ip' bn == 0) ≡ false = ground arith in
      let o = stored-Only sb c' ip' bn (off % 512) src m mem a.owned (ground arith) there in
      subst
        (λ x.
          Stored c (to_block c' x (off % 512) mem src (chunk n off)) ip ip' mem src off
            (chunk n off))
        at
        (record {
          owned =
              Only-IsOwned sb c'
                (stored sb c' ip' bn (off % 512) src m mem a.owned (ground arith) there) ip'
                (block_of c' ip' bn) o a.owned;
          bytes = λ p h.
              let bs =
                byte_of-stored sb c' ip' bn (off % 512) src m mem a.owned (ground arith) there
                  (p / 512) (p % 512) (ground arith) in
              let old = a.bytes (p / 512) (p % 512) (ground arith) (ground arith) in
              let spot = spot_in_block off m p (ground arith) in
              bs ∙ elim (Bool-cases (leb off p && ltb p (off + m))) [
                | inl inside ↦
                    let k : p % 512 - off % 512 ≡ p - off = ground arith in
                    rw (spot, inside, k) refl
                | inr outside ↦ rw (spot, outside) old
              ];
          filled = λ p h k l.
              let q : p / 512 ≡ bn = ground arith in
              let e =
                Only-block_of sb c'
                  (stored sb c' ip' bn (off % 512) src m mem a.owned (ground arith) there) ip'
                  (block_of c' ip' bn) bn o in
              rw (q, e) there;
          more = λ b h k.
              let e =
                Only-block_of sb c'
                  (stored sb c' ip' bn (off % 512) src m mem a.owned (ground arith) there) ip'
                  (block_of c' ip' bn) b o in
              let q = a.blocks b h in let z = a.nonzero in rw (e, q) (ground arith);
          others = a.others;
        })

  pub turn-free :
      (c c' : Blocks) (ip ip' : Inode) (mem : Mem) (src off n x : ℕ)
      → 0 < n
      → off + n ≤ 140 * 512
      → Added sb c c' ip ip' (off / 512) x
      → free_count sb (to_block c' x (off % 512) mem src (chunk n off)) sb.size
        ≡ free_count sb c' sb.size
  turn-free c c' ip ip' mem src off n x pos top a =
      let bn = off / 512 in
      let at : block_of c' ip' bn ≡ x = let q = a.blocks bn (ground arith) in ground arith in
      let nz = a.nonzero in
      let there : (block_of c' ip' bn == 0) ≡ false = ground arith in
      let o =
        stored-Only sb c' ip' bn (off % 512) src (chunk n off) mem a.owned (ground arith) there in
      subst
        (λ x.
          free_count sb (to_block c' x (off % 512) mem src (chunk n off)) sb.size
          ≡ free_count sb c' sb.size)
        at
        (Only-free sb c'
          (stored sb c' ip' bn (off % 512) src (chunk n off) mem a.owned (ground arith) there) ip'
          (block_of c' ip' bn) sb.size o (omega arith))

  Stored-then :
      (c c' c'' : Blocks) (ip ip' ip'' : Inode) (mem : Mem) (src off n m : ℕ)
      → m ≤ n
      → Stored c c' ip ip' mem src off m
      → Stored c' c'' ip' ip'' mem (src + m) (off + m) (n - m)
      → Stored c c'' ip ip'' mem src off n
  Stored-then c c' c'' ip ip' ip'' mem src off n m le s t = record {
    owned = t.owned;
    bytes = λ p h.
        t.bytes p h
        ∙ ap
            (λ y.
              if leb (off + m) p && ltb p (off + m + (n - m))
              then mem (src + m + (p - (off + m)))
              else y)
            (s.bytes p h)
        ∙ both mem src off n m p (content c ip p) le;
    filled = λ p h k l. elim (Bool-cases (ltb p (off + m))) [
      | inl early ↦ t.more (p / 512) (ground arith) (s.filled p h (ground arith) l)
      | inr late ↦ t.filled p (ground arith) (ground arith) l
    ];
    more = λ b h k. t.more b h (s.more b h k);
    others = t.others ∙ ap (λ (q : Inode). record q { addrs = ip''.addrs }) s.others;
  }

  abbrev pub IfStored : Blocks → Inode → Mem → ℕ → ℕ → ℕ → Option (Fs × Inode) → Type 0
  IfStored c ip mem src off n none = Unit {0}
  IfStored c ip mem src off n (some (fs', ip')) = Stored c fs'.cache ip ip' mem src off n

  pub IfStored-then :
      (c c' : Blocks) (ip ip' : Inode) (mem : Mem) (src off n m : ℕ) (r : Option (Fs × Inode))
      → m ≤ n
      → Stored c c' ip ip' mem src off m
      → IfStored c' ip' mem (src + m) (off + m) (n - m) r
      → IfStored c ip mem src off n r
  IfStored-then c c' ip ip' mem src off n m none le s t = tt
  IfStored-then c c' ip ip' mem src off n m (some (fs'', ip'')) le s t =
      Stored-then c c' fs''.cache ip ip' ip'' mem src off n m le s t

  pub write_loop-IfStored :
      (turns : ℕ) (fs : Fs) (ip : Inode) (mem : Mem) (src off n : ℕ)
      → n ≤ turns
      → off + n ≤ 140 * 512
      → IsOwned sb fs.cache ip
      → IfStored fs.cache ip mem src off n (write_loop sb turns fs ip mem src off n)
  unfolding write_loop
  write_loop-IfStored zero fs ip mem src off n h top v =
      Stored-none fs.cache ip mem src off n (omega arith) v
  write_loop-IfStored (suc turns) fs ip mem src off n h top v = elim (Bool-cases (n == 0)) [
    | inl z ↦ rw z (Stored-none fs.cache ip mem src off n (ground arith) v)
    | inr nz ↦ elim (Option-cases (bmap sb fs ip (off / 512))) [
      | inl e ↦ rw (nz, e) tt
      | inr ((x, fs', ip'), e) ↦
          let a = bmap-Added sb fs fs' ip ip' (off / 512) x v e in
          let m = chunk n off in
          let c'' = to_block fs'.cache x (off % 512) mem src m in
          let s = turn fs.cache fs'.cache ip ip' mem src off n x (ground arith) top a in
          rw (nz, e)
            (IfStored-then fs.cache c'' ip ip' mem src off n m
              (write_loop sb turns (log_write fs' c'' x) ip' mem (src + m) (off + m) (n - m))
              (ground arith) s
              (write_loop-IfStored turns (log_write fs' c'' x) ip' mem (src + m) (off + m) (n - m)
                (ground arith) (ground arith) s.owned))
    ]
  ]
