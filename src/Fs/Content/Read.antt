-- ===== src/Fs/Content/Read.antt =====
-- readi gives the bytes of a file.
use os_project2_test.Prelude.{
  ℕ, zero, suc, ◌+◌, ◌*◌, ◌/◌, ◌%◌, ◌-◌, ◌^◌, ◌≡◌, ◌≤◌, ◌<◌, refl, ◌∙◌, Bool, true, false, ◌&&◌,
  ◌||◌, some, ◌==◌, ltb, leb, if◌then◌else◌, arith, Bool-cases, inl, inr, min,
}
use os_project2_test.Fs.{Blocks, Superblock, Inode, Fs}
use os_project2_test.Fs.Map.Bmap.{bmap-there}
use os_project2_test.Fs.Map.Owned.{block_of, byte_of}
use os_project2_test.Fs.Content.{Mem, from_block, chunk, moved, read_loop, readi}

-- The byte of a file at an offset.
abbrev pub content : Blocks → Inode → ℕ → ℕ
content c ip p = byte_of c ip (p / 512) (p % 512)

-- The file has all the blocks of its first `n` bytes.
abbrev pub IsFilled : Blocks → Inode → ℕ → Type 0
IsFilled c ip n = (p : ℕ) → p < n → (block_of c ip (p / 512) == 0) ≡ false

module _ (sb : Superblock) where
  -- `n` bytes of the file from `off` on, at `dst`.
  abbrev pub copied : Blocks → Inode → Mem → ℕ → ℕ → ℕ → Mem
  copied c ip mem dst off n a =
      if leb dst a && ltb a (dst + n) then content c ip (off + (a - dst)) else mem a

  -- A turn of the loop and the rest.
  join :
      (c : Blocks) (ip : Inode) (mem : Mem) (dst off n a : ℕ)
      → 0 < n
      → off + n ≤ 140 * 512
      → (block_of c ip (off / 512) == 0) ≡ false
      → copied c ip
          (from_block c (block_of c ip (off / 512)) (off % 512) mem dst (chunk n off))
          (dst + chunk n off)
          (off + chunk n off)
          (n - chunk n off)
          a
        ≡ copied c ip mem dst off n a
  join c ip mem dst off n a pos top there =
      elim (Bool-cases (leb dst a && ltb a (dst + chunk n off))) [
        | inl here ↦
            let q : (off + (a - dst)) / 512 ≡ off / 512 = ground arith in
            let r : (off + (a - dst)) % 512 ≡ off % 512 + (a - dst) = ground arith in
            let w : content c ip (off + (a - dst))
                ≡ c (block_of c ip (off / 512)) (off % 512 + (a - dst)) =
              rw (q, r, there) refl in
            let out : (leb (dst + chunk n off) a && ltb a (dst + chunk n off + (n - chunk n off)))
                ≡ false =
              ground arith in
            let inside : (leb dst a && ltb a (dst + n)) ≡ true = ground arith in
            rw (out, inside, here, w) refl
        | inr out ↦
            let at : (leb (dst + chunk n off) a && ltb a (dst + chunk n off + (n - chunk n off)))
                ≡ (leb dst a && ltb a (dst + n)) =
              ground arith in
            elim (Bool-cases (leb dst a && ltb a (dst + n))) [
              | inl inside ↦
                  let p : off + chunk n off + (a - (dst + chunk n off)) ≡ off + (a - dst) =
                    ground arith in
                  rw (at, inside, p) refl
              | inr outside ↦ rw (at, outside, out) refl
            ]
      ]

  read_loop_lem :
      (fs : Fs) (ip : Inode) (turns : ℕ) (mem : Mem) (dst off n : ℕ)
      → n ≤ turns
      → off + n ≤ 140 * 512
      → IsFilled fs.cache ip (off + n)
      → (mem' : Mem) × (read_loop sb turns fs ip mem dst off n ≡ some (mem', fs, ip))
        × ((a : ℕ) → mem' a ≡ copied fs.cache ip mem dst off n a)
  unfolding read_loop
  read_loop_lem fs ip zero mem dst off n h top filled = (mem, refl, λ a. ground arith)
  read_loop_lem fs ip (suc turns) mem dst off n h top filled = elim (Bool-cases (n == 0)) [
    | inl z ↦ (mem, rw z refl, λ a. ground arith)
    | inr nz ↦
        let there = filled off (ground arith) in
        let b = bmap-there sb fs ip (off / 512) (ground arith) there in
        let m = chunk n off in
        let mem' = from_block fs.cache (block_of fs.cache ip (off / 512)) (off % 512) mem dst m in
        let (mem'', e, at) =
          read_loop_lem fs ip turns mem' (dst + m) (off + m) (n - m) (ground arith) (ground arith)
            (λ p k. filled p (ground arith)) in
        (mem'', rw (nz, b) e, λ a. at a ∙ join fs.cache ip mem dst off n a (ground arith) top there)
  ]

-- A read copies the bytes of the file from `off` on, as many as there are up to `n`, and no others change.
pub readi_lem :
    (sb : Superblock) (has : ℕ → Bool) (fs : Fs) (ip : Inode) (mem : Mem) (dst off n : ℕ)
    → (ip.type == 3) ≡ false
    → off ≤ ip.size
    → ip.size ≤ 140 * 512
    → off + n < 2 ^ 32
    → IsFilled fs.cache ip ip.size
    → (mem' : Mem) × (readi sb has fs ip mem dst off n
        ≡ some (moved (min n (ip.size - off)), mem', fs, ip))
      × ((a : ℕ) → mem' a ≡ copied sb fs.cache ip mem dst off (min n (ip.size - off)) a)
unfolding readi
readi_lem sb has fs ip mem dst off n file range top fit filled =
    let wrap : (ltb ip.size off || ltb ((off + n) % 2 ^ 32) off) ≡ false = ground arith in
    let n' : (if ltb ip.size ((off + n) % 2 ^ 32) then ip.size - off else n)
        ≡ min n (ip.size - off) =
      ground arith in
    let (mem', e, at) =
      read_loop_lem sb fs ip (min n (ip.size - off)) mem dst off (min n (ip.size - off))
        (omega arith) (ground arith) (λ p h. filled p (ground arith)) in
    (mem', rw (file, wrap, n', e, n') refl, at)
