-- ===== src/Log/Phases.antt =====
-- What each phase of a commit, and recovery, writes to the disk.
use os_project2_test.Prelude.{
  ℕ, suc, ◌+◌, ◌<◌, ◌≤◌, ◌≡◌, refl, ◌∙◌, Bool, true, false, ◌&&◌, ◌||◌, ◌⊎◌, inl, inr, List, [],
  ◌∷◌, ◌==◌, leb, ltb, if◌then◌else◌, length, All, arith,
}
use os_project2_test.Log.{
  Block, Disk, put, Io, modify_buf, bwrite, install_trans, recover_from_log, boot, write_log,
}

abbrev pub mem : ℕ → List ℕ → Bool
mem x [] = false
mem x (b ∷ bs) = b == x || mem x bs

-- Block `x` is one of the `size` blocks of the log.
abbrev pub in_log : ℕ → ℕ → ℕ → Bool
in_log start size x = leb start x && ltb x (start + size)

-- The disk with the blocks `bs` taken from `v`.
abbrev pub updated : List ℕ → Disk → Disk → Disk
updated bs v d x = if mem x bs then v x else d x

-- Outside the log the two disks agree.
abbrev pub SameOutside : ℕ → ℕ → Disk → Disk → Type 0
SameOutside start size d e = (x : ℕ) → in_log start size x ≡ false → d x ≡ e x

-- What the disk is after the machine has started on it and recovered.
abbrev pub recovered : ℕ → Disk → Disk
recovered start d = (recover_from_log start (boot d)).disk

-- Recovery gives the disk `old` with all of the update or none of it.
abbrev pub IsAtomic : ℕ → ℕ → List ℕ → Disk → Disk → Disk → Type 0
IsAtomic start size bs v old d =
    SameOutside start size (recovered start d) old
    ⊎ SameOutside start size (recovered start d) (updated bs v old)

module _ (start size : ℕ) (v : Disk) where
  abbrev pub Homes : List ℕ → Type 0
  Homes = All (λ b. in_log start size b ≡ false)

  -- The log blocks from `tail` on hold the new contents of `cs`.
  abbrev pub Slots : Disk → ℕ → List ℕ → Type 0
  Slots c tail [] = Unit {0}
  Slots c tail (b ∷ cs) = (c (start + tail + 1) ≡ v b) × Slots c (suc tail) cs

  -- A write outside the log, or below the slots, leaves them alone.
  pub Slots-put :
      (c : Disk) (a : ℕ) (w : Block) (tail : ℕ) (cs : List ℕ)
      → tail + length cs < size
      → (in_log start size a ≡ false) ⊎ (a ≤ start + tail)
      → Slots c tail cs
      → Slots (put c a w) tail cs
  Slots-put c a w tail [] h o s = tt
  Slots-put c a w tail (b ∷ cs) h (inl o) s =
      (ground arith, Slots-put c a w (suc tail) cs (omega arith) (inl o) s.1)
  Slots-put c a w tail (b ∷ cs) h (inr o) s =
      (ground arith, Slots-put c a w (suc tail) cs (omega arith) (inr (omega arith)) s.1)

  pub install_trans-disk :
      (cs : List ℕ) (tail : ℕ) (io : Io) (x : ℕ)
      → tail + length cs < size
      → Homes cs
      → Slots io.cache tail cs
      → (install_trans start cs tail io).disk x ≡ updated cs v io.disk x
  unfolding install_trans
  install_trans-disk [] tail io x h homes s = refl
  install_trans-disk (b ∷ cs) tail io x h homes s =
      let w = io.cache (start + tail + 1) in
      install_trans-disk cs (suc tail) (bwrite (modify_buf io b w) b) x (omega arith) homes.1
        (Slots-put io.cache b w (suc tail) cs (omega arith) (inl homes.0) s.1)
      ∙ ground arith

  pub install_trans-cache :
      (cs : List ℕ) (tail : ℕ) (io : Io) (x : ℕ)
      → in_log start size x ≡ true
      → Homes cs
      → (install_trans start cs tail io).cache x ≡ io.cache x
  unfolding install_trans
  install_trans-cache [] tail io x h homes = refl
  install_trans-cache (b ∷ cs) tail io x h homes =
      install_trans-cache cs (suc tail) _ x h homes.1 ∙ ground arith

  -- `write_log` fills the slots, on the disk and in the cache, and changes nothing else.
  pub write_log-other :
      (cs : List ℕ) (tail : ℕ) (io : Io) (x : ℕ)
      → tail + length cs < size
      → (in_log start size x ≡ false) ⊎ (x ≤ start + tail)
      → ((write_log start cs tail io).disk x ≡ io.disk x)
        × ((write_log start cs tail io).cache x ≡ io.cache x)
  unfolding write_log
  write_log-other [] tail io x h o = (refl, refl)
  write_log-other (b ∷ cs) tail io x h (inl o) =
      let ih =
        write_log-other cs (suc tail)
          (bwrite (modify_buf io (start + tail + 1) (io.cache b)) (start + tail + 1)) x
          (omega arith) (inl o) in
      (ih.0 ∙ ground arith, ih.1 ∙ ground arith)
  write_log-other (b ∷ cs) tail io x h (inr o) =
      let ih =
        write_log-other cs (suc tail)
          (bwrite (modify_buf io (start + tail + 1) (io.cache b)) (start + tail + 1)) x
          (omega arith) (inr (omega arith)) in
      (ih.0 ∙ ground arith, ih.1 ∙ ground arith)

  pub write_log-Slots :
      (cs : List ℕ) (tail : ℕ) (io : Io)
      → tail + length cs < size
      → Homes cs
      → ((x : ℕ) → in_log start size x ≡ false → io.cache x ≡ v x)
      → Slots (write_log start cs tail io).disk tail cs
        × Slots (write_log start cs tail io).cache tail cs
  unfolding write_log
  write_log-Slots [] tail io h homes same = (tt, tt)
  write_log-Slots (b ∷ cs) tail io h homes same =
      let next = bwrite (modify_buf io (start + tail + 1) (io.cache b)) (start + tail + 1) in
      let ih =
        write_log-Slots cs (suc tail) next (omega arith) homes.1
          (λ x o. ground (arith, same x o)) in
      let at =
        write_log-other cs (suc tail) next (start + tail + 1) (omega arith) (inr (omega arith)) in
      let new = same b homes.0 in ((at.0 ∙ ground arith, ih.0), (at.1 ∙ ground arith, ih.1))
