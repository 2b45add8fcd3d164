-- ===== src/Log/Atomic.antt =====
-- A commit is atomic: wherever the machine stops, recovery gives all of it or nothing of it.
use os_project2_test.Prelude.{
  ℕ, suc, ◌+◌, ◌<◌, ◌≡◌, refl, ap, sym, ◌∙◌, subst, true, false, ◌⊎◌, inl, inr, List, [], ◌∷◌, ◌++◌,
  append_assoc, length, All, arith,
}
use os_project2_test.Log.{
  Block, Disk, put, Io, modify_buf, bwrite, decode, install_trans, write_head, recover_from_log,
  boot, write_log, commit,
}
use os_project2_test.Log.Header.{decode-encode, length-encode}
use os_project2_test.Log.Phases.{
  mem, in_log, updated, SameOutside, recovered, IsAtomic, Homes, Slots, Slots-put,
  install_trans-disk, install_trans-cache, write_log-other, write_log-Slots,
}

module _ (start size : ℕ) (v old : Disk) (bs : List ℕ) (fits : length bs < size)
    (homes : Homes start size v bs) where
  -- Before the header is written: nothing but the slots has changed.
  abbrev Before : Disk → Type 0
  Before d = (d start ≡ old start) × SameOutside start size d old

  -- While the header names the blocks: the slots are full, and each home block is old or new.
  abbrev During : Disk → Type 0
  During d =
      (decode (d start) ≡ bs)
      × Slots start size v d 0 bs
      × ((x : ℕ) → in_log start size x ≡ false → (d x ≡ old x) ⊎ ((mem x bs ≡ true) × (d x ≡ v x)))

  -- After the header is cleared.
  abbrev Done : Disk → Type 0
  Done d = (decode (d start) ≡ []) × SameOutside start size d (updated bs v old)

  abbrev Atomic : Disk → Type 0
  Atomic = IsAtomic start size bs v old

  cleared-recovered :
      (d : Disk) (x : ℕ)
      → in_log start size x ≡ false
      → decode (d start) ≡ []
      → recovered start d x ≡ d x
  unfolding recover_from_log install_trans
  cleared-recovered d x o e = rw e (ground arith)

  Before-Atomic : decode (old start) ≡ [] → (d : Disk) → Before d → Atomic d
  Before-Atomic clear d (head, same) =
      inl λ x o. cleared-recovered d x o (ap decode head ∙ clear) ∙ same x o

  Done-Atomic : (d : Disk) → Done d → Atomic d
  Done-Atomic d (clear, same) = inr λ x o. cleared-recovered d x o clear ∙ same x o

  During-Atomic : (d : Disk) → During d → Atomic d
  unfolding recover_from_log
  During-Atomic d (head, slots, mixed) = inr λ x o. rw head (
      let p = install_trans-disk start size v bs 0 (boot d) x (omega arith) homes slots in
      ground (arith, mixed x o))

  During-put :
      (d : Disk) (b : ℕ)
      → in_log start size b ≡ false
      → mem b bs ≡ true
      → During d
      → During (put d b (v b))
  During-put d b home m (head, slots, mixed) = (
    ap decode (ground arith) ∙ head,
    Slots-put start size v d b (v b) 0 bs (omega arith) (inl home) slots,
    λ x o. ground (arith, mixed x o),
  )

  -- Every state of the disk that the installation passes through is in the second phase.
  install_trans-During :
      (cs : List ℕ) (tail : ℕ) (io : Io)
      → tail + length cs < size
      → Homes start size v cs
      → All (λ b. mem b bs ≡ true) cs
      → Slots start size v io.cache tail cs
      → During io.disk
      → All Atomic io.past
      → All Atomic (install_trans start cs tail io).past
        × During (install_trans start cs tail io).disk
  unfolding install_trans
  install_trans-During [] tail io h hs ms s d past = (past, d)
  install_trans-During (b ∷ cs) tail io h hs ms s d past =
      let w = io.cache (start + tail + 1) in
      let written : put io.cache b w b ≡ v b = ground (arith, s.0) in
      install_trans-During cs (suc tail) (bwrite (modify_buf io b w) b) (omega arith) hs.1 ms.1
        (Slots-put start size v io.cache b w (suc tail) cs (omega arith) (inl hs.0) s.1)
        (subst (λ u. During (put io.disk b u)) (sym written) (During-put io.disk b hs.0 ms.0 d))
        (During-Atomic io.disk d, past)

  -- The states that the writing of the log passes through are in the first phase.
  write_log-Before :
      (cs : List ℕ) (tail : ℕ) (io : Io)
      → tail + length cs < size
      → decode (old start) ≡ []
      → Before io.disk
      → All Atomic io.past
      → All Atomic (write_log start cs tail io).past × Before (write_log start cs tail io).disk
  unfolding write_log
  write_log-Before [] tail io h clear b past = (past, b)
  write_log-Before (c ∷ cs) tail io h clear b past =
      write_log-Before cs (suc tail)
        (bwrite (modify_buf io (start + tail + 1) (io.cache c)) (start + tail + 1)) (omega arith)
        clear (ground arith ∙ b.0, λ x o. ground (arith, b.1 x o))
        (Before-Atomic clear io.disk b, past)

mem_self : (bs cs : List ℕ) → All (λ b. mem b (bs ++ cs) ≡ true) cs
mem_self bs [] = tt
mem_self bs (c ∷ cs) = (
  mem_here bs c cs,
  subst (λ l. All (λ b. mem b l ≡ true) cs) (append_assoc bs (c ∷ []) cs)
      (mem_self (bs ++ c ∷ []) cs),
)
  where
    mem_here : (bs : List ℕ) (c : ℕ) (cs : List ℕ) → mem c (bs ++ c ∷ cs) ≡ true
    mem_here [] c cs = ground arith
    mem_here (b ∷ bs) c cs = ground (arith, mem_here bs c cs)

-- The kernel is about to commit the blocks `bs`: they fit in the log and its header and lie outside
-- the log, the header on disk is clear, and the header block has its 128 words.
pub record IsReady (start size : ℕ) (bs : List ℕ) (io : Io) : Type 0 where
  pub fits : length bs < size
  pub fits_header : length bs < 128
  pub homes : All (λ b. in_log start size b ≡ false) bs
  pub clear : decode (io.disk start) ≡ []
  pub header : length (io.cache start) ≡ 128
  pub no_past : io.past ≡ []

module _ (start size : ℕ) (bs : List ℕ) (io : Io) (r : IsReady start size bs io) where
  abbrev logged : Io
  logged = write_log start bs 0 io

  abbrev headed : Io
  headed = write_head start bs logged

  abbrev installed : Io
  installed = install_trans start bs 0 headed

  abbrev finished : Io
  finished = write_head start [] installed

  abbrev Good : Disk → Type 0
  Good = IsAtomic start size bs io.cache io.disk

  start_in_log : in_log start size start ≡ true
  start_in_log = let h = r.fits in ground arith

  logged-Before :
      All Good logged.past × Before start size io.cache io.disk bs r.fits r.homes logged.disk
  logged-Before =
      write_log-Before start size io.cache io.disk bs r.fits r.homes bs 0 io
        (let h = r.fits in omega arith) r.clear (refl, λ x o. refl)
        (subst (All Good) (sym r.no_past) tt)

  logged_header : length (logged.cache start) ≡ 128
  logged_header =
      ap length
        (write_log-other start size io.cache bs 0 io start (let h = r.fits in omega arith)
          (inr (omega arith))).1
      ∙ r.header

  new_header : (w : Disk) (b : Block) → put w start b start ≡ b
  new_header w b = ground arith

  headed_header : decode (headed.disk start) ≡ bs
  headed_header =
      ap decode (new_header logged.disk _ ∙ new_header logged.cache _)
      ∙ decode-encode (logged.cache start) bs
          (let h = r.fits_header in omega (arith, logged_header))

  logged-Slots :
      Slots start size io.cache logged.disk 0 bs × Slots start size io.cache logged.cache 0 bs
  logged-Slots =
      write_log-Slots start size io.cache bs 0 io (let h = r.fits in omega arith) r.homes
        (λ x o. refl)

  headed-During : During start size io.cache io.disk bs r.fits r.homes headed.disk
  headed-During = (
    headed_header,
    Slots-put start size io.cache logged.disk start _ 0 bs (let h = r.fits in omega arith)
        (inr (omega arith)) logged-Slots.0,
    λ x o. inl (let same = logged-Before.1.1 x o in let here = start_in_log in ground arith),
  )

  installed-During :
      All Good installed.past × During start size io.cache io.disk bs r.fits r.homes installed.disk
  installed-During =
      install_trans-During start size io.cache io.disk bs r.fits r.homes bs 0 headed
        (let h = r.fits in omega arith) r.homes (mem_self [] bs)
        (Slots-put start size io.cache logged.cache start _ 0 bs (let h = r.fits in omega arith)
          (inr (omega arith)) logged-Slots.1)
        headed-During
        (
          Before-Atomic start size io.cache io.disk bs r.fits r.homes r.clear logged.disk
              logged-Before.1,
          logged-Before.0,
        )

  installed_disk :
      (x : ℕ) → in_log start size x ≡ false → installed.disk x ≡ updated bs io.cache io.disk x
  installed_disk x o =
      install_trans-disk start size io.cache bs 0 headed x (let h = r.fits in omega arith) r.homes (
        Slots-put start size io.cache logged.cache start _ 0 bs (let h = r.fits in omega arith)
          (inr (omega arith)) logged-Slots.1)
      ∙ (let same = logged-Before.1.1 x o in let here = start_in_log in ground arith)

  installed_header : length (installed.cache start) ≡ 128
  installed_header =
      ap length (
        install_trans-cache start size io.cache bs 0 headed start start_in_log r.homes
        ∙ new_header logged.cache _)
      ∙ length-encode (logged.cache start) bs
      ∙ logged_header

  finished-Done : Done start size io.cache io.disk bs r.fits r.homes finished.disk
  finished-Done = (
    ap decode (new_header installed.disk _ ∙ new_header installed.cache _)
        ∙ decode-encode (installed.cache start) [] (omega (arith, installed_header)),
    λ x o. let same = installed_disk x o in let here = start_in_log in ground arith,
  )

  finished-Good :
      All Good finished.past
      × Good finished.disk
      × SameOutside start size finished.disk (updated bs io.cache io.disk)
  finished-Good = (
    (
      During-Atomic start size io.cache io.disk bs r.fits r.homes installed.disk installed-During.1,
      installed-During.0,
    ),
    Done-Atomic start size io.cache io.disk bs r.fits r.homes finished.disk finished-Done,
    finished-Done.1,
  )

-- For a transaction that fits in the log and its header, of blocks outside the log, with a clear
-- header on disk: outside the log's own blocks, every state of the disk that `commit` passes
-- through, and the last one, recovers to the disk before the commit or to that disk with every
-- block of the transaction taken from the cache; and the last one has every block updated.
pub commit-IsAtomic :
    (start size : ℕ) (bs : List ℕ) (io : Io)
    → IsReady start size bs io
    → All (IsAtomic start size bs io.cache io.disk) (commit start bs io).past
      × IsAtomic start size bs io.cache io.disk (commit start bs io).disk
      × SameOutside start size (commit start bs io).disk (updated bs io.cache io.disk)
unfolding commit
commit-IsAtomic start size [] io r = (
  subst (All (IsAtomic start size [] io.cache io.disk)) (sym r.no_past) tt,
  Before-Atomic start size io.cache io.disk [] r.fits r.homes r.clear io.disk (refl, λ x o. refl),
  λ x o. refl,
)
commit-IsAtomic start size (b ∷ bs₀) io r = finished-Good start size (b ∷ bs₀) io r
