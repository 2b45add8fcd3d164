-- ===== src/Sysfile/Counts/Trace.antt =====
-- Calls of several processes, in any order.
use os_project2_test.Prelude.{
  ℕ, ◌+◌, ◌^◌, ◌≡◌, ◌<◌, refl, sym, ap, ◌∙◌, subst, Bool, Option, none, some, List, [], ◌∷◌, ◌++◌,
  length, arith, ◌≢◌,
}
use os_project2_test.File.{File, Closing}
use os_project2_test.File.Refs.{ref_at}
use os_project2_test.Sysfile.{Ofile, World, Node, sys_dup, sys_close, sys_pipe, open_node, dup_all}
use os_project2_test.Sysfile.Counts.{uses, uses_all, slots, IsCounted, uses-le, uses_all-le}
use os_project2_test.Sysfile.Counts.Calls.{sys_dup-IsCounted, sys_close-IsCounted}
use os_project2_test.Sysfile.Counts.Open.{sys_pipe-IsCounted, open_node-IsCounted, dup_all-Holds}

-- Calls on descriptors by the process that runs, forks that copy its descriptors while there are fewer
-- than 2^31 - 2 in all, and switches to another process.
pub data Calls (w : World) : World → Type 0 where
  start : Calls w w
  dups :
      {w₁ w₂ : World} (arg : Option ℕ) (r : ℕ)
      → Calls w w₁
      → sys_dup w₁ arg ≡ some (r, w₂)
      → Calls w w₂
  closes :
      {w₁ w₂ : World} (arg : Option ℕ) (r : ℕ) (c : Closing)
      → Calls w w₁
      → sys_close w₁ arg ≡ some (r, c, w₂)
      → Calls w w₂
  pipes :
      {w₁ w₂ : World} (args : Bool) (page : Option ℕ) (made : Option (ℕ × ℕ)) (cs : List Closing)
      → Calls w w₁
      → sys_pipe w₁ args page ≡ some (made, cs, w₂)
      → Calls w w₂
  opens :
      {w₁ w₂ : World} (omode : ℕ) (node : Option Node) (r : ℕ) (put : List ℕ)
      → Calls w w₁
      → open_node w₁ omode node ≡ some (r, put, w₂)
      → Calls w w₂
  forks :
      {w₁ : World} (files : List File)
      → Calls w w₁
      → dup_all w₁.ofile w₁.files ≡ some files
      → length w₁.ofile + (length w₁.ofile + slots w₁.others) + 2 < 2 ^ 31
      → Calls w (record w₁ { others = w₁.ofile ∷ w₁.others; files = files })
  switches :
      {w₁ : World} (before after : List Ofile) (o : Ofile)
      → Calls w w₁
      → w₁.others ≡ before ++ o ∷ after
      → Calls w (record w₁ { ofile = o; others = w₁.ofile ∷ before ++ after })

uses_all-middle :
    (i : ℕ) (o : Ofile) (before after : List Ofile)
    → uses_all i (before ++ o ∷ after) ≡ uses i o + uses_all i (before ++ after)
unfolding uses_all
uses_all-middle i o [] after = refl
uses_all-middle i o (b ∷ before) after = omega (arith, uses_all-middle i o before after)

slots-middle :
    (o : Ofile) (before after : List Ofile)
    → slots (before ++ o ∷ after) ≡ length o + slots (before ++ after)
unfolding slots
slots-middle o [] after = refl
slots-middle o (b ∷ before) after = omega (arith, slots-middle o before after)

fork-IsCounted :
    (w : World) (files : List File)
    → IsCounted w
    → dup_all w.ofile w.files ≡ some files
    → length w.ofile + (length w.ofile + slots w.others) + 2 < 2 ^ 31
    → IsCounted (record w { others = w.ofile ∷ w.others; files = files })
unfolding uses_all slots
fork-IsCounted w files h e few =
    let (t, e', h') =
      dup_all-Holds w.ofile w.files (λ i. uses i w.ofile + uses_all i w.others) h.counts
        (λ f. omega arith) (λ f. omega (arith, few, uses-le f w.ofile, uses_all-le f w.others)) in
    let same : t ≡ files = cc in
    record { counts = λ i. ap (λ u. ref_at u i) (sym same) ∙ omega (arith, h' i); few = few }

switch-IsCounted :
    (w : World) (before after : List Ofile) (o : Ofile)
    → IsCounted w
    → w.others ≡ before ++ o ∷ after
    → IsCounted (record w { ofile = o; others = w.ofile ∷ before ++ after })
unfolding uses_all slots
switch-IsCounted w before after o h e = record {
  counts = λ i. omega (arith, h.counts i, ap (uses_all i) e, uses_all-middle i o before after);
  few = let k = h.few in omega (arith, k, ap slots e, slots-middle o before after);
}

-- If each open file's count is the number of descriptors that stand for it in all processes,
-- fewer than 2^31 - 2 descriptors in all, it is so after any calls of `sys_dup`, `sys_close`,
-- `sys_pipe` and the part of `sys_open` behind the path, on any arguments, forks and switches
-- between processes.
pub Calls-IsCounted : {w w' : World} → Calls w w' → IsCounted w → IsCounted w'
Calls-IsCounted start h = h
Calls-IsCounted (dups {w₁} {w₂} arg r u e) h =
    let (r', w', e', k) = sys_dup-IsCounted w₁ arg (Calls-IsCounted u h) in
    let same : w' ≡ w₂ = cc in subst IsCounted same k
Calls-IsCounted (closes {w₁} {w₂} arg r c u e) h =
    let (r', c', w', e', k) = sys_close-IsCounted w₁ arg (Calls-IsCounted u h) in
    let same : w' ≡ w₂ = cc in subst IsCounted same k
Calls-IsCounted (pipes {w₁} {w₂} args page made cs u e) h =
    let (made', cs', w', e', k) = sys_pipe-IsCounted w₁ args page (Calls-IsCounted u h) in
    let same : w' ≡ w₂ = cc in subst IsCounted same k
Calls-IsCounted (opens {w₁} {w₂} omode node r put u e) h =
    let (r', put', w', e', k) = open_node-IsCounted w₁ omode node (Calls-IsCounted u h) in
    let same : w' ≡ w₂ = cc in subst IsCounted same k
Calls-IsCounted (forks {w₁} files u e few) h = fork-IsCounted w₁ files (Calls-IsCounted u h) e few
Calls-IsCounted (switches {w₁} before after o u e) h =
    switch-IsCounted w₁ before after o (Calls-IsCounted u h) e

-- If each open file's count is the number of descriptors that stand for it in all processes,
-- fewer than 2^31 - 2 descriptors in all, then after any calls on descriptors, forks and
-- switches neither `filedup` nor `fileclose` panics in `sys_dup`, `sys_close`, `sys_pipe` or,
-- behind the path, in `sys_open`, on any arguments; what they call of inodes (`iput`, and
-- `namei`, `create` and `ilock` before that part) is left out.
pub Calls-no_panic :
    {w w' : World}
    → Calls w w'
    → IsCounted w
    → ((arg : Option ℕ) → sys_dup w' arg ≢ none)
      × ((arg : Option ℕ) → sys_close w' arg ≢ none)
      × ((args : Bool) (page : Option ℕ) → sys_pipe w' args page ≢ none)
      × ((omode : ℕ) (node : Option Node) → open_node w' omode node ≢ none)
Calls-no_panic {w} {w'} u h =
    let k = Calls-IsCounted u h in
    (
      λ arg e. let (a, b, e', c) = sys_dup-IsCounted w' arg k in cc,
      λ arg e. let (a, b, c, e', d) = sys_close-IsCounted w' arg k in cc,
      λ args page e. let (a, b, c, e', d) = sys_pipe-IsCounted w' args page k in cc,
      λ omode node e. let (a, b, c, e', d) = open_node-IsCounted w' omode node k in cc,
    )
