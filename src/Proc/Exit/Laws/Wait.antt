-- ===== src/Proc/Exit/Laws/Wait.antt =====
-- wait: what it reaps, and how it stalls once the history of figures is full.
use os_project2_test.Prelude.{
  ℕ, ◌<◌, ◌≡◌, ap, ◌∙◌, Bool, true, false, ◌&&◌, ◌||◌, some, List, [], ◌∷◌, ◌++◌, if◌then◌else◌,
  map, length, arith, get_elem?, get_elem?-map, Split, NoneBefore, Bool-cases, inl, inr, minus_one,
}
use os_project2_test.Proc.{
  Proc, PerfData, Kernel, kfree_page, freevm, at_proc, is_proc, is_zombie, perf_of,
}
use os_project2_test.Proc.Perf.{store}
use os_project2_test.Proc.Perf.Laws.{IsFull, store_full, used, store_succeeds}
use os_project2_test.Proc.Wake.{sleep_enter}
use os_project2_test.Proc.Exit.{
  finalize, cleared, reaped, scanned, wait_scan, returns, sleeps, wait_round,
}

module _ (cur : ℕ) where
  abbrev pub is_child : Proc → Bool
  is_child p = is_proc p.parent cur

  abbrev pub is_dead_child : Proc → Bool
  is_dead_child p = is_proc p.parent cur && is_zombie p.state

  abbrev pub has_child : List Proc → Bool
  has_child [] = false
  has_child (p ∷ ps) = is_child p || has_child ps

module _ (cur ticks : ℕ) where
  -- What a scan with no room in the history does to an entry.
  abbrev pub passed_over : Proc → Proc
  passed_over p = if is_dead_child cur p then finalize ticks p else p

  -- With a full history the scan reaps nothing.
  wait_scan_full :
      (perf : List PerfData) (havekids : Bool) (table : List Proc)
      → IsFull perf
      → wait_scan cur ticks perf havekids table
        ≡ scanned (havekids || has_child cur table) (map passed_over table)
  unfolding wait_scan
  wait_scan_full perf havekids [] full = ground arith
  wait_scan_full perf havekids (p ∷ ps) full = ground (
    arith,
    wait_scan_full perf havekids ps full,
    wait_scan_full perf true ps full,
    store_full (perf_of (finalize ticks p)) perf full,
  )

  -- A scan that finds no dead child changes nothing.
  wait_scan_none :
      (perf : List PerfData) (havekids : Bool) (table : List Proc)
      → NoneBefore (is_dead_child cur) table
      → wait_scan cur ticks perf havekids table ≡ scanned (havekids || has_child cur table) table
  unfolding wait_scan
  wait_scan_none perf havekids [] h = ground arith
  wait_scan_none perf havekids (p ∷ ps) h =
      ground (arith, wait_scan_none perf havekids ps h.1, wait_scan_none perf true ps h.1)

  pub has_room :
      (d : PerfData) (perf : List PerfData) → used perf < length perf → (store d perf).1 ≡ true
  has_room d perf h = elim (Bool-cases (store d perf).1) [
    | inl e ↦ e
    | inr e ↦ absurd (omega (arith, store_succeeds d perf e))
  ]

  wait_scan_split :
      (perf : List PerfData) (havekids : Bool) (before after : List Proc) (p : Proc)
      → NoneBefore (is_dead_child cur) before
      → is_dead_child cur p ≡ true
      → used perf < length perf
      → wait_scan cur ticks perf havekids (before ++ p ∷ after)
        ≡ reaped p.pid
            (before ++ cleared (finalize ticks p) ∷ after)
            (store (perf_of (finalize ticks p)) perf).0
            (kfree_page p.kstack ∷ freevm p.pgdir ∷ [])
  unfolding wait_scan
  wait_scan_split perf havekids [] after p h dead room =
      ground (arith, has_room (perf_of (finalize ticks p)) perf room)
  wait_scan_split perf havekids (q ∷ before) after p h dead room = ground (
    arith,
    wait_scan_split perf havekids before after p h.1 dead room,
    wait_scan_split perf true before after p h.1 dead room,
  )

-- With a free entry in the history, `wait` returns the id of the first dead child, files its
-- figures, frees its stack and page table, clears its entry and leaves the other entries alone.
pub wait_round-reaps :
    (k : Kernel) (cur : ℕ) (s : Split (is_dead_child cur) k.table)
    → used k.perf < length k.perf
    → wait_round k cur
      ≡ returns s.hit.pid
          (record k {
            table = s.before ++ cleared (finalize k.ticks s.hit) ∷ s.after;
            perf = (store (perf_of (finalize k.ticks s.hit)) k.perf).0;
          })
          (kfree_page s.hit.kstack ∷ freevm s.hit.pgdir ∷ [])
unfolding wait_round
wait_round-reaps k cur s room = rw (scan, wait_round)
  where
    scan :
        wait_scan cur k.ticks k.perf false k.table
        ≡ reaped s.hit.pid
            (s.before ++ cleared (finalize k.ticks s.hit) ∷ s.after)
            (store (perf_of (finalize k.ticks s.hit)) k.perf).0
            (kfree_page s.hit.kstack ∷ freevm s.hit.pgdir ∷ [])
    scan =
        ap (wait_scan cur k.ticks k.perf false) s.parts
        ∙ wait_scan_split cur k.ticks k.perf false s.before s.after s.hit s.fails s.passes room

-- With a full history of figures a round of `wait`, by a process that is not killed, reaps
-- nothing: it puts the process to sleep if it has a child, dead or not, and returns -1 if it has
-- none; dead children only have their figures made final.
pub wait_round_full :
    (k : Kernel) (cur : ℕ) (p : Proc)
    → IsFull k.perf
    → get_elem? k.table cur ≡ some p
    → p.killed ≡ false
    → let k' = record k { table = map (passed_over cur k.ticks) k.table } in
      wait_round k cur ≡ (
        if has_child cur k.table
        then sleeps (sleep_enter k' cur (at_proc cur))
        else returns minus_one k' [])
unfolding wait_round
wait_round_full k cur p full e alive = ground (
  arith,
  wait_scan_full cur k.ticks k.perf false k.table full,
  get_elem?-map (passed_over cur k.ticks) cur k.table e,
)
