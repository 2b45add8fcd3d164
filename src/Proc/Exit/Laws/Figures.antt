-- ===== src/Proc/Exit/Laws/Figures.antt =====
-- From exit through wait to the look-ups: the figures of a finished process.
use os_project2_test.Prelude.{
  ℕ, ◌+◌, ◌<◌, ◌≡◌, ◌≢◌, refl, sym, ◌∙◌, subst, true, false, none, some, List, [], ◌∷◌, ◌++◌, ◌==◌,
  length, All-append, arith, Split, NoneBefore,
}
use os_project2_test.Proc.{Proc, PerfData, Kernel, Call, kfree_page, freevm, perf_of}
use os_project2_test.Proc.Perf.{
  store, find_record, get_creation_time, get_start_time, get_completion_time, get_total_run_time,
  get_total_ready_time,
}
use os_project2_test.Proc.Perf.Laws.{
  used, IsPacked, store-IsPacked, find_record-store, used-store, length-store, get_figures,
}
use os_project2_test.Proc.Exit.Laws.Wait.{is_dead_child, has_room, wait_round-reaps}
use os_project2_test.Proc.Exit.{finalize, cleared, returns, wait_round, exit_figures}

module _ (k : Kernel) (cur : ℕ) (p : Proc) where
  abbrev filed : PerfData
  filed = perf_of (finalize k.ticks p)

  -- The record that `exit` files is found under the process's id, also after more are filed.
  abbrev IsFiled : List PerfData → Type 0
  IsFiled perf = find_record perf p.pid ≡ some filed

  pub exit_figures-IsFiled :
      IsPacked k.perf
      → used k.perf < length k.perf
      → find_record k.perf p.pid ≡ none
      → IsFiled (exit_figures k cur p).perf × IsPacked (exit_figures k cur p).perf
  unfolding exit_figures
  exit_figures-IsFiled packed room fresh = (
    ground
        (arith, find_record-store filed k.perf p.pid refl packed, has_room 0 0 filed k.perf room),
    store-IsPacked filed k.perf refl packed,
  )

  pub store-IsFiled :
      (d : PerfData) (perf : List PerfData)
      → d.valid ≡ true
      → IsPacked perf
      → IsFiled perf
      → IsFiled (store d perf).0
  store-IsFiled d perf v packed h = ground (arith, find_record-store d perf p.pid v packed)

-- A process files its figures in `exit`, in a history with its used entries first, two free ones
-- and none of that id, and later a parent whose first dead child has that id, which no other
-- entry of the table has and which is not 0, calls `wait` on the same history: `wait` returns
-- the id, and in the state that it returns the five look-ups of that id give the figures that
-- were final at the exit.
pub exit_wait_figures :
    (k : Kernel) (cur : ℕ) (p : Proc)
    → IsPacked k.perf
    → used k.perf + 1 < length k.perf
    → find_record k.perf p.pid ≡ none
    → p.pid ≢ 0
    → (k₂ : Kernel) (parent : ℕ) (s : Split (is_dead_child parent) k₂.table)
    → k₂.perf ≡ (exit_figures k cur p).perf
    → s.hit.pid ≡ p.pid
    → NoneBefore (λ (q : Proc). q.pid == p.pid) s.before
    → NoneBefore (λ (q : Proc). q.pid == p.pid) s.after
    → (k₃ : Kernel) × (calls : List Call) × (wait_round k₂ parent ≡ returns p.pid k₃ calls)
      × (get_creation_time k₃ p.pid ≡ p.creation_time)
      × (get_start_time k₃ p.pid ≡ p.start_time)
      × (get_completion_time k₃ p.pid ≡ (finalize k.ticks p).completion_time)
      × (get_total_run_time k₃ p.pid ≡ (finalize k.ticks p).total_run_time)
      × (get_total_ready_time k₃ p.pid ≡ (finalize k.ticks p).total_ready_time)
exit_wait_figures k cur p packed room fresh nonzero k₂ parent s same id before after =
    let (filed_, packed₁) = exit_figures-IsFiled k cur p packed (omega arith) fresh in
    let kept =
      store-IsFiled k cur p last k₂.perf refl (subst IsPacked (sym same) packed₁)
        (subst (IsFiled k cur p) (sym same) filed_) in
    let gone =
      All-append (λ (q : Proc). (q.pid == p.pid) ≡ false) s.before _ before (ground arith, after) in
    let figures = get_figures k₃ p.pid (filed k cur p) kept gone in
    (
      k₃,
      kfree_page s.hit.kstack ∷ freevm s.hit.pgdir ∷ [],
      rw (← id) (wait_round-reaps k₂ parent s room₂),
      figures.0 ∙ ground arith,
      figures.1 ∙ ground arith,
      figures.2,
      figures.3,
      figures.4,
    )
  where
    last : PerfData
    last = perf_of (finalize k₂.ticks s.hit)

    k₃ : Kernel
    k₃ = record k₂ {
      table = s.before ++ cleared (finalize k₂.ticks s.hit) ∷ s.after;
      perf = (store last k₂.perf).0;
    }

    room₁ : used (exit_figures k cur p).perf < length (exit_figures k cur p).perf
    room₁ =
        unfold exit_figures in
        omega (arith, used-store (filed k cur p) k.perf refl, length-store (filed k cur p) k.perf)

    room₂ : used k₂.perf < length k₂.perf
    room₂ = subst (λ t. used t < length t) (sym same) room₁
