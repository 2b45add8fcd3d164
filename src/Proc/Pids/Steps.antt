-- ===== src/Proc/Pids/Steps.antt =====
-- The ids through allocproc, fork and exit.
use os_project2_test.Prelude.{
  ℕ, ◌+◌, ◌<◌, ◌≡◌, ◌^◌, refl, sym, subst, true, false, Option, none, some, List, ◌==◌, modify,
  arith, get_elem?, Bool-cases, Option-cases, inl, inr, find_index, add32, get_elem?-modify_self,
  zero, suc,
}
use os_project2_test.Proc.{Proc, Kernel, Call, at_proc, is_unused}
use os_project2_test.Proc.Pids.{
  IsValid, Steady, Steady-IsValid, Steady-modify, Steady-map, Steady-refl, Steady-trans,
  Steady-modify_at, Below, modify-Distinct, modify-Below, is_steady,
}
use os_project2_test.Proc.Alloc.{
  allocproc, start_embryo, give_stack, populate, fork, fork_rest, fork_into,
}
use os_project2_test.Proc.Alloc.Laws.{is_free, find_index-get}
use os_project2_test.Proc.Wake.{wake_one, wakeup1}
use os_project2_test.Proc.Exit.{adopt, adopt_from}
use os_project2_test.Proc.Exit.Laws.{adopt-cases, given}

module _ (k : Kernel) (page : Option ℕ) (bound : k.nextpid + 1 < 2 ^ 32) (v : IsValid k) where
  allocated-IsValid :
      (i : ℕ)
      → IsValid (record k {
        table = modify i (start_embryo k.nextpid k.ticks) k.table;
        nextpid = add32 k.nextpid 1;
      })
  allocated-IsValid i = record {
    distinct =
        modify-Distinct (start_embryo k.nextpid k.ticks) k.nextpid (λ p. refl) i k.table v.below
          v.distinct;
    below =
        let e : k.nextpid + 1 ≡ add32 k.nextpid 1 = omega arith in
        subst (λ n. Below n (modify i (start_embryo k.nextpid k.ticks) k.table)) e
          (modify-Below (start_embryo k.nextpid k.ticks) k.nextpid (λ p. refl) i k.table v.below);
  }

  -- `allocproc` keeps the ids apart while `nextpid` does not go round.
  pub allocproc-IsValid : IsValid (allocproc k page).1
  unfolding allocproc
  allocproc-IsValid = elim (Option-cases (find_index is_free k.table)) [
    | inl e ↦ rw (e, allocproc) v
    | inr (i, e) ↦
        let (p, here, free) = find_index-get is_free k.table i e in
        rw (e, allocproc)
          (Steady-IsValid _ _ refl
            (Steady-modify_at i (give_stack page) _ _
              (get_elem?-modify_self i (start_embryo k.nextpid k.ticks) k.table here)
              (stack page p))
            (allocated-IsValid i))
  ]
    where
      stack :
          (page : Option ℕ) (p : Proc)
          → let q = start_embryo k.nextpid k.ticks p in is_steady q (give_stack page q) ≡ true
      stack none p = refl
      stack (some a) p = ground arith

-- What holds of the kernel after a `fork` that comes to an end.
abbrev pub AfterFork : (Kernel → Type 0) → Option (ℕ × Kernel × List Call) → Type 0
AfterFork P none = Unit {0}
AfterFork P (some (pid, k, calls)) = P k

abbrev InUse : Kernel → Option ℕ → Type 0
InUse k none = Unit {0}
InUse k (some i) = (p : Proc) → get_elem? k.table i ≡ some p → is_unused p.state ≡ false

populate-IsValid :
    (k : Kernel) (cur i pgdir : ℕ) (parent child : Proc)
    → get_elem? k.table i ≡ some child
    → is_unused child.state ≡ false
    → IsValid k
    → IsValid (populate k cur i parent child pgdir).1
populate-IsValid k cur i pgdir parent child e used v = elim (Bool-cases (pgdir == 0)) [
  | inl z ↦ rw z (Steady-IsValid k _ refl (Steady-modify i _ k.table (λ p. refl)) v)
  | inr n ↦ rw n (Steady-IsValid k _ refl (Steady-modify_at i _ k.table child e (ground arith)) v)
]

fork_into-IsValid :
    (k : Kernel) (cur i pgdir : ℕ) (parent child : Option Proc)
    → get_elem? k.table i ≡ child
    → InUse k (some i)
    → IsValid k
    → AfterFork IsValid (fork_into k cur i pgdir parent child)
fork_into-IsValid k cur i pgdir none child e u v = tt
fork_into-IsValid k cur i pgdir (some parent) none e u v = tt
fork_into-IsValid k cur i pgdir (some parent) (some child) e u v =
    populate-IsValid k cur i pgdir parent child e (u child e) v

fork_rest-IsValid :
    (k : Kernel) (cur pgdir : ℕ) (c : Option ℕ)
    → InUse k c
    → IsValid k
    → AfterFork IsValid (fork_rest k cur pgdir c)
fork_rest-IsValid k cur pgdir none u v = v
fork_rest-IsValid k cur pgdir (some i) u v = fork_into-IsValid k cur i pgdir _ _ refl u v

allocproc-InUse : (k : Kernel) (page : Option ℕ) → InUse (allocproc k page).1 (allocproc k page).0
unfolding allocproc
allocproc-InUse k page = elim (Option-cases (find_index is_free k.table)) [
  | inl e ↦ rw (e, allocproc) tt
  | inr (i, e) ↦ rw (e, allocproc) (started page i (find_index-get is_free k.table i e))
]
  where
    started :
        (page : Option ℕ) (i : ℕ)
        → (p : Proc) × (get_elem? k.table i ≡ some p) × (is_unused p.state ≡ true)
        → InUse
            (record k {
              table =
                  modify i (give_stack page) (modify i (start_embryo k.nextpid k.ticks) k.table);
              nextpid = add32 k.nextpid 1;
            })
            (elim page [ none ↦ none | some _ ↦ some i ])
    started none i found = tt
    started (some a) i (p, here, free) = λ q e. ground (
      arith,
      get_elem?-modify_self i (give_stack (some a)) _
          (get_elem?-modify_self i (start_embryo k.nextpid k.ticks) k.table here),
    )

pub fork-IsValid :
    (k : Kernel) (cur : ℕ) (page : Option ℕ) (pgdir : ℕ)
    → k.nextpid + 1 < 2 ^ 32
    → IsValid k
    → AfterFork IsValid (fork k cur page pgdir)
unfolding fork
fork-IsValid k cur page pgdir bound v =
    fork_rest-IsValid (allocproc k page).1 cur pgdir (allocproc k page).0 (allocproc-InUse k page)
      (allocproc-IsValid k page bound v)

adopt-Steady :
    (cur init ticks i : ℕ) (table : List Proc) → Steady table (adopt cur init ticks i table)
unfolding wakeup1
adopt-Steady cur init ticks i table = elim (adopt-cases cur init ticks i table) [
  | inl (e, _) ↦ subst (Steady table) (sym e) (Steady-refl table)
  | inr (inl e) ↦ subst (Steady table) (sym e) (renamed (given cur init ticks i table) refl)
  | inr (inr e) ↦ subst (Steady table) (sym e) (
      Steady-trans table (given cur init ticks i table) _ (renamed _ refl) (
        Steady-map (wake_one (at_proc init) ticks) (given cur init ticks i table)
          λ p. ground arith))
]
  where
    renamed : (t : List Proc) → t ≡ given cur init ticks i table → Steady table t
    renamed t e = subst (Steady table) (sym e) (Steady-modify i _ table λ p. ground arith)

pub adopt_from-Steady :
    (cur init ticks n i : ℕ) (table : List Proc)
    → Steady table (adopt_from cur init ticks n i table)
unfolding adopt_from
adopt_from-Steady cur init ticks zero i table = Steady-refl table
adopt_from-Steady cur init ticks (suc n) i table =
    Steady-trans table (adopt cur init ticks i table) _ (adopt-Steady cur init ticks i table)
      (adopt_from-Steady cur init ticks n (suc i) (adopt cur init ticks i table))
