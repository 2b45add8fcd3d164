-- ===== src/Proc/Exit/Laws.antt =====
-- exit: what it leaves behind in the process table and in the history.
pub mod Wait
pub mod Figures
use os_project2_test.Prelude.{
  ℕ, zero, suc, ◌≤◌, ◌<◌, ◌≡◌, ◌≢◌, refl, Bool, true, false, not, ◌&&◌, Option, none, some, List,
  [], ◌∷◌, ◌++◌, ◌==◌, if◌then◌else◌, modify, length, length-modify, All, All-modify, AllBelow,
  AllBelow-modify, AllBelow-suc, AllBelow-All, arith, get_elem?, get_elem?-modify_self, Bool-cases,
  Option-cases, inl, inr, ◌+◌, ap, sym, subst, ◌∙◌, ◌⊎◌, get_elem?-some, get_elem?-lt,
}
use os_project2_test.Proc.{
  Proc, Kernel, Chan, at_proc, chan_of, is_proc, State, zombie, is_zombie, in_sched,
}
use os_project2_test.Proc.Wake.{wake_one, wakeup1}
use os_project2_test.Proc.Wake.Laws.{
  IsAwake, wake_one-IsAwake, wakeup1-IsAwake, wakeup1-All, wakeup1-AllBelow, length-wakeup1,
}
use os_project2_test.Proc.Exit.{adopt, adopt_from, exit_family}

module _ (cur init ticks : ℕ) where
  abbrev pub NotChild : Proc → Type 0
  NotChild p = is_proc p.parent cur ≡ false

  abbrev pub given : ℕ → List Proc → List Proc
  given i table = modify i (λ q. record q { parent = some init }) table

  -- A round leaves the table alone, gives a child a new parent, or also wakes that parent.
  pub adopt-cases :
      (i : ℕ) (table : List Proc)
      → ((adopt cur init ticks i table ≡ table)
          × ((p : Proc) → get_elem? table i ≡ some p → NotChild p))
        ⊎ (adopt cur init ticks i table ≡ given i table)
        ⊎ (adopt cur init ticks i table ≡ wakeup1 (at_proc init) ticks (given i table))
  adopt-cases i table = elim (Option-cases (get_elem? table i)) [
    | inl e ↦ inl (ground arith, λ p h. cc)
    | inr (p, e) ↦ elim (Bool-cases (is_proc p.parent cur)) [
      | inl child ↦ elim (Bool-cases (is_zombie p.state)) [
        | inl z ↦ inr (inr (ground arith))
        | inr z ↦ inr (inl (ground arith))
      ]
      | inr n ↦ inl (ground arith, λ q h. ground arith)
    ]
  ]

  length-adopt : (i : ℕ) (table : List Proc) → length (adopt cur init ticks i table) ≡ length table
  length-adopt i table = elim (adopt-cases i table) [
    | inl (e, _) ↦ ap length e
    | inr (inl e) ↦ ap length e ∙ length-modify i _ table
    | inr (inr e) ↦
        ap length e ∙ length-wakeup1 (at_proc init) ticks (given i table) ∙ length-modify i _ table
  ]

  pub length-adopt_from :
      (n i : ℕ) (table : List Proc) → length (adopt_from cur init ticks n i table) ≡ length table
  unfolding adopt_from
  length-adopt_from zero i table = refl
  length-adopt_from (suc n) i table =
      length-adopt_from n (suc i) (adopt cur init ticks i table) ∙ length-adopt i table

  -- A property of processes that a new parent and waking up keep.
  module _ (P : Proc → Type 0) (parent : (p : Proc) → P p → P (record p { parent = some init }))
      (wake : (p : Proc) → P p → P (wake_one (at_proc init) ticks p)) where
    adopt-All : (i : ℕ) (table : List Proc) → All P table → All P (adopt cur init ticks i table)
    adopt-All i table h = elim (adopt-cases i table) [
      | inl (e, _) ↦ subst (All P) (sym e) h
      | inr (inl e) ↦ subst (All P) (sym e) (All-modify P i _ table parent h)
      | inr (inr e) ↦ subst (All P) (sym e) (
          wakeup1-All P (at_proc init) ticks (given i table) wake (All-modify P i _ table parent h))
    ]

    pub adopt_from-All :
        (n i : ℕ) (table : List Proc) → All P table → All P (adopt_from cur init ticks n i table)
    unfolding adopt_from
    adopt_from-All zero i table h = h
    adopt_from-All (suc n) i table h = adopt_from-All n (suc i) _ (adopt-All i table h)

  module _ (other : init ≢ cur) where
    new_parent : (p : Proc) → NotChild (record p { parent = some init })
    new_parent p = ground arith

    adopt-NotChild :
        (i : ℕ) (table : List Proc)
        → AllBelow NotChild i table
        → AllBelow NotChild (suc i) (adopt cur init ticks i table)
    adopt-NotChild i table h = elim (adopt-cases i table) [
      | inl (e, n) ↦ subst (AllBelow NotChild (suc i)) (sym e) (AllBelow-suc NotChild i table n h)
      | inr (inl e) ↦
          subst (AllBelow NotChild (suc i)) (sym e)
            (AllBelow-modify NotChild _ i table new_parent h)
      | inr (inr e) ↦ subst (AllBelow NotChild (suc i)) (sym e) (
          wakeup1-AllBelow NotChild (at_proc init) ticks (suc i) (given i table)
            (λ p q. ground arith) (AllBelow-modify NotChild _ i table new_parent h))
    ]

    pub adopt_from-NotChild :
        (n i : ℕ) (table : List Proc)
        → AllBelow NotChild i table
        → length table ≤ i + n
        → All NotChild (adopt_from cur init ticks n i table)
    unfolding adopt_from
    adopt_from-NotChild zero i table h l = AllBelow-All NotChild i table (omega arith) h
    adopt_from-NotChild (suc n) i table h l =
        adopt_from-NotChild n (suc i) _ (adopt-NotChild i table h)
          (omega (arith, length-adopt i table))

-- What `exit` leaves in the process table.
pub record Left (k k' : Kernel) (cur : ℕ) (p : Proc) : Type 0 where
  -- The process is a zombie,
  pub dead : (q : Proc) × (get_elem? k'.table cur ≡ some q) × (q.state ≡ zombie)
  -- no process has it for a parent,
  pub no_children : All (λ q. is_proc q.parent cur ≡ false) k'.table
  -- its parent does not sleep in `wait`, and the table has as many entries as before.
  pub parent_awake : All (IsAwake (chan_of p.parent)) k'.table
  pub same_length : length k'.table ≡ length k.table

-- The last part of `exit`, for an entry other than init's, leaves the entry a zombie, no entry
-- with it for a parent, nobody asleep on its parent's channel, and as many entries as before.
pub exit_family-Left :
    (k : Kernel) (cur : ℕ) (p : Proc)
    → get_elem? k.table cur ≡ some p
    → k.initproc ≢ cur
    → (k' : Kernel) × (exit_family k cur ≡ some k') × Left k k' cur p
unfolding exit_family
exit_family-Left k cur p e other = (
  record k { table = modify cur die inner },
  ground arith,
  record {
    dead =
        let (q, f) =
          get_elem?-some cur inner (omega (arith, inner_length, get_elem?-lt cur k.table e)) in
        (die q, get_elem?-modify_self cur die inner f, refl);
    no_children =
        All-modify _ cur die inner (λ q h. h)
          (adopt_from-NotChild cur k.initproc k.ticks other (length k.table) 0 woken tt
            (omega (arith, length-wakeup1 (chan_of p.parent) k.ticks k.table)));
    parent_awake =
        All-modify _ cur die inner (λ q h. refl)
          (adopt_from-All cur k.initproc k.ticks (IsAwake (chan_of p.parent)) (λ q h. h)
            (λ q h. wake_one-IsAwake (chan_of p.parent) (at_proc k.initproc) k.ticks q h)
            (length k.table) 0 woken (wakeup1-IsAwake (chan_of p.parent) k.ticks k.table));
    same_length = length-modify cur die inner ∙ inner_length;
  },
)
  where
    woken : List Proc
    woken = wakeup1 (chan_of p.parent) k.ticks k.table

    inner : List Proc
    inner = adopt_from cur k.initproc k.ticks (length k.table) 0 woken

    die : Proc → Proc
    die q = record q { state = zombie; context = in_sched }

    inner_length : length inner ≡ length k.table
    inner_length =
        length-adopt_from cur k.initproc k.ticks (length k.table) 0 woken
        ∙ length-wakeup1 (chan_of p.parent) k.ticks k.table
