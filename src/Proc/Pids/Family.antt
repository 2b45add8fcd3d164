-- ===== src/Proc/Pids/Family.antt =====
-- What exit and wait, and writes to an entry in use, do to the ids.
use os_project2_test.Prelude.{
  ℕ, ◌≡◌, refl, sym, subst, Bool, true, false, not, ◌&&◌, ◌||◌, Option, none, some, List, [], ◌∷◌,
  ◌==◌, if◌then◌else◌, if_both, modify, length, arith, get_elem?, get_elem?-map, get_elem?-modify,
  inl, inr, minus_one, zero, suc,
}
use os_project2_test.Proc.{
  Proc, PerfData, Kernel, Chan, kfree_page, freevm, at_proc, chan_of, is_proc, is_unused, is_zombie,
  zombie, in_sched, perf_of,
}
use os_project2_test.Proc.Perf.{store}
use os_project2_test.Proc.Pids.{
  IsValid, Steady, Steady-IsValid, Steady-map, Steady-refl, Steady-trans, Steady-modify_at,
}
use os_project2_test.Proc.Pids.Steps.{adopt_from-Steady}
use os_project2_test.Proc.Wake.{wake_one, wakeup1, sleep_enter, fall_asleep}
use os_project2_test.Proc.Exit.{
  adopt_from, exit_family, finalize, Scan, reaped, scanned, after, cleared, wait_scan, wait_end,
  Waited, returns, sleeps, bad_process, wait_round,
}
use os_project2_test.Proc.Exit.Laws.{adopt-cases, given}

-- Entry `i` is in use.
abbrev pub InUseAt : ℕ → List Proc → Type 0
InUseAt i table = (p : Proc) × (get_elem? table i ≡ some p) × (is_unused p.state ≡ false)

wakeup1-InUseAt :
    (chan : Chan) (ticks i : ℕ) (table : List Proc)
    → InUseAt i table
    → InUseAt i (wakeup1 chan ticks table)
unfolding wakeup1
wakeup1-InUseAt chan ticks i table (p, e, u) =
    (wake_one chan ticks p, get_elem?-map (wake_one chan ticks) i table e, ground arith)

given-InUseAt :
    (cur init ticks j i : ℕ) (table : List Proc)
    → InUseAt i table
    → InUseAt i (given cur init ticks j table)
given-InUseAt cur init ticks j i table (p, e, u) =
    elim (get_elem?-modify j i (λ (q : Proc). record q { parent = some init }) table e) [
      | inl same ↦ (p, same, u)
      | inr new ↦ (record p { parent = some init }, new, u)
    ]

adopt_from-InUseAt :
    (cur init ticks n j i : ℕ) (table : List Proc)
    → InUseAt i table
    → InUseAt i (adopt_from cur init ticks n j table)
unfolding adopt_from
adopt_from-InUseAt cur init ticks zero j i table u = u
adopt_from-InUseAt cur init ticks (suc n) j i table u =
    adopt_from-InUseAt cur init ticks n (suc j) i _ (elim (adopt-cases cur init ticks j table) [
      | inl (e, _) ↦ subst (InUseAt i) (sym e) u
      | inr (inl e) ↦ subst (InUseAt i) (sym e) (given-InUseAt cur init ticks j i table u)
      | inr (inr e) ↦
          subst (InUseAt i) (sym e)
            (wakeup1-InUseAt (at_proc init) ticks i _ (given-InUseAt cur init ticks j i table u))
    ])

-- A write to an entry in use, which leaves its id alone.
pub used-Steady :
    (i : ℕ) (f : Proc → Proc) (table : List Proc)
    → InUseAt i table
    → ((p : Proc) → (f p).pid ≡ p.pid)
    → Steady table (modify i f table)
used-Steady i f table (p, e, u) same = Steady-modify_at i f table p e (ground (arith, same p))

-- What holds of the kernel after an operation that comes to an end.
abbrev pub After : (Kernel → Type 0) → Option Kernel → Type 0
After P none = Unit {0}
After P (some k) = P k

pub exit_family-IsValid :
    (k : Kernel) (cur : ℕ) → InUseAt cur k.table → IsValid k → After IsValid (exit_family k cur)
unfolding exit_family
exit_family-IsValid k cur (p, e, u) v = rw (e, exit_family) (Steady-IsValid k _ refl all v)
  where
    woken : List Proc
    woken = wakeup1 (chan_of p.parent) k.ticks k.table

    inner : List Proc
    inner = adopt_from cur k.initproc k.ticks (length k.table) 0 woken

    first : Steady k.table woken
    first =
        unfold wakeup1 in Steady-map (wake_one (chan_of p.parent) k.ticks) k.table λ q. ground arith

    all : Steady k.table (modify cur (λ q. record q { state = zombie; context = in_sched }) inner)
    all = Steady-trans k.table woken _ first (
        Steady-trans woken inner _
          (adopt_from-Steady cur k.initproc k.ticks (length k.table) 0 woken)
          (used-Steady cur _ inner
            (adopt_from-InUseAt cur k.initproc k.ticks (length k.table) 0 cur woken
              (wakeup1-InUseAt (chan_of p.parent) k.ticks cur k.table (p, e, u)))
            λ q. refl))

-- The same entries in use, under the same ids.
abbrev is_kept : Proc → Proc → Bool
is_kept p q =
    (if is_unused p.state then is_unused q.state else not (is_unused q.state)) && q.pid == p.pid

abbrev Kept : List Proc → List Proc → Type 0
Kept [] [] = Unit {0}
Kept (p ∷ ps) (q ∷ qs) = (is_kept p q ≡ true) × Kept ps qs
Kept _ _ = ⊥

Kept-Steady : (ps qs : List Proc) → Kept ps qs → Steady ps qs
Kept-Steady [] [] h = tt
Kept-Steady [] (q ∷ qs) h = absurd h
Kept-Steady (p ∷ ps) [] h = absurd h
Kept-Steady (p ∷ ps) (q ∷ qs) h = (ground arith, Kept-Steady ps qs h.1)

Kept-InUseAt : (i : ℕ) (ps qs : List Proc) → Kept ps qs → InUseAt i ps → InUseAt i qs
Kept-InUseAt i [] qs h (p, e, u) = cc
Kept-InUseAt i (x ∷ ps) [] h u = absurd h
Kept-InUseAt zero (x ∷ ps) (q ∷ qs) h (p, e, u) = (q, refl, ground arith)
Kept-InUseAt (suc i) (x ∷ ps) (q ∷ qs) h u = Kept-InUseAt i ps qs h.1 u

-- A scan of `wait` that reaps nothing keeps every entry; one that does keeps ids apart.
abbrev ScanSteady : List Proc → Scan → Type 0
ScanSteady ps (reaped pid table perf calls) = Steady ps table
ScanSteady ps (scanned havekids table) = Kept ps table

after-Steady :
    (p q : Proc) (ps : List Proc) (r : Scan)
    → is_kept p q ≡ true
    → ScanSteady ps r
    → ScanSteady (p ∷ ps) (after q r)
after-Steady p q ps (reaped pid table perf calls) h s = (ground arith, s)
after-Steady p q ps (scanned havekids table) h s = (h, s)

finalize_kept : (ticks : ℕ) (p : Proc) → is_kept p (finalize ticks p) ≡ true
finalize_kept ticks p = ground arith

wait_scan-Steady :
    (cur ticks : ℕ) (perf : List PerfData) (havekids : Bool) (table : List Proc)
    → ScanSteady table (wait_scan cur ticks perf havekids table)
unfolding wait_scan
wait_scan-Steady cur ticks perf havekids [] = tt
wait_scan-Steady cur ticks perf havekids (p ∷ ps) =
    if_both Q (not (is_proc p.parent cur)) skip (if not (is_zombie p.state) then alive else last)
      (λ _. after-Steady p p ps _ (ground arith) (wait_scan-Steady cur ticks perf havekids ps))
      λ _.
        if_both Q (not (is_zombie p.state)) alive last
          (λ _. after-Steady p p ps _ (ground arith) (wait_scan-Steady cur ticks perf true ps))
          λ _.
            if_both Q (not filed.1) stuck clean
              (λ _.
                after-Steady p (finalize ticks p) ps _ (finalize_kept ticks p)
                  (wait_scan-Steady cur ticks perf true ps))
              λ _. (refl, Steady-refl ps)
  where
    Q : Scan → Type 0
    Q = ScanSteady (p ∷ ps)

    filed : List PerfData × Bool
    filed = store (perf_of (finalize ticks p)) perf

    skip : Scan
    skip = after p (wait_scan cur ticks perf havekids ps)

    alive : Scan
    alive = after p (wait_scan cur ticks perf true ps)

    stuck : Scan
    stuck = after (finalize ticks p) (wait_scan cur ticks perf true ps)

    clean : Scan
    clean =
        reaped p.pid (cleared (finalize ticks p) ∷ ps) filed.0
          (kfree_page p.kstack ∷ freevm p.pgdir ∷ [])

    last : Scan
    last = if not filed.1 then stuck else clean

-- After a round of `wait`.
abbrev pub AfterWait : (Kernel → Type 0) → Waited → Type 0
AfterWait P (returns pid k calls) = P k
AfterWait P (sleeps k) = P k
AfterWait P bad_process = Unit {0}

pub asleep-IsValid :
    (k : Kernel) (cur : ℕ) (chan : Chan)
    → InUseAt cur k.table
    → IsValid k
    → IsValid (sleep_enter k cur chan)
unfolding sleep_enter
asleep-IsValid k cur chan u v =
    Steady-IsValid k _ refl (used-Steady cur (fall_asleep chan k.ticks) k.table u λ p. ground arith)
      v

pub wait_round-IsValid :
    (k : Kernel) (cur : ℕ) → InUseAt cur k.table → IsValid k → AfterWait IsValid (wait_round k cur)
unfolding wait_round
wait_round-IsValid k cur u v =
    ended (wait_scan cur k.ticks k.perf false k.table)
      (wait_scan-Steady cur k.ticks k.perf false k.table)
  where
    ended : (r : Scan) → ScanSteady k.table r → AfterWait IsValid (wait_end k cur r)
    ended (reaped pid table perf calls) s = Steady-IsValid k _ refl s v
    ended (scanned havekids table) s =
        let (q, e, used) = Kept-InUseAt cur k.table table s u in
        let scanned-IsValid : IsValid (record k { table = table }) =
          Steady-IsValid k _ refl (Kept-Steady k.table table s) v in
        rw (e, AfterWait)
          (if_both (AfterWait IsValid) (not havekids || q.killed)
            (returns minus_one (record k { table = table }) [])
            (sleeps (sleep_enter (record k { table = table }) cur (at_proc cur)))
            (λ _. scanned-IsValid)
            λ _.
              asleep-IsValid (record k { table = table }) cur (at_proc cur) (q, e, used)
                scanned-IsValid)
