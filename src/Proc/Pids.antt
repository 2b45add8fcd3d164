-- ===== src/Proc/Pids.antt =====
-- Process ids: two entries of the process table in use never share one, whatever operations of
-- proc.c run, as long as `nextpid` has not gone round.
pub mod Steps
pub mod Family
pub mod Reach
use os_project2_test.Prelude.{
  ℕ, zero, suc, ◌+◌, ◌≤◌, ◌<◌, ◌≡◌, ◌≢◌, ◌^◌, refl, ap, sym, ◌∙◌, subst, Bool, true, false, not,
  ◌&&◌, ◌||◌, Option, none, some, List, [], ◌∷◌, ◌++◌, ◌==◌, ltb, if◌then◌else◌, map, modify,
  length, All, arith, get_elem?, Bool-cases, inl, inr,
}
use os_project2_test.Proc.{Proc, Kernel, is_unused}

-- The entry is in use under this id.
abbrev pub holds : ℕ → Proc → Bool
holds pid p = not (is_unused p.state) && p.pid == pid

abbrev pub NoHolder : ℕ → List Proc → Type 0
NoHolder pid = All (λ q. holds pid q ≡ false)

abbrev pub Distinct : List Proc → Type 0
Distinct [] = Unit {0}
Distinct (p ∷ ps) = (is_unused p.state ≡ false → NoHolder p.pid ps) × Distinct ps

-- Every id in use is below `n`.
abbrev pub Below : ℕ → List Proc → Type 0
Below n = All (λ q. is_unused q.state || ltb q.pid n ≡ true)

pub record IsValid (k : Kernel) : Type 0 where
  pub distinct : Distinct k.table
  pub below : Below k.nextpid k.table

-- An entry that is in use afterwards was in use before, under the same id.
abbrev pub is_steady : Proc → Proc → Bool
is_steady p q = is_unused q.state || (not (is_unused p.state) && q.pid == p.pid)

abbrev pub Steady : List Proc → List Proc → Type 0
Steady [] [] = Unit {0}
Steady (p ∷ ps) (q ∷ qs) = (is_steady p q ≡ true) × Steady ps qs
Steady _ _ = ⊥

Steady-NoHolder : (pid : ℕ) (ps qs : List Proc) → Steady ps qs → NoHolder pid ps → NoHolder pid qs
Steady-NoHolder pid [] [] s h = tt
Steady-NoHolder pid [] (q ∷ qs) s h = absurd s
Steady-NoHolder pid (p ∷ ps) [] s h = tt
Steady-NoHolder pid (p ∷ ps) (q ∷ qs) s h = (ground arith, Steady-NoHolder pid ps qs s.1 h.1)

Steady-Distinct : (ps qs : List Proc) → Steady ps qs → Distinct ps → Distinct qs
Steady-Distinct [] [] s h = tt
Steady-Distinct [] (q ∷ qs) s h = absurd s
Steady-Distinct (p ∷ ps) [] s h = tt
Steady-Distinct (p ∷ ps) (q ∷ qs) s h = (
  λ live.
      subst (λ n. NoHolder n qs) (ground arith)
        (Steady-NoHolder p.pid ps qs s.1 (h.0 (ground arith))),
  Steady-Distinct ps qs s.1 h.1,
)

Steady-Below : (n : ℕ) (ps qs : List Proc) → Steady ps qs → Below n ps → Below n qs
Steady-Below n [] [] s h = tt
Steady-Below n [] (q ∷ qs) s h = absurd s
Steady-Below n (p ∷ ps) [] s h = tt
Steady-Below n (p ∷ ps) (q ∷ qs) s h = (ground arith, Steady-Below n ps qs s.1 h.1)

pub Steady-IsValid :
    (k k' : Kernel) → k'.nextpid ≡ k.nextpid → Steady k.table k'.table → IsValid k → IsValid k'
Steady-IsValid k k' e s v = record {
  distinct = Steady-Distinct k.table k'.table s v.distinct;
  below = subst (λ n. Below n k'.table) (sym e) (Steady-Below k.nextpid k.table k'.table s v.below);
}

pub Steady-refl : (ps : List Proc) → Steady ps ps
Steady-refl [] = tt
Steady-refl (p ∷ ps) = (ground arith, Steady-refl ps)

pub Steady-trans : (ps qs rs : List Proc) → Steady ps qs → Steady qs rs → Steady ps rs
Steady-trans [] [] rs s t = t
Steady-trans [] (q ∷ qs) rs s t = absurd s
Steady-trans (p ∷ ps) [] rs s t = absurd s
Steady-trans (p ∷ ps) (q ∷ qs) [] s t = absurd t
Steady-trans (p ∷ ps) (q ∷ qs) (r ∷ rs) s t = (ground arith, Steady-trans ps qs rs s.1 t.1)

pub Steady-map :
    (f : Proc → Proc) (ps : List Proc)
    → ((p : Proc) → is_steady p (f p) ≡ true)
    → Steady ps (map f ps)
Steady-map f [] h = tt
Steady-map f (p ∷ ps) h = (h p, Steady-map f ps h)

pub Steady-modify :
    (i : ℕ) (f : Proc → Proc) (ps : List Proc)
    → ((p : Proc) → is_steady p (f p) ≡ true)
    → Steady ps (modify i f ps)
Steady-modify i f [] h = tt
Steady-modify zero f (p ∷ ps) h = (h p, Steady-refl ps)
Steady-modify (suc i) f (p ∷ ps) h = (ground arith, Steady-modify i f ps h)

-- The same at one entry of which more is known.
pub Steady-modify_at :
    (i : ℕ) (f : Proc → Proc) (ps : List Proc) (p : Proc)
    → get_elem? ps i ≡ some p
    → is_steady p (f p) ≡ true
    → Steady ps (modify i f ps)
Steady-modify_at i f [] p e h = tt
Steady-modify_at zero f (q ∷ ps) p e h = (ground arith, Steady-refl ps)
Steady-modify_at (suc i) f (q ∷ ps) p e h = (ground arith, Steady-modify_at i f ps p e h)

pub Steady-middle :
    (before after : List Proc) (p q : Proc)
    → is_steady p q ≡ true
    → Steady (before ++ p ∷ after) (before ++ q ∷ after)
Steady-middle [] after p q h = (h, Steady-refl after)
Steady-middle (b ∷ before) after p q h = (ground arith, Steady-middle before after p q h)

Below-NoHolder : (n : ℕ) (ps : List Proc) → Below n ps → NoHolder n ps
Below-NoHolder n [] h = tt
Below-NoHolder n (p ∷ ps) h = (ground arith, Below-NoHolder n ps h.1)

Below-suc : (n : ℕ) (ps : List Proc) → Below n ps → Below (n + 1) ps
Below-suc n [] h = tt
Below-suc n (p ∷ ps) h = (ground arith, Below-suc n ps h.1)

-- An entry that takes the next id keeps the ids apart.
module _ (f : Proc → Proc) (n : ℕ) (fresh : (p : Proc) → (f p).pid ≡ n) where
  modify-NoHolder :
      (pid i : ℕ) (ps : List Proc) → pid ≢ n → NoHolder pid ps → NoHolder pid (modify i f ps)
  modify-NoHolder pid i [] d h = tt
  modify-NoHolder pid zero (p ∷ ps) d h = (ground (arith, fresh p), h.1)
  modify-NoHolder pid (suc i) (p ∷ ps) d h = (h.0, modify-NoHolder pid i ps d h.1)

  pub modify-Distinct :
      (i : ℕ) (ps : List Proc) → Below n ps → Distinct ps → Distinct (modify i f ps)
  modify-Distinct i [] b d = tt
  modify-Distinct zero (p ∷ ps) b d =
      (λ _. subst (λ m. NoHolder m ps) (sym (fresh p)) (Below-NoHolder n ps b.1), d.1)
  modify-Distinct (suc i) (p ∷ ps) b d =
      (λ live. modify-NoHolder p.pid i ps (ground arith) (d.0 live), modify-Distinct i ps b.1 d.1)

  pub modify-Below : (i : ℕ) (ps : List Proc) → Below n ps → Below (n + 1) (modify i f ps)
  modify-Below i [] b = tt
  modify-Below zero (p ∷ ps) b = (ground (arith, fresh p), Below-suc n ps b.1)
  modify-Below (suc i) (p ∷ ps) b = (ground arith, modify-Below i ps b.1)
