-- ===== src/Sleeplock/Exclusion.antt =====
-- One holder at a time.
use os_project2_test.Prelude.{
  ℕ, ◌≡◌, ◌≤◌, refl, ap, subst, Bool, true, false, some, List, [], ◌∷◌, ◌++◌, ◌==◌, if◌then◌else◌,
  length, arith, ◌⊎◌, inl, inr,
}
use os_project2_test.Sleeplock.{Sleeplock, initsleeplock, acquiresleep, releasesleep, holdingsleep}

-- Rounds of processes, with the ids of those that hold the lock: only a holder releases it.
pub data Use : Sleeplock → List ℕ → Type 0 where
  fresh : Use initsleeplock []
  acquires :
      {lk lk' : Sleeplock} {holders : List ℕ} (pid : ℕ)
      → Use lk holders
      → acquiresleep pid lk ≡ some lk'
      → Use lk' (pid ∷ holders)
  releases :
      {lk : Sleeplock} (before after : List ℕ) (pid : ℕ)
      → Use lk (before ++ pid ∷ after)
      → Use (releasesleep lk) (before ++ after)

abbrev Held : Sleeplock → List ℕ → Type 0
Held lk holders =
    ((lk.locked ≡ false) × (holders ≡ [])) ⊎ ((lk.locked ≡ true) × (holders ≡ lk.pid ∷ []))

abbrev pub stands_in : ℕ → List ℕ → Bool
stands_in pid [] = false
stands_in pid (q ∷ qs) = if q == pid then true else stands_in pid qs

one_left :
    (before after : List ℕ) (pid q : ℕ) → before ++ pid ∷ after ≡ q ∷ [] → before ++ after ≡ []
one_left [] after pid q e = cc
one_left (b ∷ []) after pid q e = cc
one_left (b ∷ c ∷ before) after pid q e = cc

none_left : (before after : List ℕ) (pid : ℕ) → before ++ pid ∷ after ≡ [] → before ++ after ≡ []
none_left [] after pid e = cc
none_left (b ∷ before) after pid e = cc

acquired-Held :
    (pid : ℕ) (lk lk' : Sleeplock) (holders : List ℕ)
    → Held lk holders
    → acquiresleep pid lk ≡ some lk'
    → Held lk' (pid ∷ holders)
unfolding acquiresleep
acquired-Held pid lk lk' holders (inr (busy, h)) e = ground arith
acquired-Held pid lk lk' holders (inl (idle, h)) e =
    let same : record lk { locked = true; pid = pid } ≡ lk' = ground arith in
    subst (λ l. Held l (pid ∷ holders)) same (inr (refl, ap (λ t. pid ∷ t) h))

Use-Held : {lk : Sleeplock} {holders : List ℕ} → Use lk holders → Held lk holders
unfolding releasesleep
Use-Held fresh = inl (refl, refl)
Use-Held (acquires {lk} {lk'} {holders} pid u e) = acquired-Held pid lk lk' holders (Use-Held u) e
Use-Held (releases {lk} before after pid u) = elim (Use-Held u) [
  | inl (_, h) ↦ inl (refl, none_left before after pid h)
  | inr (_, h) ↦ inl (refl, one_left before after pid lk.pid h)
]

-- After any rounds in which only a holder releases the lock, at most one process holds it, and
-- `holdingsleep` answers 1 exactly to that one.
pub Use-holdingsleep :
    {lk : Sleeplock} {holders : List ℕ}
    → Use lk holders
    → (pid : ℕ) → (length holders ≤ 1) × (holdingsleep pid lk ≡ stands_in pid holders)
unfolding holdingsleep
Use-holdingsleep {lk} {holders} u pid = elim (Use-Held u) [
  | inl (idle, h) ↦ rw (idle, h) (omega arith, refl)
  | inr (busy, h) ↦ rw (busy, h) (omega arith, ground arith)
]
