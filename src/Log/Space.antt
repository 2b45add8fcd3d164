-- ===== src/Log/Space.antt =====
-- The reservation of log space: where operations keep to a quota, `log_write` does not panic.
use os_project2_test.Prelude.{
  ℕ, suc, ◌+◌, ◌-◌, ◌*◌, ◌≡◌, ◌≤◌, ◌<◌, refl, subst, Bool, true, false, some, List, [], ◌∷◌, ◌++◌,
  ◌==◌, ltb, length, arith, Bool-cases, inl, inr, All,
}
use os_project2_test.Log.{
  Log, maxopblocks, logsize, begin_op, end_op, end_commit, absorb, log_write,
}

-- What each operation in progress may still log.
abbrev pub Budgets : Type 0
Budgets = List ℕ

-- What is reserved: what each may still log, and what its quota leaves of `maxopblocks`.
abbrev pub total : ℕ → Budgets → ℕ
total quota [] = 0
total quota (b ∷ bs) = b + (maxopblocks - quota) + total quota bs

-- Calls of the log by operations that call `log_write` at most `quota` times each. The commit
-- has its blocks installed before `end_commit` empties the log.
pub data Calls (quota : ℕ) (l : Log) : Log → Budgets → Type 0 where
  start : Calls quota l l []
  begins :
      {l₁ l₂ : Log} {bs : Budgets}
      → Calls quota l l₁ bs
      → begin_op l₁ ≡ some l₂
      → Calls quota l l₂ (quota ∷ bs)
  logs :
      {l₁ l₂ : Log} (before after : Budgets) (b block : ℕ)
      → Calls quota l l₁ (before ++ suc b ∷ after)
      → log_write l₁ block ≡ some l₂
      → Calls quota l l₂ (before ++ b ∷ after)
  ends :
      {l₁ l₂ : Log} (before after : Budgets) (b : ℕ) (last : Bool)
      → Calls quota l l₁ (before ++ b ∷ after)
      → end_op l₁ ≡ some (l₂, last)
      → Calls quota l l₂ (before ++ after)
  commits :
      {l₁ : Log} {bs : Budgets}
      → Calls quota l l₁ bs
      → l₁.committing ≡ true
      → Calls quota l (end_commit l₁) bs

-- The blocks logged and those that may still be logged fit; `outstanding` counts the operations in
-- progress, and there is none during a commit.
pub record Fits (quota : ℕ) (l : Log) (bs : Budgets) : Type 0 where
  pub room : length l.lh + total quota bs ≤ logsize
  pub counted : l.outstanding ≡ length bs
  pub quiet : l.committing ≡ true → length bs ≡ 0
  pub small : All (λ b. b ≤ quota) bs
  pub allowed : quota ≤ maxopblocks
  pub size : logsize + quota < l.size + maxopblocks

total-middle :
    (q : ℕ) (before after : Budgets) (b : ℕ)
    → total q (before ++ b ∷ after) ≡ total q (before ++ after) + b + (maxopblocks - q)
total-middle q [] after b = omega arith
total-middle q (c ∷ before) after b = omega (arith, total-middle q before after b)

length-middle :
    (before after : Budgets) (b : ℕ) → length (before ++ b ∷ after) ≡ suc (length (before ++ after))
length-middle [] after b = refl
length-middle (c ∷ before) after b = omega (arith, length-middle before after b)

length-absorb : (b : ℕ) (cs : List ℕ) → length (absorb b cs) ≤ suc (length cs)
unfolding absorb
length-absorb b [] = omega arith
length-absorb b (c ∷ cs) = ground (arith, length-absorb b cs)

total_small :
    (q : ℕ) (bs : Budgets)
    → q ≤ maxopblocks
    → All (λ b. b ≤ q) bs
    → total q bs ≤ maxopblocks * length bs
total_small q [] k h = omega arith
total_small q (b ∷ bs) k h = omega (arith, k, h.0, total_small q bs k h.1)

All-one_less :
    (q : ℕ) (before after : Budgets) (b : ℕ)
    → All (λ b. b ≤ q) (before ++ suc b ∷ after)
    → All (λ b. b ≤ q) (before ++ b ∷ after)
All-one_less q [] after b h = (omega (arith, h.0), h.1)
All-one_less q (c ∷ before) after b h = (h.0, All-one_less q before after b h.1)

All-without :
    (q : ℕ) (before after : Budgets) (b : ℕ)
    → All (λ b. b ≤ q) (before ++ b ∷ after)
    → All (λ b. b ≤ q) (before ++ after)
All-without q [] after b h = h.1
All-without q (c ∷ before) after b h = (h.0, All-without q before after b h.1)

begin_op-Fits :
    (q : ℕ) (l l' : Log) (bs : Budgets) → Fits q l bs → begin_op l ≡ some l' → Fits q l' (q ∷ bs)
unfolding begin_op
begin_op-Fits q l l' bs f e = elim (Bool-cases l.committing) [
  | inl c ↦ ground arith
  | inr c ↦ elim (Bool-cases (ltb logsize (length l.lh + (l.outstanding + 1) * maxopblocks))) [
    | inl z ↦ ground arith
    | inr z ↦
        let same : record l { outstanding = l.outstanding + 1 } ≡ l' = ground arith in
        subst (λ u. Fits q u (q ∷ bs)) same (began z c)
  ]
]
  where
    began :
        ltb logsize (length l.lh + (l.outstanding + 1) * maxopblocks) ≡ false
        → l.committing ≡ false
        → Fits q (record l { outstanding = l.outstanding + 1 }) (q ∷ bs)
    began z c = record {
      room = let b = f.counted in let d = total_small q bs f.allowed f.small in ground arith;
      counted = let b = f.counted in omega arith;
      quiet = λ c. cc;
      small = (omega arith, f.small);
      allowed = f.allowed;
      size = f.size;
    }

-- Where an operation may log another block, `log_write` does not panic.
log_write-Fits :
    (q : ℕ) (l : Log) (before after : Budgets) (b block : ℕ)
    → Fits q l (before ++ suc b ∷ after)
    → (log_write l block ≡ some (record l { lh = absorb block l.lh }))
      × Fits q (record l { lh = absorb block l.lh }) (before ++ b ∷ after)
unfolding log_write
log_write-Fits q l before after b block f =
    let a = f.room in
    let k = f.counted in
    let s = f.size in
    let al = f.allowed in
    let t = total-middle q before after (suc b) in
    let t' = total-middle q before after b in
    let n = length-middle before after (suc b) in
    let n' = length-middle before after b in
    let lh_room : length l.lh < 20 + q = omega arith in
    let active : 0 < l.outstanding = omega arith in
    let longer = length-absorb block l.lh in
    (
      ground arith,
      record {
        room = omega arith;
        counted = omega arith;
        quiet = λ c. let q = f.quiet c in omega arith;
        small = All-one_less q before after b f.small;
        allowed = f.allowed;
        size = s;
      },
    )

end_op-Fits :
    (q : ℕ) (l l' : Log) (before after : Budgets) (b : ℕ) (c : Bool)
    → Fits q l (before ++ b ∷ after)
    → end_op l ≡ some (l', c)
    → Fits q l' (before ++ after)
unfolding end_op
end_op-Fits q l l' before after b c f e =
    let t = total-middle q before after b in
    let n = length-middle before after b in
    let a = f.room in
    let k = f.counted in
    let s = f.size in
    let al = f.allowed in
    elim (Bool-cases l.committing) [
      | inl c ↦ ground arith
      | inr c ↦ elim (Bool-cases ((l.outstanding - 1) == 0)) [
        | inl z ↦
            let same : record l { outstanding = l.outstanding - 1; committing = true } ≡ l' =
              ground arith in
            subst (λ u. Fits q u (before ++ after)) same
              (record {
                room = omega arith;
                counted = omega arith;
                quiet = λ _. ground arith;
                small = All-without q before after b f.small;
                allowed = f.allowed;
                size = s;
              })
        | inr z ↦
            let same : record l { outstanding = l.outstanding - 1 } ≡ l' = ground arith in
            subst (λ u. Fits q u (before ++ after)) same
              (record {
                room = omega arith;
                counted = omega arith;
                quiet = λ q'. cc;
                small = All-without q before after b f.small;
                allowed = f.allowed;
                size = s;
              })
      ]
    ]

-- Calls keep `Fits`.
Calls-Fits : {q : ℕ} {l l' : Log} {bs : Budgets} → Calls q l l' bs → Fits q l [] → Fits q l' bs
Calls-Fits start f = f
Calls-Fits {q} (begins {l₁} {l₂} {bs} c e) f = begin_op-Fits q l₁ l₂ bs (Calls-Fits c f) e
Calls-Fits {q} (logs {l₁} {l₂} before after b block c e) f =
    let (e', g) = log_write-Fits q l₁ before after b block (Calls-Fits c f) in
    let same : record l₁ { lh = absorb block l₁.lh } ≡ l₂ = ground arith in
    subst (λ u. Fits q u (before ++ b ∷ after)) same g
Calls-Fits {q} (ends {l₁} {l₂} before after b k c e) f =
    end_op-Fits q l₁ l₂ before after b k (Calls-Fits c f) e
Calls-Fits (commits {l₁} {bs} c z) f =
    let g = Calls-Fits c f in
    record {
      room = let a = g.room in omega arith;
      counted = g.counted;
      quiet = λ h. cc;
      small = g.small;
      allowed = g.allowed;
      size = g.size;
    }

-- For a quota of at most MAXOPBLOCKS (10) blocks and an empty log of more than 20 blocks and the
-- quota (30 as mkfs makes it for a quota of 9, 31 for one of 10), with no operation in progress,
-- and after any calls by operations that call `log_write` at most as often as the quota each:
-- `log_write` of an operation that has not used its quota up does not panic, and the blocks
-- logged then are at most 30 and leave a block of the log for its header.
pub Calls-log_write :
    {quota : ℕ} {l l' : Log} (before after : Budgets) (b block : ℕ)
    → Fits quota l []
    → Calls quota l l' (before ++ suc b ∷ after)
    → (log_write l' block ≡ some (record l' { lh = absorb block l'.lh }))
      × (length (absorb block l'.lh) ≤ logsize)
      × (length (absorb block l'.lh) < l'.size)
Calls-log_write {quota} {l} {l'} before after b block f c =
    let (e, g) = log_write-Fits quota l' before after b block (Calls-Fits c f) in
    let a = g.room in
    let s = g.size in
    let al = g.allowed in
    let k = g.counted in let t = total-middle quota before after b in (e, omega arith, omega arith)
