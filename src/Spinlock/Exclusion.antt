-- ===== src/Spinlock/Exclusion.antt =====
-- One processor at a time is in the critical section, with interrupts off.
use os_project2_test.Prelude.{
  ℕ, ◌+◌, ◌-◌, ◌≡◌, refl, ap, sym, ◌∙◌, subst, fun_ext, Bool, true, false, not, ◌&&◌, ◌⊎◌, none,
  some, ◌==◌, if◌then◌else◌, arith, Bool-cases, inl, inr,
}
use os_project2_test.Spinlock.{
  Cpu, pushcli, popcli, Spinlock, is_cpu, holding, start_acquire, start_release, Phase, outside,
  spinning, won, inside, leaving, System, put, try_lock,
}

-- The lock is the processor's.
abbrev pub has_lock : Phase → Bool
has_lock outside = false
has_lock spinning = false
has_lock won = true
has_lock inside = true
has_lock leaving = true

abbrev pub is_inside : Phase → Bool
is_inside inside = true
is_inside _ = false

-- Off the lock a processor has its own interrupt flag; at the lock interrupts are off, and the flag is kept.
abbrev pub Quiet : Bool → Phase → Cpu → Type 0
Quiet flag outside cpu = (cpu.ncli ≡ 0) × (cpu.enabled ≡ flag)
Quiet flag _ cpu = (cpu.ncli ≡ 1) × (cpu.enabled ≡ false) × (cpu.intena ≡ flag)

pub record IsValid (flag : ℕ → Bool) (s : System) : Type 0 where
  pub one : (c d : ℕ) → has_lock (s.phase c) ≡ true → has_lock (s.phase d) ≡ true → (c == d) ≡ true
  pub taken : (c : ℕ) → has_lock (s.phase c) ≡ true → s.lock.locked ≡ true
  pub owner : (c : ℕ) → is_cpu s.lock.cpu c ≡ is_inside (s.phase c)
  pub quiet : (c : ℕ) → Quiet (flag c) (s.phase c) (s.cpus c)

put_cases :
    {A : Type 0} (c a : ℕ) (x : A) (f : ℕ → A)
    → (((c == a) ≡ true) × (put c x f a ≡ x)) ⊎ (((c == a) ≡ false) × (put c x f a ≡ f a))
put_cases c a x f = elim (Bool-cases (c == a)) [
  | inl e ↦ inl (e, rw e refl)
  | inr e ↦ inr (e, rw e refl)
]

-- A step of processor `c` that leaves the others' phases alone.
module _ (flag : ℕ → Bool) (s : System) (v : IsValid flag s) (c : ℕ) (lk : Spinlock) (cpu : Cpu)
    (x : Phase)
    (alone : has_lock x ≡ true → (d : ℕ) → (c == d) ≡ false → has_lock (s.phase d) ≡ false)
    (taken : has_lock x ≡ true → lk.locked ≡ true)
    (others : (d : ℕ) → (c == d) ≡ false → has_lock (s.phase d) ≡ true → lk.locked ≡ true)
    (mine : is_cpu lk.cpu c ≡ is_inside x)
    (theirs : (d : ℕ) → (c == d) ≡ false → is_cpu lk.cpu d ≡ is_inside (s.phase d))
    (quiet : Quiet (flag c) x cpu) where
  update-one :
      (a b : ℕ)
      → has_lock (put c x s.phase a) ≡ true
      → has_lock (put c x s.phase b) ≡ true
      → (a == b) ≡ true
  update-one a b ha hb = elim (put_cases c a x s.phase) [
    | inl (e, p) ↦ elim (put_cases c b x s.phase) [
      | inl (f, q) ↦ ground arith
      | inr (f, q) ↦ absurd (
          let n = alone (ap has_lock (sym p) ∙ ha) b f in
          let m = ap has_lock (sym q) ∙ hb in ground arith)
    ]
    | inr (e, p) ↦ elim (put_cases c b x s.phase) [
      | inl (f, q) ↦ absurd (
          let n = alone (ap has_lock (sym q) ∙ hb) a e in
          let m = ap has_lock (sym p) ∙ ha in ground arith)
      | inr (f, q) ↦ v.one a b (ap has_lock (sym p) ∙ ha) (ap has_lock (sym q) ∙ hb)
    ]
  ]

  update-IsValid :
      IsValid flag (record s { lock = lk; cpus = put c cpu s.cpus; phase = put c x s.phase })
  update-IsValid = record {
    one = update-one;
    taken = λ a ha. elim (put_cases c a x s.phase) [
      | inl (e, p) ↦ taken (ap has_lock (sym p) ∙ ha)
      | inr (e, p) ↦ others a e (ap has_lock (sym p) ∙ ha)
    ];
    owner = λ a. elim (Bool-cases (c == a)) [
      | inl e ↦
          let at : c ≡ a = ground arith in rw e (subst (λ a. is_cpu lk.cpu a ≡ is_inside x) at mine)
      | inr e ↦ rw e (theirs a e)
    ];
    quiet = λ a. elim (Bool-cases (c == a)) [
      | inl e ↦ let at : c ≡ a = ground arith in rw e (subst (λ a. Quiet (flag a) x cpu) at quiet)
      | inr e ↦ rw e (v.quiet a)
    ];
  }

popcli-pushcli :
    (cpu : Cpu) → cpu.enabled ≡ false → (cpu.ncli == 0) ≡ false → popcli (pushcli cpu) ≡ some cpu
unfolding popcli pushcli
popcli-pushcli cpu off n =
    let one : (cpu.ncli + 1 == 0) ≡ false = ground arith in
    let back : cpu.ncli + 1 - 1 ≡ cpu.ncli = omega arith in rw (n, one, back, n, off) refl

holding_lem :
    (c : ℕ) (lk : Spinlock) (cpu : Cpu)
    → cpu.enabled ≡ false
    → (cpu.ncli == 0) ≡ false
    → holding c lk cpu ≡ some (lk.locked && is_cpu lk.cpu c, cpu)
unfolding holding
holding_lem c lk cpu off n = rw (popcli-pushcli cpu off n, holding) refl

-- `acquire` does not panic where the processor does not hold the lock.
pub start_acquire_lem :
    (c : ℕ) (lk : Spinlock) (cpu : Cpu)
    → is_cpu lk.cpu c ≡ false
    → start_acquire c lk cpu ≡ some (pushcli cpu)
unfolding start_acquire pushcli
start_acquire_lem c lk cpu free =
    let held : (lk.locked && is_cpu lk.cpu c) ≡ false = ground arith in
    rw (holding_lem c lk (pushcli cpu) refl (ground arith), start_acquire, held) refl

pub start_release_lem :
    (c : ℕ) (lk : Spinlock) (cpu : Cpu)
    → cpu.enabled ≡ false
    → (cpu.ncli == 0) ≡ false
    → lk.locked ≡ true
    → is_cpu lk.cpu c ≡ true
    → start_release c lk cpu ≡ some (record lk { cpu = none }, cpu)
unfolding start_release
start_release_lem c lk cpu off n locked mine =
    let held : (lk.locked && is_cpu lk.cpu c) ≡ true = ground arith in
    rw (holding_lem c lk cpu off n, start_release, held) refl

pushcli-Quiet :
    (flag : Bool) (cpu : Cpu) → Quiet flag outside cpu → Quiet flag spinning (pushcli cpu)
unfolding pushcli
pushcli-Quiet flag cpu (n, e) = (omega arith, refl, rw n e)

pub popcli_last :
    (flag : Bool) (cpu : Cpu)
    → Quiet flag leaving cpu
    → popcli cpu ≡ some (record cpu { ncli = 0; enabled = flag })
unfolding popcli
popcli_last flag cpu (n, e, i) = rw (e, n, i) refl

module _ (flag : ℕ → Bool) (s : System) (v : IsValid flag s) (c : ℕ) where
  pub Quiet-at : (p : Phase) → s.phase c ≡ p → Quiet (flag c) p (s.cpus c)
  Quiet-at p h = subst (λ p. Quiet (flag c) p (s.cpus c)) h (v.quiet c)

  pub owner_at : (p : Phase) → s.phase c ≡ p → is_cpu s.lock.cpu c ≡ is_inside p
  owner_at p h = v.owner c ∙ ap is_inside h

  -- While processor `c` has the lock, no other has.
  alone_at :
      (p : Phase)
      → s.phase c ≡ p
      → has_lock p ≡ true
      → (d : ℕ) → (c == d) ≡ false
      → has_lock (s.phase d) ≡ false
  alone_at p h has d other = elim (Bool-cases (has_lock (s.phase d))) [
    | inr e ↦ e
    | inl e ↦ absurd (let same = v.one c d (ap has_lock h ∙ has) e in ground arith)
  ]

  pub starts-IsValid :
      (cpu : Cpu)
      → s.phase c ≡ outside
      → start_acquire c s.lock (s.cpus c) ≡ some cpu
      → IsValid flag (record s { cpus = put c cpu s.cpus; phase = put c spinning s.phase })
  starts-IsValid cpu h e =
      let same : pushcli (s.cpus c) ≡ cpu =
        let q = start_acquire_lem c s.lock (s.cpus c) (owner_at outside h) in ground arith in
      update-IsValid flag s v c s.lock cpu spinning (λ n. absurd (ground arith))
        (λ n. absurd (ground arith)) (λ d o l. v.taken d l) (owner_at outside h) (λ d o. v.owner d)
        (subst (Quiet (flag c) spinning) same
          (pushcli-Quiet (flag c) (s.cpus c) (Quiet-at outside h)))

  put_same : {A : Type 0} (f : ℕ → A) → put c (f c) f ≡ f
  put_same f = fun_ext (λ a. elim (Bool-cases (c == a)) [
    | inl e ↦ let at : c ≡ a = ground arith in rw e (ap f at)
    | inr e ↦ rw e refl
  ])

  -- No other processor is inside.
  others_out :
      (p : Phase)
      → s.phase c ≡ p
      → has_lock p ≡ true
      → (d : ℕ) → (c == d) ≡ false
      → is_inside (s.phase d) ≡ false
  others_out p h has d other = out (s.phase d) (alone_at p h has d other)
    where
      out : (q : Phase) → has_lock q ≡ false → is_inside q ≡ false
      out outside n = refl
      out spinning n = refl
      out won n = refl
      out inside n = absurd (ground arith)
      out leaving n = refl

  pub tries-IsValid :
      s.phase c ≡ spinning
      → IsValid flag (record s {
        lock = (try_lock s.lock).0;
        phase = put c (if (try_lock s.lock).1 then won else spinning) s.phase;
      })
  tries-IsValid h =
      subst
        (λ cpus. IsValid flag (record s {
          lock = record s.lock { locked = true };
          cpus = cpus;
          phase = put c (if not s.lock.locked then won else spinning) s.phase;
        }))
        (put_same s.cpus)
        (elim (Bool-cases s.lock.locked) [
          | inl busy ↦ rw busy (
              update-IsValid flag s v c (record s.lock { locked = true }) (s.cpus c) spinning
                (λ n. absurd (ground arith)) (λ n. refl) (λ d o l. refl) (owner_at spinning h)
                (λ d o. v.owner d) (Quiet-at spinning h))
          | inr free ↦ rw free (
              update-IsValid flag s v c (record s.lock { locked = true }) (s.cpus c) won
                (λ n d o. elim (Bool-cases (has_lock (s.phase d))) [
                  | inr e ↦ e
                  | inl e ↦ absurd (let l = v.taken d e in ground arith)
                ])
                (λ n. refl) (λ d o l. refl) (owner_at spinning h) (λ d o. v.owner d)
                (Quiet-at spinning h))
        ])

  pub records-IsValid :
      s.phase c ≡ won
      → IsValid flag
          (record s { lock = record s.lock { cpu = some c }; phase = put c inside s.phase })
  records-IsValid h =
      subst
        (λ cpus. IsValid flag (record s {
          lock = record s.lock { cpu = some c };
          cpus = cpus;
          phase = put c inside s.phase;
        }))
        (put_same s.cpus)
        (update-IsValid flag s v c (record s.lock { cpu = some c }) (s.cpus c) inside
          (λ n. alone_at won h refl) (λ n. v.taken c (ap has_lock h)) (λ d o l. v.taken d l)
          (ground arith) (λ d o. o ∙ sym (others_out won h refl d o)) (Quiet-at won h))

  pub leaves-IsValid :
      (lk : Spinlock) (cpu : Cpu)
      → s.phase c ≡ inside
      → start_release c s.lock (s.cpus c) ≡ some (lk, cpu)
      → IsValid flag
          (record s { lock = lk; cpus = put c cpu s.cpus; phase = put c leaving s.phase })
  leaves-IsValid lk cpu h e =
      let (n, off, i) = Quiet-at inside h in
      let q =
        start_release_lem c s.lock (s.cpus c) off (ground arith) (v.taken c (ap has_lock h))
          (owner_at inside h) in
      let lock : record s.lock { cpu = none } ≡ lk = ground arith in
      let same : s.cpus c ≡ cpu = ground arith in
      subst
        (λ lk.
          IsValid flag
            (record s { lock = lk; cpus = put c cpu s.cpus; phase = put c leaving s.phase }))
        lock
        (update-IsValid flag s v c (record s.lock { cpu = none }) cpu leaving
          (λ n. alone_at inside h refl) (λ n. v.taken c (ap has_lock h)) (λ d o l. v.taken d l) refl
          (λ d o. sym (others_out inside h refl d o))
          (subst (Quiet (flag c) leaving) same (n, off, i)))

  pub frees-IsValid :
      (cpu : Cpu)
      → s.phase c ≡ leaving
      → popcli (s.cpus c) ≡ some cpu
      → IsValid flag (record s {
        lock = record s.lock { locked = false };
        cpus = put c cpu s.cpus;
        phase = put c outside s.phase;
      })
  frees-IsValid cpu h e =
      let q = popcli_last (flag c) (s.cpus c) (Quiet-at leaving h) in
      let same : record (s.cpus c) { ncli = 0; enabled = flag c } ≡ cpu = ground arith in
      update-IsValid flag s v c (record s.lock { locked = false }) cpu outside
        (λ n. absurd (ground arith)) (λ n. absurd (ground arith))
        (λ d o l. absurd (let a = alone_at leaving h refl d o in ground arith)) (owner_at leaving h)
        (λ d o. v.owner d) (subst (Quiet (flag c) outside) same (refl, refl))
