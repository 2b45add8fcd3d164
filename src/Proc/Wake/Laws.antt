-- ===== src/Proc/Wake/Laws.antt =====
-- What waking does to the process table: nobody is left asleep on the channel.
use os_project2_test.Prelude.{
  ℕ, ◌≡◌, refl, true, false, ◌&&◌, List, [], ◌∷◌, ◌++◌, ◌==◌, if◌then◌else◌, update_first-cases,
  Split, NoneBefore, length, length-map, All, All-map, AllBelow, AllBelow-map, arith, minus_one,
  ◌⊎◌, inl, inr,
}
use os_project2_test.Proc.{Proc, Kernel, Chan, chan_eq, runnable, is_sleeping}
use os_project2_test.Proc.Wake.{wake_one, wakeup1, kill, kill_one}

-- The process does not sleep on this channel.
abbrev pub IsAwake : Chan → Proc → Type 0
IsAwake chan p = is_sleeping p.state && chan_eq p.chan chan ≡ false

pub wake_one-IsAwake :
    (chan other : Chan) (ticks : ℕ) (p : Proc)
    → IsAwake chan p
    → IsAwake chan (wake_one other ticks p)
wake_one-IsAwake chan other ticks p h = ground arith

pub wakeup1-IsAwake :
    (chan : Chan) (ticks : ℕ) (table : List Proc) → All (IsAwake chan) (wakeup1 chan ticks table)
unfolding wakeup1
wakeup1-IsAwake chan ticks [] = tt
wakeup1-IsAwake chan ticks (p ∷ ps) = (ground arith, wakeup1-IsAwake chan ticks ps)

-- A property of processes that waking one keeps, `wakeup1` keeps of the table.
pub wakeup1-All :
    (P : Proc → Type 0) (chan : Chan) (ticks : ℕ) (table : List Proc)
    → ((p : Proc) → P p → P (wake_one chan ticks p))
    → All P table
    → All P (wakeup1 chan ticks table)
unfolding wakeup1
wakeup1-All P chan ticks table keep h = All-map P _ table keep h

pub wakeup1-AllBelow :
    (P : Proc → Type 0) (chan : Chan) (ticks n : ℕ) (table : List Proc)
    → ((p : Proc) → P p → P (wake_one chan ticks p))
    → AllBelow P n table
    → AllBelow P n (wakeup1 chan ticks table)
unfolding wakeup1
wakeup1-AllBelow P chan ticks n table keep h = AllBelow-map P _ n table keep h

pub length-wakeup1 :
    (chan : Chan) (ticks : ℕ) (table : List Proc) → length (wakeup1 chan ticks table) ≡ length table
unfolding wakeup1
length-wakeup1 chan ticks table = length-map _ table

-- `kill` returns -1 and changes nothing if no entry has the id; otherwise it returns 0, marks
-- the first entry that has it as killed, makes it runnable if it sleeps, keeps its id, and
-- leaves the others alone.
pub kill-cases :
    (k : Kernel) (pid : ℕ)
    → (NoneBefore (λ (p : Proc). p.pid == pid) k.table × (kill k pid ≡ (minus_one, k)))
      ⊎ ((s : Split (λ (p : Proc). p.pid == pid) k.table) × (q : Proc) × (kill k pid
            ≡ (0, record k { table = s.before ++ q ∷ s.after }))
          × (q.killed ≡ true)
          × (q.state ≡ (if is_sleeping s.hit.state then runnable else s.hit.state))
          × (q.pid ≡ s.hit.pid))
unfolding kill
kill-cases k pid = elim (update_first-cases (λ (p : Proc). p.pid == pid) kill_one k.table) [
  | inl (h, e) ↦ inl (h, rw (e, kill))
  | inr (s, e) ↦ inr (s, kill_one s.hit, rw (e, kill), refl, refl, refl)
]
