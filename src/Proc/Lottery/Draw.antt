-- ===== src/Proc/Lottery/Draw.antt =====
-- Who wins the lottery: each runnable process has as many winning numbers as tickets, but
-- `get_random` only ever draws one of the first 2^15.
use os_project2_test.Prelude.{
  ℕ, zero, suc, ◌+◌, ◌-◌, ◌^◌, ◌<◌, ◌≤◌, ◌≡◌, ◌≢◌, ◌↔◌, none, some, List, [], ◌∷◌, ◌==◌,
  if◌then◌else◌, arith, min, Bool-cases, Option-cases, inl, inr, ltb, ap,
}
use mathlib.Core.Option
use os_project2_test.Proc.{Proc, is_runnable}
use os_project2_test.Proc.Lottery.{get_random, find_winner, total_tickets}

-- For min below max and max below 2^31, the number drawn is at least min, below max and below
-- min + 2^15, and the seed stays a 32-bit word.
pub get_random_range :
    (seed min max : ℕ)
    → min < max
    → max < 2 ^ 31
    → ((get_random seed min max).0 < 2 ^ 32)
      × (min ≤ (get_random seed min max).1)
      × ((get_random seed min max).1 < max)
      × ((get_random seed min max).1 < min + 2 ^ 15)
unfolding get_random
get_random_range seed min max h b = (omega arith, ground arith, ground arith, ground arith)

-- A process's share of the winning numbers.
abbrev pub share : Proc → ℕ
share p = if is_runnable p.state then p.tickets else 0

abbrev pub shares : List Proc → ℕ
shares [] = 0
shares (p ∷ ps) = share p + shares ps

-- The share of entry `i`, 0 outside the table.
abbrev pub share_at : List Proc → ℕ → ℕ
share_at [] i = 0
share_at (p ∷ ps) zero = share p
share_at (p ∷ ps) (suc i) = share_at ps i

-- The shares of the entries before `i`.
abbrev pub start_at : List Proc → ℕ → ℕ
start_at [] i = 0
start_at (p ∷ ps) zero = 0
start_at (p ∷ ps) (suc i) = share p + start_at ps i

start-share-le : (table : List Proc) (i : ℕ) → start_at table i + share_at table i ≤ shares table
start-share-le [] i = omega arith
start-share-le (p ∷ ps) zero = omega arith
start-share-le (p ∷ ps) (suc i) = omega (arith, start-share-le ps i)

total_tickets-cons :
    (p : Proc) (ps : List Proc) (c : ℕ)
    → c + share p < 2 ^ 31
    → total_tickets (p ∷ ps) c ≡ total_tickets ps (c + share p)
unfolding total_tickets
total_tickets-cons p ps c h = ap (total_tickets ps) (ground arith)

total-shares-from :
    (table : List Proc) (c : ℕ)
    → c + shares table < 2 ^ 31
    → total_tickets table c ≡ c + shares table
unfolding total_tickets
total-shares-from [] c h = omega arith
total-shares-from (p ∷ ps) c h = omega (
  arith,
  total_tickets-cons p ps c (omega arith),
  total-shares-from ps (c + share p) (omega arith),
)

-- The kernel's total is the sum of the shares, unless that sum overflows an `int`.
pub total_tickets-shares :
    (table : List Proc) → shares table < 2 ^ 31 → total_tickets table 0 ≡ shares table
total_tickets-shares table h = omega (arith, total-shares-from table 0 (omega arith))

find_winner-cons :
    (w : ℕ) (p : Proc) (ps : List Proc) (c : ℕ)
    → c ≤ w
    → w < 2 ^ 31
    → c + share p < 2 ^ 31
    → find_winner w (p ∷ ps) c
      ≡ (if ltb w (c + share p) then some 0 else Option.map suc (find_winner w ps (c + share p)))
unfolding find_winner
find_winner-cons w p ps c cw b h = elim (Bool-cases (is_runnable p.state)) [
  | inl e ↦ ground arith
  | inr e ↦ ground arith
]

winner_in :
    (w : ℕ) (table : List Proc) (c i : ℕ)
    → c + shares table < 2 ^ 31
    → c ≤ w
    → w < 2 ^ 31
    → find_winner w table c ≡ some i
    → (c + start_at table i ≤ w) × (w < c + start_at table i + share_at table i)
winner_in w [] c i h cw b e = unfold find_winner in cc
winner_in w (p ∷ ps) c zero h cw b e = ground (arith, find_winner-cons w p ps c cw b (omega arith))
winner_in w (p ∷ ps) c (suc i) h cw b e =
    ground (arith, find_winner-cons w p ps c cw b (omega arith), winner_in w ps (c + share p) i)

in_winner :
    (w : ℕ) (table : List Proc) (c i : ℕ)
    → c + shares table < 2 ^ 31
    → c + start_at table i ≤ w
    → w < c + start_at table i + share_at table i
    → find_winner w table c ≡ some i
in_winner w [] c i h l u = absurd (omega arith)
in_winner w (p ∷ ps) c zero h l u =
    ground (arith, find_winner-cons w p ps c (omega arith) (omega arith) (omega arith))
in_winner w (p ∷ ps) c (suc i) h l u = ground (
  arith,
  find_winner-cons w p ps c (omega arith) (omega (arith, start-share-le ps i)) (omega arith),
  in_winner w ps (c + share p) i (omega arith) (omega arith) (omega arith),
)

-- If the tickets of the runnable processes add up to less than 2^31, a number below 2^31 makes
-- an entry the winner exactly if it lies in the interval of the entry's tickets behind those of
-- the runnable processes before it.
pub find_winner_iff :
    (w : ℕ) (table : List Proc) (i : ℕ)
    → shares table < 2 ^ 31
    → w < 2 ^ 31
    → (find_winner w table 0 ≡ some i)
      ↔ ((start_at table i ≤ w) × (w < start_at table i + share_at table i))
find_winner_iff w table i h b = (
  λ e. omega (arith, winner_in w table 0 i (omega arith) (omega arith) b e),
  λ d. in_winner w table 0 i (omega arith) (omega (arith, d.0)) (omega (arith, d.1)),
)

-- How many of the numbers below `n` make entry `i` the winner.
pub wins : List Proc → ℕ → ℕ → ℕ
wins table i zero = 0
wins table i (suc n) = elim (find_winner n table 0) [
  | none ↦ wins table i n
  | some j ↦ if j == i then suc (wins table i n) else wins table i n
]

wins-upto :
    (table : List Proc) (i n : ℕ)
    → shares table < 2 ^ 31
    → n ≤ 2 ^ 31
    → wins table i n ≡ min n (start_at table i + share_at table i) - min n (start_at table i)
unfolding wins
wins-upto table i zero h b = omega arith
wins-upto table i (suc n) h b = elim (Option-cases (find_winner n table 0)) [
  | inl e ↦
      ground (arith, find_winner_iff n table i h (omega arith), wins-upto table i n h (omega arith))
  | inr (j, e) ↦
      ground (arith, find_winner_iff n table i h (omega arith), wins-upto table i n h (omega arith))
]

-- If the tickets of the runnable processes add up to less than 2^31: of the numbers below the
-- scheduler's total, exactly as many make an entry the winner as it has tickets if it is
-- runnable, and none if not.
pub wins-total_tickets :
    (table : List Proc) (i : ℕ)
    → shares table < 2 ^ 31
    → wins table i (total_tickets table 0) ≡ share_at table i
wins-total_tickets table i h =
    rw (total_tickets-shares table h)
      (omega (arith, wins-upto table i (shares table) h (omega arith), start-share-le table i))

-- If the tickets of the runnable processes add up to less than 2^31 and are not all 0, a process
-- with 2^15 tickets or more before it is not drawn, whatever the seed and its own tickets.
pub starved :
    (seed : ℕ) (table : List Proc) (i : ℕ)
    → shares table < 2 ^ 31
    → 0 < shares table
    → 2 ^ 15 ≤ start_at table i
    → find_winner (get_random seed 0 (total_tickets table 0)).1 table 0 ≢ some i
starved seed table i h pos far e =
    let (_, _, below, drawn) =
      get_random_range seed 0 (total_tickets table 0) (omega (arith, total_tickets-shares table h))
        (omega (arith, total_tickets-shares table h)) in
    let inside =
      (find_winner_iff (get_random seed 0 (total_tickets table 0)).1 table i h
          (omega (arith, total_tickets-shares table h))).0
        e in
    omega arith
