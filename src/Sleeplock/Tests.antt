-- ===== src/Sleeplock/Tests.antt =====
-- Process 3 takes a lock, which process 4 then waits for.
use os_project2_test.Prelude.{ℕ, ◌≡◌, ◌≤◌, refl, true, none, List, [], ◌∷◌, length}
use os_project2_test.Sleeplock.{Sleeplock, acquiresleep, holdingsleep}
use os_project2_test.Sleeplock.Exclusion.{Use, fresh, acquires, stands_in, Use-holdingsleep}

abbrev taken : Sleeplock
taken = record { locked = true; pid = 3 }

abbrev holders : List ℕ
holders = 3 ∷ []

taken_by_3 : Use taken holders
unfolding acquiresleep
taken_by_3 = acquires 3 fresh refl

waits : acquiresleep 4 taken ≡ none
unfolding acquiresleep
waits = refl

Use-holdingsleep_example : (length holders ≤ 1) × (holdingsleep 4 taken ≡ stands_in 4 holders)
Use-holdingsleep_example = Use-holdingsleep taken_by_3 4
