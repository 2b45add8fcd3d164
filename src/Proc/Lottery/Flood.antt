-- ===== src/Proc/Lottery/Flood.antt =====
-- How the first loop of a lottery round fills the history of figures.
use os_project2_test.Prelude.{
  ℕ, suc, ◌+◌, ◌≡◌, refl, List, [], ◌∷◌, if◌then◌else◌, arith, min, Bool-cases, length, inl, inr,
}
use os_project2_test.Proc.{Proc, PerfData, perf_of}
use os_project2_test.Proc.Perf.{store}
use os_project2_test.Proc.Perf.Laws.{used, used-store, length-store, used-le-length}
use os_project2_test.Proc.Lottery.{is_stale, complete, update_metrics}

-- How many entries of the process table are stale.
abbrev pub stale : List Proc → ℕ
stale [] = 0
stale (p ∷ ps) = if is_stale p then suc (stale ps) else stale ps

-- The first loop of a lottery round puts one record into the history for each stale entry of the
-- process table, free slots included, until it is full, and leaves the history's length alone.
pub used-update_metrics :
    (ticks : ℕ) (table : List Proc) (perf : List PerfData)
    → (used (update_metrics ticks table perf).1 ≡ min (length perf) (used perf + stale table))
      × (length (update_metrics ticks table perf).1 ≡ length perf)
unfolding update_metrics
used-update_metrics ticks [] perf = omega (arith, used-le-length perf)
used-update_metrics ticks (p ∷ ps) perf = elim (Bool-cases (is_stale p)) [
  | inl e ↦ ground (
    arith,
    used-update_metrics ticks ps (store (perf_of (complete ticks p)) perf).0,
    used-store (perf_of (complete ticks p)) perf refl,
    length-store (perf_of (complete ticks p)) perf,
  )
  | inr e ↦ ground (arith, used-update_metrics ticks ps perf)
]
