-- ===== src/Proc/Perf/Laws.antt =====
-- What storing a record does to the history and to the look-ups in it.
use os_project2_test.Prelude.{
  ℕ, suc, min, ◌+◌, ◌≤◌, ◌≡◌, refl, true, false, ◌&&◌, none, some, List, [], ◌∷◌, ◌==◌,
  if◌then◌else◌, find_first, update_first, length, All, arith, NoneBefore, find_first-none,
}
use os_project2_test.Proc.{Proc, PerfData, Kernel}
use os_project2_test.Proc.Perf.{
  store, find_record, get_creation_time, get_start_time, get_completion_time, get_total_run_time,
  get_total_ready_time,
}

-- How many entries are in use.
abbrev pub used : List PerfData → ℕ
used [] = 0
used (e ∷ es) = if e.valid then suc (used es) else used es

abbrev pub IsFull : List PerfData → Type 0
IsFull = All (λ (e : PerfData). e.valid ≡ true)

-- The entries in use come first.
abbrev pub IsPacked : List PerfData → Type 0
IsPacked [] = Unit {0}
IsPacked (e ∷ es) = (e.valid ≡ false → used es ≡ 0) × IsPacked es

pub store_full : (d : PerfData) (perf : List PerfData) → IsFull perf → store d perf ≡ (perf, false)
unfolding store update_first
store_full d [] h = refl
store_full d (e ∷ perf) h = ground (arith, store_full d perf h.1)

pub used-le-length : (perf : List PerfData) → used perf ≤ length perf
used-le-length [] = omega arith
used-le-length (e ∷ perf) = ground (arith, used-le-length perf)

pub length-store : (d : PerfData) (perf : List PerfData) → length (store d perf).0 ≡ length perf
unfolding store update_first
length-store d [] = refl
length-store d (e ∷ perf) = ground (arith, length-store d perf)

pub used-store :
    (d : PerfData) (perf : List PerfData)
    → d.valid ≡ true
    → used (store d perf).0 ≡ min (length perf) (used perf + 1)
unfolding store update_first
used-store d [] h = omega arith
used-store d (e ∷ perf) h = ground (arith, used-store d perf h, used-le-length perf)

-- `store` fails only if no entry is free.
pub store_succeeds :
    (d : PerfData) (perf : List PerfData) → ((store d perf).1 ≡ false) → used perf ≡ length perf
unfolding store update_first
store_succeeds d [] h = refl
store_succeeds d (e ∷ perf) h = ground (arith, store_succeeds d perf)

pub store-IsPacked :
    (d : PerfData) (perf : List PerfData)
    → d.valid ≡ true
    → IsPacked perf
    → IsPacked (store d perf).0
unfolding store update_first
store-IsPacked d [] v h = tt
store-IsPacked d (e ∷ perf) v h = ground (arith, store-IsPacked d perf v h.1)

find_record_unused : (perf : List PerfData) (pid : ℕ) → used perf ≡ 0 → find_record perf pid ≡ none
unfolding find_first
find_record_unused [] pid h = refl
find_record_unused (e ∷ perf) pid h = ground (arith, find_record_unused perf pid)

-- In a history whose used entries come first, after a record is stored a look-up finds the older
-- record of the id if there is one, else the new one if it has the id and there was room, else
-- none.
pub find_record-store :
    (d : PerfData) (perf : List PerfData) (pid : ℕ)
    → d.valid ≡ true
    → IsPacked perf
    → find_record (store d perf).0 pid ≡ elim (find_record perf pid) [
      | some e ↦ some e
      | none ↦ if (store d perf).1 && d.pid == pid then some d else none
    ]
unfolding store update_first find_first
find_record-store d [] pid v h = refl
find_record-store d (e ∷ perf) pid v h =
    ground (arith, find_record-store d perf pid v h.1, find_record_unused perf pid)

-- Of a process that is not in the table the look-ups give the figures on record.
pub get_figures :
    (k : Kernel) (pid : ℕ) (e : PerfData)
    → find_record k.perf pid ≡ some e
    → NoneBefore (λ (q : Proc). q.pid == pid) k.table
    → (get_creation_time k pid ≡ e.creation_time)
      × (get_start_time k pid ≡ e.start_time)
      × (get_completion_time k pid ≡ e.completion_time)
      × (get_total_run_time k pid ≡ e.total_run_time)
      × (get_total_ready_time k pid ≡ e.total_ready_time)
unfolding get_creation_time get_start_time get_completion_time get_total_run_time
    get_total_ready_time
get_figures k pid e filed gone =
    let absent = find_first-none (λ (q : Proc). q.pid == pid) k.table gone in
    (
      ground (arith, absent),
      ground (arith, absent),
      ground (arith, absent),
      ground (arith, absent),
      ground (arith, absent),
    )
