-- ===== src/Proc/Perf.antt =====
-- perf_data, the history of figures of finished processes, and the five functions of proc.c that
-- look a figure up by process id.
pub mod Laws
use os_project2_test.Prelude.{
  ℕ, Bool, true, false, not, ◌&&◌, Option, none, some, List, [], ◌∷◌, ◌==◌, if◌then◌else◌,
  find_first, update_first, minus_one,
}
use os_project2_test.Proc.{Proc, PerfData, Kernel}

-- for(i...) if(!perf_data[i].valid) { ...; break; }, with whether an entry was free.
pub store : PerfData → List PerfData → List PerfData × Bool
store d perf = elim (update_first (λ (e : PerfData). not e.valid) (λ e. d) perf) [
  | none ↦ (perf, false)
  | some perf' ↦ (perf', true)
]

-- The first entry of the history with this id.
abbrev pub find_record : List PerfData → ℕ → Option PerfData
find_record perf pid = find_first (λ (e : PerfData). e.valid && e.pid == pid) perf

-- Its figure.
abbrev pub history : (PerfData → ℕ) → List PerfData → ℕ → ℕ
history figure perf pid = elim (find_record perf pid) [ none ↦ minus_one | some e ↦ figure e ]

-- The figure in the first entry of the process table with this id.
abbrev pub current : (Proc → ℕ) → List Proc → ℕ → ℕ
current figure table pid = elim (find_first (λ (p : Proc). p.pid == pid) table) [
  | none ↦ minus_one
  | some p ↦ figure p
]

-- The process table first; the history if that gives -1.
abbrev figure_of : (Proc → ℕ) → (PerfData → ℕ) → Kernel → ℕ → ℕ
figure_of now past k pid =
    let v = current now k.table pid in if v == minus_one then history past k.perf pid else v

pub get_creation_time : Kernel → ℕ → ℕ
get_creation_time = figure_of (λ p. p.creation_time) (λ e. e.creation_time)

pub get_start_time : Kernel → ℕ → ℕ
get_start_time = figure_of (λ p. p.start_time) (λ e. e.start_time)

pub get_completion_time : Kernel → ℕ → ℕ
get_completion_time = figure_of (λ p. p.completion_time) (λ e. e.completion_time)

pub get_total_run_time : Kernel → ℕ → ℕ
get_total_run_time = figure_of (λ p. p.total_run_time) (λ e. e.total_run_time)

pub get_total_ready_time : Kernel → ℕ → ℕ
get_total_ready_time = figure_of (λ p. p.total_ready_time) (λ e. e.total_ready_time)
