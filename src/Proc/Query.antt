-- ===== src/Proc/Query.antt =====
-- getrunticks, gettickets, sys_set_tickets and job_position of proc.c.
use os_project2_test.Prelude.{
  ℕ, ◌||◌, Option, none, some, ◌==◌, if◌then◌else◌, modify, find_first, minus_one, le_int,
}
use os_project2_test.Proc.{Proc, Kernel, is_unused, is_zombie, is_runnable, is_running}

pub getrunticks : Kernel → ℕ → ℕ
getrunticks k pid = elim (find_first (λ (p : Proc). p.pid == pid) k.table) [
  | none ↦ minus_one
  | some p ↦ if is_zombie p.state || is_unused p.state then minus_one else p.runticks
]

-- With the argument that `argint` fetched; `cur` is the calling process, `none` if there is none.
unfoldable pub set_tickets : Kernel → Option ℕ → ℕ → ℕ × Kernel
set_tickets k cur t = elim cur [
  | none ↦ (minus_one, k)
  | some i ↦
      if le_int t 0
      then (minus_one, k)
      else (0, record k { table = modify i (λ p. record p { tickets = t }) k.table })
]

pub gettickets : Kernel → ℕ → ℕ
gettickets k pid = elim (find_first (λ (p : Proc). p.pid == pid) k.table) [
  | none ↦ minus_one
  | some p ↦ if is_runnable p.state || is_running p.state then p.tickets else minus_one
]

pub job_position : Kernel → ℕ → ℕ
job_position k pid = elim (find_first (λ (p : Proc). p.pid == pid) k.table) [
  | none ↦ minus_one
  | some p ↦ p.pid
]
