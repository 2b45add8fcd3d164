-- ===== src/Proc/Robin/Ready.antt =====
-- The time that the two schedulers count as spent ready, up to the next sleep.
use os_project2_test.Prelude.{ℕ, ◌+◌, ◌-◌, ◌^◌, ◌≡◌, ◌≤◌, ◌<◌, arith}
use os_project2_test.Proc.{Proc, Chan, running}
use os_project2_test.Proc.Wake.{end_ready, fall_asleep}
use os_project2_test.Proc.Robin.{begin_run}

-- For a process ready since `enqueue_time`, above 0, that starts to run at t and sleeps at u,
-- with the times in order, u and its ready time so far below 2^30: the lottery adds t -
-- enqueue_time to its ready time, the default scheduler adds that twice and u - t as well.
pub ready_time :
    (p : Proc) (t u last : ℕ) (chan : Chan)
    → 0 < p.enqueue_time
    → p.enqueue_time ≤ t
    → t ≤ u
    → u < 2 ^ 30
    → p.total_ready_time < 2 ^ 30
    → ((fall_asleep chan u (end_ready t (record p { state = running }))).total_ready_time
        ≡ p.total_ready_time + (t - p.enqueue_time))
      × ((fall_asleep chan u (begin_run t last p)).total_ready_time
          ≡ p.total_ready_time + (t - p.enqueue_time) + (t - p.enqueue_time) + (u - t))
ready_time p t u last chan pos first second small room = (ground arith, ground arith)
