-- ===== src/ThreadPool/Tests.antt =====
-- thread_pool.cpp with one worker, on tasks that are numbers.
use multi_threaded_tcp_chat.Base.{ℕ, ◌<◌, ◌≡◌, ◌≢◌, ◌⊎◌, refl, true, false, [], ◌∷◌, ◌++◌}
use multi_threaded_tcp_chat.ThreadPool.{
  asleep, Pool, fresh_workers, pool_size, new_pool, pending_tasks, is_running, enqueue, shutdown,
  look, total, sleeps, Step, submit, begin_shutdown, go_to_sleep, Reach, start, next,
}
use multi_threaded_tcp_chat.ThreadPool.Invariant.{awake, runs, each_task_once}
use multi_threaded_tcp_chat.ThreadPool.Progress.{
  work_left, Run, IsDrained, no_lost_wakeup, shutdown_drains,
}

-- The only worker sleeps, and two tasks come.
abbrev idle : Pool ℕ
idle = record (new_pool 4 1) { workers = asleep ∷ [] }

idle-Reach : Reach 4 1 idle
unfolding new_pool fresh_workers pool_size look
idle-Reach = next start (go_to_sleep (new_pool 4 1) [] [] refl refl)

abbrev waiting : Pool ℕ
waiting = enqueue 8 (enqueue 7 idle)

waiting-Reach : Reach 4 1 waiting
waiting-Reach = next (next idle-Reach (submit 7 idle)) (submit 8 (enqueue 7 idle))

two_pending : pending_tasks waiting ≡ 2
unfolding pending_tasks enqueue new_pool
two_pending = refl

default_size : (pool_size 4 0 ≡ 4) × (pool_size 0 0 ≡ 1)
unfolding pool_size
default_size = (refl, refl)

-- After shutdown nothing is accepted.
refused :
    (enqueue 9 (shutdown waiting) ≡ shutdown waiting) × (is_running (shutdown waiting) ≡ false)
unfolding enqueue shutdown new_pool is_running
refused = (refl, refl)

each_task_once_example :
    (waiting.accepted ≡ waiting.taken ++ waiting.tasks)
    × (waiting.active_tasks ≡ total runs waiting.workers)
each_task_once_example = each_task_once waiting-Reach

no_lost_wakeup_example :
    (waiting.tasks ≢ [] → (0 < waiting.notices) ⊎ (0 < total awake waiting.workers))
    × (waiting.stop ≡ true → 0 < total sleeps waiting.workers → waiting.announcing ≡ true)
no_lost_wakeup_example = no_lost_wakeup waiting-Reach

abbrev stopping : Pool ℕ
stopping = shutdown waiting

stopping_stopped : stopping.stop ≡ true
unfolding shutdown enqueue new_pool
stopping_stopped = refl

shutdown_drains_example :
    ((q : Pool ℕ)
      → Step stopping q
      → (q.accepted ≡ stopping.accepted) × ((q ≡ stopping) ⊎ (work_left q < work_left stopping)))
    × ((q : Pool ℕ) × Run stopping q × IsDrained q × (q.accepted ≡ stopping.accepted))
shutdown_drains_example =
    shutdown_drains (next waiting-Reach (begin_shutdown waiting)) stopping_stopped
