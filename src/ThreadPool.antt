-- ===== src/ThreadPool.antt =====
-- thread_pool.h and thread_pool.cpp, with the waits of win32_compat.h: the queue of tasks, the
-- workers and the wake-ups, as steps of threads that interleave. What is done under `queue_mutex` is
-- one step; so is each call of the condition variable, and each change of `active_tasks`.
pub mod Invariant
pub mod Progress
mod Tests
use multi_threaded_tcp_chat.Base.{
  ℕ, zero, suc, ◌+◌, ◌-◌, ◌<◌, ◌≡◌, Bool, true, false, not, ◌&&◌, ◌||◌, List, [], ◌∷◌, ◌++◌, map,
  if◌then◌else◌, length, ◌==◌, nat_eq,
}

-- Where a worker is in the loop of its thread.
pub data Worker (T : Type 0) : Type 0 where
  -- about to look at the queue, with the lock
  looking : Worker T
  -- in SleepConditionVariableCS
  asleep : Worker T
  -- with a task out of the queue, before `active_tasks++`
  holding : T → Worker T
  -- from there to `active_tasks--`
  running : T → Worker T
  -- the thread has returned
  exited : Worker T

-- `accepted` and `taken` are not in the program: they record the tasks that `enqueue` has put into
-- the queue and those that workers have taken out, in order. `notices` counts the calls of enqueue
-- that have left the lock and not yet called notify_one, and `announcing` says that shutdown has
-- left the lock and not yet called notify_all.
pub record Pool (T : Type 0) : Type 0 where
  pub tasks : List T
  pub stop : Bool
  pub workers : List (Worker T)
  pub active_tasks : ℕ
  pub notices : ℕ
  pub announcing : Bool
  pub accepted : List T
  pub taken : List T

-- "Ensure at least 1 thread": `processors` stands for what GetSystemInfo says.
unfoldable pub pool_size : ℕ → ℕ → ℕ
pool_size processors num_threads =
    if num_threads == 0 then (if processors == 0 then 1 else processors) else num_threads

module _ {T : Type 0} where
  unfoldable pub fresh_workers : ℕ → List (Worker T)
  fresh_workers zero = []
  fresh_workers (suc n) = looking ∷ fresh_workers n

  -- The constructor.
  unfoldable pub new_pool : ℕ → ℕ → Pool T
  unfolding fresh_workers pool_size
  new_pool processors num_threads = record {
    tasks = [];
    stop = false;
    workers = fresh_workers (pool_size processors num_threads);
    active_tasks = 0;
    notices = 0;
    announcing = false;
    accepted = [];
    taken = [];
  }

  unfoldable pub pending_tasks : Pool T → ℕ
  pending_tasks p = length p.tasks

  unfoldable pub is_running : Pool T → Bool
  is_running p = not p.stop

  -- enqueue, up to the end of the lock
  unfoldable pub enqueue : T → Pool T → Pool T
  enqueue t p = if p.stop then p else record p {
    tasks = p.tasks ++ t ∷ [];
    notices = p.notices + 1;
    accepted = p.accepted ++ t ∷ [];
  }

  -- shutdown, up to the end of the lock
  unfoldable pub shutdown : Pool T → Pool T
  shutdown p = if p.stop then p else record p { stop = true; announcing = true }

  abbrev pub is_empty : List T → Bool
  is_empty [] = true
  is_empty (t ∷ ts) = false

-- What a worker that holds the lock does: sleep in the wait, return, or take the first task and leave
-- the rest.
pub data Look (T : Type 0) : Type 0 where
  sleep : Look T
  leave : Look T
  take : T → List T → Look T

module _ {T : Type 0} where
  -- `tasks.front()` and `pop()`; the code does not come here with an empty queue
  unfoldable pub pop_task : List T → Look T
  pop_task [] = leave
  pop_task (t ∷ ts) = take t ts

  unfoldable pub look : Pool T → Look T
  unfolding pop_task
  look p =
      if p.stop || not (is_empty p.tasks)
      then (if p.stop && is_empty p.tasks then leave else pop_task p.tasks)
      else sleep

  -- notify_all
  abbrev pub wake : Worker T → Worker T
  wake asleep = looking
  wake w = w

  -- How many workers a weight counts.
  abbrev pub total : (Worker T → ℕ) → List (Worker T) → ℕ
  total weight [] = 0
  total weight (w ∷ ws) = weight w + total weight ws

  abbrev pub sleeps : Worker T → ℕ
  sleeps asleep = 1
  sleeps _ = 0

  -- One step of one thread: a caller of enqueue or shutdown, or a worker, which stands between
  -- `xs` and `ys` in the list of workers.
  pub data Step : Pool T → Pool T → Type 0 where
    submit : (t : T) (p : Pool T) → Step p (enqueue t p)
    begin_shutdown : (p : Pool T) → Step p (shutdown p)
    notify_sleeper :
        (p : Pool T) (xs ys : List (Worker T))
        → 0 < p.notices
        → p.workers ≡ xs ++ asleep ∷ ys
        → Step p (record p { notices = p.notices - 1; workers = xs ++ looking ∷ ys })
    notify_nobody :
        (p : Pool T)
        → 0 < p.notices
        → total sleeps p.workers ≡ 0
        → Step p (record p { notices = p.notices - 1 })
    notify_all :
        (p : Pool T)
        → p.announcing ≡ true
        → Step p (record p { announcing = false; workers = map wake p.workers })
    wake_up :
        (p : Pool T) (xs ys : List (Worker T))
        → p.workers ≡ xs ++ asleep ∷ ys
        → Step p (record p { workers = xs ++ looking ∷ ys })
    go_to_sleep :
        (p : Pool T) (xs ys : List (Worker T))
        → p.workers ≡ xs ++ looking ∷ ys
        → look p ≡ sleep
        → Step p (record p { workers = xs ++ asleep ∷ ys })
    take_task :
        (p : Pool T) (xs ys : List (Worker T)) (t : T) (rest : List T)
        → p.workers ≡ xs ++ looking ∷ ys
        → look p ≡ take t rest
        → Step p
            (record p { workers = xs ++ holding t ∷ ys; tasks = rest; taken = p.taken ++ t ∷ [] })
    exit :
        (p : Pool T) (xs ys : List (Worker T))
        → p.workers ≡ xs ++ looking ∷ ys
        → look p ≡ leave
        → Step p (record p { workers = xs ++ exited ∷ ys })
    start_task :
        (p : Pool T) (xs ys : List (Worker T)) (t : T)
        → p.workers ≡ xs ++ holding t ∷ ys
        → Step p (record p { workers = xs ++ running t ∷ ys; active_tasks = p.active_tasks + 1 })
    finish_task :
        (p : Pool T) (xs ys : List (Worker T)) (t : T)
        → p.workers ≡ xs ++ running t ∷ ys
        → Step p (record p { workers = xs ++ looking ∷ ys; active_tasks = p.active_tasks - 1 })

  pub data Reach (processors num_threads : ℕ) : Pool T → Type 0 where
    start : Reach processors num_threads (new_pool processors num_threads)
    next :
        {p q : Pool T} → Reach processors num_threads p → Step p q → Reach processors num_threads q
