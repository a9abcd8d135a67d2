-- ===== src/ThreadPool/Invariant.antt =====
-- What holds of the pool however its threads interleave.
use multi_threaded_tcp_chat.Base.{
  ℕ, zero, suc, ◌+◌, ◌<◌, ◌≡◌, refl, ap, ◌⊎◌, true, false, List, [], ◌∷◌, ◌++◌, map, arith,
}
use mathlib.Core.List.{append_assoc}
use multi_threaded_tcp_chat.ThreadPool.{
  Worker, looking, asleep, holding, running, exited, Pool, fresh_workers, pool_size, new_pool,
  enqueue, shutdown, sleep, leave, take, look, wake, total, sleeps, Step, submit, begin_shutdown,
  notify_sleeper, notify_nobody, notify_all, wake_up, go_to_sleep, take_task, exit, start_task,
  finish_task, Reach, start, next,
}

pool_size_pos : (processors n : ℕ) → 0 < pool_size processors n
unfolding pool_size
pool_size_pos processors n = ground arith

module _ {T : Type 0} where
  -- A worker that will look at the queue again without being woken.
  abbrev pub awake : Worker T → ℕ
  awake asleep = 0
  awake exited = 0
  awake _ = 1

  abbrev pub exits : Worker T → ℕ
  exits exited = 1
  exits _ = 0

  abbrev pub runs : Worker T → ℕ
  runs (running t) = 1
  runs _ = 0

  pub total-split :
      (weight : Worker T → ℕ) (w : Worker T) (xs ys : List (Worker T))
      → total weight (xs ++ w ∷ ys) ≡ total weight xs + weight w + total weight ys
  total-split weight w [] ys = omega arith
  total-split weight w (x ∷ xs) ys = omega (arith, total-split weight w xs ys)

  -- One worker changes, the others do not.
  pub total-change :
      (weight : Worker T → ℕ) (v w : Worker T) (xs ys : List (Worker T)) {ws : List (Worker T)}
      → ws ≡ xs ++ v ∷ ys
      → total weight (xs ++ w ∷ ys) + weight v ≡ total weight ws + weight w
  total-change weight v w xs ys e =
      omega (arith, ap (total weight) e, total-split weight v xs ys, total-split weight w xs ys)

  pub look-sleep : (p : Pool T) → look p ≡ sleep → (p.stop ≡ false) × (p.tasks ≡ [])
  unfolding look
  look-sleep p h = ground arith

  pub look-leave : (p : Pool T) → look p ≡ leave → (p.stop ≡ true) × (p.tasks ≡ [])
  unfolding look
  look-leave p h = ground arith

  pub look-take : (p : Pool T) (t : T) (rest : List T) → look p ≡ take t rest → p.tasks ≡ t ∷ rest
  unfolding look
  look-take p t rest h = ground arith

  pub record Inv (p : Pool T) : Type 0 where
    pub in_order : p.accepted ≡ p.taken ++ p.tasks
    pub active : p.active_tasks ≡ total runs p.workers
    pub closed : 0 < total exits p.workers → (p.stop ≡ true) × (p.tasks ≡ [])
    pub called : p.stop ≡ true → 0 < total sleeps p.workers → p.announcing ≡ true
    pub noticed : (p.tasks ≡ []) ⊎ (0 < p.notices) ⊎ (0 < total awake p.workers)
    pub staffed : 0 < total awake p.workers + total sleeps p.workers + total exits p.workers

  total-wake-awake :
      (ws : List (Worker T)) → total awake (map wake ws) ≡ total awake ws + total sleeps ws
  total-wake-awake [] = refl
  total-wake-awake (asleep ∷ ws) = omega (arith, total-wake-awake ws)
  total-wake-awake (w ∷ ws) = omega (arith, total-wake-awake ws)

  total-wake-sleeps : (ws : List (Worker T)) → total sleeps (map wake ws) ≡ 0
  total-wake-sleeps [] = refl
  total-wake-sleeps (asleep ∷ ws) = omega (arith, total-wake-sleeps ws)
  total-wake-sleeps (w ∷ ws) = omega (arith, total-wake-sleeps ws)

  total-wake-exits : (ws : List (Worker T)) → total exits (map wake ws) ≡ total exits ws
  total-wake-exits [] = refl
  total-wake-exits (asleep ∷ ws) = omega (arith, total-wake-exits ws)
  total-wake-exits (w ∷ ws) = omega (arith, total-wake-exits ws)

  total-wake-runs : (ws : List (Worker T)) → total runs (map wake ws) ≡ total runs ws
  total-wake-runs [] = refl
  total-wake-runs (asleep ∷ ws) = omega (arith, total-wake-runs ws)
  total-wake-runs (w ∷ ws) = omega (arith, total-wake-runs ws)

  pub Step-Inv : {p q : Pool T} → Step p q → Inv p → Inv q
  unfolding enqueue shutdown
  Step-Inv (submit t p) i =
      ground (arith, i.closed, i.called, append_assoc p.taken p.tasks (t ∷ []))
  Step-Inv (begin_shutdown p) i = ground (arith, i.closed, i.called)
  Step-Inv (notify_sleeper p xs ys n e) i = ground (
    arith,
    i.closed,
    i.called,
    i.active,
    i.noticed,
    i.staffed,
    total-change awake asleep looking xs ys e,
    total-change sleeps asleep looking xs ys e,
    total-change exits asleep looking xs ys e,
    total-change runs asleep looking xs ys e,
  )
  Step-Inv (notify_nobody p n none) i =
      ground (arith, i.closed, i.called, i.active, i.noticed, i.staffed, none)
  Step-Inv (notify_all p a) i = ground (
    arith,
    i.closed,
    i.called,
    i.active,
    i.noticed,
    i.staffed,
    total-wake-awake p.workers,
    total-wake-sleeps p.workers,
    total-wake-exits p.workers,
    total-wake-runs p.workers,
  )
  Step-Inv (wake_up p xs ys e) i = ground (
    arith,
    i.closed,
    i.called,
    i.active,
    i.noticed,
    i.staffed,
    total-change awake asleep looking xs ys e,
    total-change sleeps asleep looking xs ys e,
    total-change exits asleep looking xs ys e,
    total-change runs asleep looking xs ys e,
  )
  Step-Inv (go_to_sleep p xs ys e l) i = ground (
    arith,
    i.closed,
    i.called,
    i.active,
    i.noticed,
    i.staffed,
    look-sleep p l,
    total-change awake looking asleep xs ys e,
    total-change sleeps looking asleep xs ys e,
    total-change exits looking asleep xs ys e,
    total-change runs looking asleep xs ys e,
  )
  Step-Inv (take_task p xs ys t rest e l) i = ground (
    arith,
    i.closed,
    i.called,
    i.active,
    i.noticed,
    i.staffed,
    look-take p t rest l,
    append_assoc p.taken (t ∷ []) rest,
    total-change awake looking (holding t) xs ys e,
    total-change sleeps looking (holding t) xs ys e,
    total-change exits looking (holding t) xs ys e,
    total-change runs looking (holding t) xs ys e,
  )
  Step-Inv (exit p xs ys e l) i = ground (
    arith,
    i.closed,
    i.called,
    i.active,
    i.noticed,
    i.staffed,
    look-leave p l,
    total-change awake looking exited xs ys e,
    total-change sleeps looking exited xs ys e,
    total-change exits looking exited xs ys e,
    total-change runs looking exited xs ys e,
  )
  Step-Inv (start_task p xs ys t e) i = ground (
    arith,
    i.closed,
    i.called,
    i.active,
    i.noticed,
    i.staffed,
    total-change awake (holding t) (running t) xs ys e,
    total-change sleeps (holding t) (running t) xs ys e,
    total-change exits (holding t) (running t) xs ys e,
    total-change runs (holding t) (running t) xs ys e,
  )
  Step-Inv (finish_task p xs ys t e) i = ground (
    arith,
    i.closed,
    i.called,
    i.active,
    i.noticed,
    i.staffed,
    total-change awake (running t) looking xs ys e,
    total-change sleeps (running t) looking xs ys e,
    total-change exits (running t) looking xs ys e,
    total-change runs (running t) looking xs ys e,
  )

module _ (T : Type 0) where
  fresh_counts :
      (n : ℕ)
      → let ws : List (Worker T) = fresh_workers n in
        (total awake ws ≡ n) × (total sleeps ws ≡ 0) × (total exits ws ≡ 0) × (total runs ws ≡ 0)
  unfolding fresh_workers
  fresh_counts zero = (refl, refl, refl, refl)
  fresh_counts (suc n) =
      let (a, b, c, d) = fresh_counts n in
      (omega (arith, a), omega (arith, b), omega (arith, c), omega (arith, d))

module _ {T : Type 0} where
  pub new_pool-Inv : (processors n : ℕ) → Inv (new_pool {T = T} processors n)
  unfolding new_pool
  new_pool-Inv processors n =
      let k = pool_size processors n in ground (arith, fresh_counts T k, pool_size_pos processors n)

  pub Reach-Inv : {processors n : ℕ} {p : Pool T} → Reach processors n p → Inv p
  Reach-Inv {processors} {n} start = new_pool-Inv processors n
  Reach-Inv (next r s) = Step-Inv s (Reach-Inv r)

  -- However the threads interleave, the tasks that were accepted are those that workers have taken
  -- out, in the order of their acceptance and each once, followed by those in the queue; and
  -- `active_tasks` is the number of workers that run one.
  pub each_task_once :
      {processors n : ℕ} {p : Pool T}
      → Reach processors n p
      → (p.accepted ≡ p.taken ++ p.tasks) × (p.active_tasks ≡ total runs p.workers)
  each_task_once r = let i = Reach-Inv r in (i.in_order, i.active)
