-- ===== src/ThreadPool/Progress.antt =====
-- The pool never gets stuck, and comes to an end once it is told to stop.
use multi_threaded_tcp_chat.Base.{
  ℕ, zero, suc, ◌+◌, ◌*◌, ◌<◌, ◌≤◌, ◌≡◌, refl, ap, sym, ◌∙◌, ◌⊎◌, ◌≢◌, inl, inr, Bool, true, false,
  List, [], ◌∷◌, ◌++◌, map, arith, length,
}
use multi_threaded_tcp_chat.ThreadPool.{
  Worker, looking, asleep, holding, running, exited, Pool, enqueue, shutdown, Look, sleep, leave,
  take, look, wake, total, sleeps, Step, submit, begin_shutdown, notify_sleeper, notify_nobody,
  notify_all, wake_up, go_to_sleep, take_task, exit, start_task, finish_task, Reach,
}
use multi_threaded_tcp_chat.ThreadPool.Invariant.{
  awake, total-change, look-sleep, look-take, Inv, Step-Inv, Reach-Inv,
}
use mathlib.Core.List.{append-nil}

abbrev pub bit : Bool → ℕ
bit true = 1
bit false = 0

module _ {T : Type 0} where
  -- Somebody in the list, with the others on both sides.
  record Found (weight : Worker T → ℕ) (ws : List (Worker T)) : Type 0 where
    before : List (Worker T)
    worker : Worker T
    after : List (Worker T)
    split : ws ≡ before ++ worker ∷ after
    counted : 0 < weight worker

  find_worker :
      (weight : Worker T → ℕ) (ws : List (Worker T)) → 0 < total weight ws → Found weight ws
  find_worker weight [] h = absurd (omega arith)
  find_worker weight (w ∷ ws) h = elim (zero_or_pos (weight w)) [
    | inr p ↦ record { before = []; worker = w; after = ws; split = refl; counted = p }
    | inl z ↦
        let f = find_worker weight ws (omega (arith, h, z)) in
        record {
          before = w ∷ f.before;
          worker = f.worker;
          after = f.after;
          split = ap (◌∷◌ w) f.split;
          counted = f.counted;
        }
  ]
    where
      zero_or_pos : (n : ℕ) → (n ≡ 0) ⊎ (0 < n)
      zero_or_pos n = ground arith

  -- What one step of a worker, or of a thread about to notify, weighs at most.
  abbrev pub effort : Worker T → ℕ
  effort looking = 1
  effort asleep = 2
  effort (running t) = 2
  effort (holding t) = 3
  effort exited = 0

  abbrev pub work_left : Pool T → ℕ
  work_left p = 3 * length p.tasks + total effort p.workers + p.notices + bit p.announcing

  total-wake-effort : (ws : List (Worker T)) → total effort (map wake ws) ≤ total effort ws
  total-wake-effort [] = omega arith
  total-wake-effort (asleep ∷ ws) = omega (arith, total-wake-effort ws)
  total-wake-effort (w ∷ ws) = omega (arith, total-wake-effort ws)

  -- In a pool that was told to stop, a step changes nothing or brings the end nearer.
  stopped-Step :
      {p q : Pool T}
      → Step p q
      → p.stop ≡ true
      → (q.stop ≡ true) × (q.accepted ≡ p.accepted) × ((q ≡ p) ⊎ (work_left q < work_left p))
  unfolding enqueue shutdown
  stopped-Step (submit t p) h = ground arith
  stopped-Step (begin_shutdown p) h = ground arith
  stopped-Step (notify_sleeper p xs ys n e) h =
      (h, refl, inr (omega (arith, total-change effort asleep looking xs ys e)))
  stopped-Step (notify_nobody p n none) h = (h, refl, inr (omega arith))
  stopped-Step (notify_all p a) h =
      (h, refl, inr (omega (arith, total-wake-effort p.workers, ap bit a)))
  stopped-Step (wake_up p xs ys e) h =
      (h, refl, inr (omega (arith, total-change effort asleep looking xs ys e)))
  stopped-Step (go_to_sleep p xs ys e l) h = absurd (ground (arith, look-sleep p l))
  stopped-Step (take_task p xs ys t rest e l) h = (
    h,
    refl,
    inr (
        omega (
          arith,
          ap length (look-take p t rest l),
          total-change effort looking (holding t) xs ys e,
        )),
  )
  stopped-Step (exit p xs ys e l) h =
      (h, refl, inr (omega (arith, total-change effort looking exited xs ys e)))
  stopped-Step (start_task p xs ys t e) h =
      (h, refl, inr (omega (arith, total-change effort (holding t) (running t) xs ys e)))
  stopped-Step (finish_task p xs ys t e) h =
      (h, refl, inr (omega (arith, total-change effort (running t) looking xs ys e)))

  -- The steps from one state to another.
  pub data Run (p : Pool T) : Pool T → Type 0 where
    here : Run p p
    then_step : {q r : Pool T} → Run p q → Step q r → Run p r

  Run-trans : {p q r : Pool T} → Run p q → Run q r → Run p r
  Run-trans a here = a
  Run-trans a (then_step b s) = then_step (Run-trans a b) s

  look-cases :
      (p : Pool T)
      → (look p ≡ sleep) ⊎ (look p ≡ leave) ⊎ ((t : T) × (rest : List T) × (look p ≡ take t rest))
  look-cases p = at (look p) refl
    where
      at :
          (l : Look T)
          → look p ≡ l
          → (look p ≡ sleep)
            ⊎ (look p ≡ leave)
            ⊎ ((t : T) × (rest : List T) × (look p ≡ take t rest))
      at sleep e = inl e
      at leave e = inr (inl e)
      at (take t rest) e = inr (inr (t, rest, e))

  -- A step towards the end.
  abbrev Nearer : Pool T → Type 0
  Nearer p = (q : Pool T) × Step p q × (work_left q < work_left p)

  -- While a worker has not returned, the stopped pool can make such a step.
  awake_step :
      (p : Pool T) (w : Worker T) (xs ys : List (Worker T))
      → p.stop ≡ true
      → 0 < awake w
      → p.workers ≡ xs ++ w ∷ ys
      → Nearer p
  awake_step p looking xs ys stopped h e = elim (look-cases p) [
    | inl l ↦ absurd (ground (arith, look-sleep p l))
    | inr (inl l) ↦ (_, exit p xs ys e l, omega (arith, total-change effort looking exited xs ys e))
    | inr (inr (t, rest, l)) ↦ (
      _,
      take_task p xs ys t rest e l,
      omega (
        arith,
        ap length (look-take p t rest l),
        total-change effort looking (holding t) xs ys e,
      ),
    )
  ]
  awake_step p (holding t) xs ys stopped h e = (
    _,
    start_task p xs ys t e,
    omega (arith, total-change effort (holding t) (running t) xs ys e),
  )
  awake_step p (running t) xs ys stopped h e =
      (_, finish_task p xs ys t e, omega (arith, total-change effort (running t) looking xs ys e))
  awake_step p asleep xs ys stopped h e = absurd (omega arith)
  awake_step p exited xs ys stopped h e = absurd (omega arith)

  nearer :
      (p : Pool T)
      → Inv p
      → p.stop ≡ true
      → 0 < total awake p.workers + total sleeps p.workers
      → Nearer p
  nearer p i stopped h = elim (some_awake (total awake p.workers)) [
    | inr a ↦
        let f = find_worker awake p.workers a in
        awake_step p f.worker f.before f.after stopped f.counted f.split
    | inl none ↦
        let a = i.called stopped (omega (arith, h, none)) in
        (_, notify_all p a, omega (arith, total-wake-effort p.workers, ap bit a))
  ]
    where
      some_awake : (n : ℕ) → (n ≡ 0) ⊎ (0 < n)
      some_awake n = ground arith

  -- All have returned, nothing is left, and what was accepted was taken.
  pub record IsDrained (p : Pool T) : Type 0 where
    pub nobody : total awake p.workers + total sleeps p.workers ≡ 0
    pub no_tasks : p.tasks ≡ []
    pub all_taken : p.taken ≡ p.accepted

  end-IsDrained :
      (p : Pool T) → Inv p → total awake p.workers + total sleeps p.workers ≡ 0 → IsDrained p
  end-IsDrained p i none =
      let (_, empty) = i.closed (omega (arith, i.staffed, none)) in
      record {
        nobody = none;
        no_tasks = empty;
        all_taken = sym (i.in_order ∙ ap (λ (l : List T). p.taken ++ l) empty ∙ append-nil p.taken);
      }

  drain :
      (fuel : ℕ) (p : Pool T)
      → work_left p < fuel
      → Inv p
      → p.stop ≡ true
      → (q : Pool T) × Run p q × IsDrained q × (q.accepted ≡ p.accepted)
  drain zero p h i stopped = absurd (omega arith)
  drain (suc fuel) p h i stopped =
      elim (some_left (total awake p.workers + total sleeps p.workers)) [
        | inl none ↦ (p, here, end-IsDrained p i none, refl)
        | inr some_worker ↦
            let (q, s, less) = nearer p i stopped some_worker in
            let (still, same, _) = stopped-Step s stopped in
            let (r, steps, drained, same') =
              drain fuel q (omega (arith, less, h)) (Step-Inv s i) still in
            (r, Run-trans (then_step here s) steps, drained, same' ∙ same)
      ]
    where
      some_left : (n : ℕ) → (n ≡ 0) ⊎ (0 < n)
      some_left n = ground arith

  -- No wake-up is lost: however the threads interleave, while there is a task in the queue some
  -- worker is awake or a call of notify_one is still to come, and once the pool was told to stop, no
  -- worker sleeps unless the call of notify_all is still to come.
  pub no_lost_wakeup :
      {processors n : ℕ} {p : Pool T}
      → Reach processors n p
      → (p.tasks ≢ [] → (0 < p.notices) ⊎ (0 < total awake p.workers))
        × (p.stop ≡ true → 0 < total sleeps p.workers → p.announcing ≡ true)
  no_lost_wakeup r =
      let i = Reach-Inv r in (λ some_task. ground (arith, i.noticed, some_task), i.called)

  -- After shutdown no task is accepted any more, every step that changes anything lowers the number
  -- `work_left`, so that there are only finitely many, and from every state that can be reached there is
  -- a run to an end at which all workers have returned, the queue is empty and each task that was
  -- accepted has been taken out by a worker.
  pub shutdown_drains :
      {processors n : ℕ} {p : Pool T}
      → Reach processors n p
      → p.stop ≡ true
      → ((q : Pool T)
          → Step p q
          → (q.accepted ≡ p.accepted) × ((q ≡ p) ⊎ (work_left q < work_left p)))
        × ((q : Pool T) × Run p q × IsDrained q × (q.accepted ≡ p.accepted))
  shutdown_drains {p} r stopped = (
    λ q s. let (_, same, less) = stopped-Step s stopped in (same, less),
    drain (suc (work_left p)) p (omega arith) (Reach-Inv r) stopped,
  )
