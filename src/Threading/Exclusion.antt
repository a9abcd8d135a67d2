-- ===== src/Threading/Exclusion.antt =====
-- That the locks of win32_compat.h exclude, also with guards inside guards and threads that sleep.
use multi_threaded_tcp_chat.Base.{
  ℕ, ◌+◌, ◌<◌, ◌≤◌, ◌≡◌, ◌≢◌, true, false, some, ◌∷◌, nat_eq, is_some, arith, Option-cases,
  Bool-cases, inl, inr,
}
use multi_threaded_tcp_chat.Base.Counting.{count, take_out, count-take_out}
use multi_threaded_tcp_chat.Threading.Locks.{
  CriticalSections, Monitor, is_asleep, has_guard, new_mutex, make_guard, end_guard, wait_round,
  end_sleep, Step, makes_guard, ends_guard, waits, wakes, changes, Reach, start, next,
}

module _ {C : Type 0} (windows : CriticalSections C) where
  -- Who has entered is in alone.
  entered_alone :
      (t : ℕ) (c d : C)
      → windows.enter t c ≡ some d
      → (u v : ℕ) → 0 < windows.depth d u
      → 0 < windows.depth d v
      → u ≡ v
  entered_alone t c d e u v h k = grind (
    arith,
    windows.depth-enter t u c d e,
    windows.depth-enter t v c d e,
    windows.enter_alone t u c d e,
    windows.enter_alone t v c d e,
  )

module _ {C D : Type 0} (windows : CriticalSections C) where
  record IsExclusive (m : Monitor C D) : Type 0 where
    -- A thread is in the section once for each of its guards, but one less while it sleeps.
    pub in_step : (t : ℕ) → windows.depth m.section t + count t m.asleep ≡ count t m.guards
    pub sleeps_once : (t : ℕ) → count t m.asleep ≤ 1
    pub alone : (t u : ℕ) → 0 < windows.depth m.section t → 0 < windows.depth m.section u → t ≡ u

  make_guard-IsExclusive :
      (t : ℕ) (m n : Monitor C D) → make_guard windows t m ≡ some n → IsExclusive m → IsExclusive n
  unfolding make_guard
  make_guard-IsExclusive t m n made v = elim (Option-cases (windows.enter t m.section)) [
    | inl e ↦ absurd (ground (arith, made, e))
    | inr (c, e) ↦
        let same : record m { section = c; guards = t ∷ m.guards } ≡ n = ground (arith, made, e) in
        rw (← same) (record {
          in_step = λ u. ground (arith, v.in_step u, windows.depth-enter t u m.section c e);
          sleeps_once = v.sleeps_once;
          alone = entered_alone windows t m.section c e;
        })
  ]

  -- To leave keeps the others out.
  left_alone :
      (t : ℕ) (m : Monitor C D)
      → IsExclusive m
      → 0 < windows.depth m.section t
      → (u w : ℕ) → 0 < windows.depth (windows.leave t m.section) u
      → 0 < windows.depth (windows.leave t m.section) w
      → u ≡ w
  left_alone t m v inside u w h k =
      v.alone u w (ground (arith, windows.depth-leave t u m.section inside, h))
        (ground (arith, windows.depth-leave t w m.section inside, k))

  awake_inside :
      (t : ℕ) (m : Monitor C D)
      → IsExclusive m
      → is_asleep t m ≡ false
      → has_guard t m ≡ true
      → (0 < windows.depth m.section t) × (count t m.asleep ≡ 0) × (0 < count t m.guards)
  unfolding is_asleep has_guard
  awake_inside t m v awake guarded =
      (ground (arith, v.in_step t, awake, guarded), ground (arith, awake), ground (arith, guarded))

  end_sleep-IsExclusive :
      (t : ℕ) (m n : Monitor C D)
      → is_asleep t m ≡ true
      → end_sleep windows t m ≡ some n
      → IsExclusive m
      → IsExclusive n
  unfolding end_sleep is_asleep
  end_sleep-IsExclusive t m n asleep woken v = elim (Option-cases (windows.enter t m.section)) [
    | inl e ↦ absurd (ground (arith, woken, e))
    | inr (c, e) ↦
        let same : record m { section = c; asleep = take_out t m.asleep } ≡ n =
          ground (arith, woken, e) in
        rw (← same) (record {
          in_step = λ u. ground (
            arith,
            v.in_step u,
            windows.depth-enter t u m.section c e,
            count-take_out t u m.asleep,
            asleep,
          );
          sleeps_once = λ u. ground (arith, v.sleeps_once u, count-take_out t u m.asleep);
          alone = entered_alone windows t m.section c e;
        })
  ]

  Step-IsExclusive : {m n : Monitor C D} → Step windows m n → IsExclusive m → IsExclusive n
  unfolding end_guard wait_round
  Step-IsExclusive (makes_guard t m n awake made) v = make_guard-IsExclusive t m n made v
  Step-IsExclusive (ends_guard t m awake guarded) v =
      let (inside, up, holds) = awake_inside t m v awake guarded in
      record {
        in_step = λ u. ground (
          arith,
          v.in_step u,
          windows.depth-leave t u m.section inside,
          count-take_out t u m.guards,
          up,
        );
        sleeps_once = v.sleeps_once;
        alone = left_alone t m v inside;
      }
  Step-IsExclusive (waits t predicate m awake guarded) v =
      let (inside, up, holds) = awake_inside t m v awake guarded in
      elim (Bool-cases (predicate m.shared)) [
        | inl ready ↦ rw (ready, wait_round) v
        | inr early ↦
            rw (early, wait_round)
              (record {
                in_step = λ u.
                    ground
                      (arith, v.in_step u, windows.depth-leave t u m.section inside, inside, up);
                sleeps_once = λ u. ground (arith, v.sleeps_once u, up);
                alone = left_alone t m v inside;
              })
      ]
  Step-IsExclusive (wakes t m n asleep woken) v = end_sleep-IsExclusive t m n asleep woken v
  Step-IsExclusive (changes t d m awake guarded) v = record {
    in_step = v.in_step;
    sleeps_once = v.sleeps_once;
    alone = v.alone;
  }

  Reach-IsExclusive : {m : Monitor C D} → Reach windows m → IsExclusive m
  unfolding new_mutex
  Reach-IsExclusive (start d) = record {
    in_step = λ t. omega (arith, windows.depth-initialized t);
    sleeps_once = λ t. omega arith;
    alone = λ t u h k. absurd (omega (arith, windows.depth-initialized t));
  }
  Reach-IsExclusive (next r s) = Step-IsExclusive s (Reach-IsExclusive r)

  enters :
      (t : ℕ) (m : Monitor C D)
      → ((u : ℕ) → u ≢ t → windows.depth m.section u ≡ 0)
      → is_some (make_guard windows t m) ≡ true
  unfolding make_guard
  enters t m free = ground (arith, windows.enter_free t m.section free)

  -- Whatever the threads do with a Mutex, its guards and ConditionVariable::wait, in any order: of the
  -- threads that are awake only one has guards. It gets a further guard at once, so that a method
  -- which holds the lock may call one that takes it. And a thread gets a guard at once when all guards
  -- of the others are of threads that sleep in `wait` and have that one guard alone.
  pub mutual_exclusion :
      {m : Monitor C D}
      → Reach windows m
      → ((t u : ℕ)
          → is_asleep t m ≡ false
          → has_guard t m ≡ true
          → is_asleep u m ≡ false
          → has_guard u m ≡ true
          → t ≡ u)
        × ((t : ℕ)
            → is_asleep t m ≡ false
            → has_guard t m ≡ true
            → is_some (make_guard windows t m) ≡ true)
        × ((t : ℕ)
            → ((u : ℕ) → u ≢ t → count u m.guards ≡ count u m.asleep)
            → is_some (make_guard windows t m) ≡ true)
  mutual_exclusion {m} r =
      let v = Reach-IsExclusive r in
      (
        λ t u awake guarded awake_too guarded_too.
            v.alone t u (awake_inside t m v awake guarded).0
              (awake_inside u m v awake_too guarded_too).0,
        λ t awake guarded.
            let inside = (awake_inside t m v awake guarded).0 in
            enters t m (λ u apart. grind (arith, v.alone t u inside)),
        λ t others. enters t m (λ u apart. grind (arith, v.in_step u, others u apart)),
      )
