-- ===== src/Threading/LockTests.antt =====
-- The locks of win32_compat.h over a critical section that has an owner and a count.
use multi_threaded_tcp_chat.Base.{
  ℕ, ◌+◌, ◌-◌, ◌<◌, ◌≡◌, ◌≢◌, refl, true, ◌||◌, Option, none, some, [], ◌∷◌, if◌then◌else◌, ◌==◌,
  nat_eq, is_some, arith, Bool-cases, inl, inr,
}
use multi_threaded_tcp_chat.Threading.Locks.{
  CriticalSections, Monitor, is_asleep, has_guard, new_mutex, make_guard, wait_round, makes_guard,
  waits, Reach, start, next,
}
use multi_threaded_tcp_chat.Threading.Exclusion.{mutual_exclusion}

record Section : Type 0 where
  pub owner : ℕ
  pub times : ℕ

abbrev enter : ℕ → Section → Option Section
enter t c =
    if (c.times == 0) || (c.owner == t)
    then some (record { owner = t; times = c.times + 1 })
    else none

abbrev leave : ℕ → Section → Section
leave t c = if c.owner == t then record c { times = c.times - 1 } else c

abbrev depth : Section → ℕ → ℕ
depth c t = if c.owner == t then c.times else 0

depth-enter :
    (t u : ℕ) (c d : Section)
    → enter t c ≡ some d
    → depth d u ≡ depth c u + (if t == u then 1 else 0)
depth-enter t u c d e = elim (Bool-cases ((c.times == 0) || (c.owner == t))) [
  | inr held ↦ absurd (ground (arith, e, held))
  | inl free ↦
      let same : record { owner = t; times = c.times + 1 } ≡ d = ground (arith, e, free) in
      rw (← same) (ground (arith, free))
]

enter_alone : (t u : ℕ) (c d : Section) → enter t c ≡ some d → u ≢ t → depth c u ≡ 0
enter_alone t u c d e apart = ground (arith, e)

enter_free : (t : ℕ) (c : Section) → ((u : ℕ) → u ≢ t → depth c u ≡ 0) → is_some (enter t c) ≡ true
enter_free t c free = ground (arith, free c.owner)

abbrev fresh : Section
fresh = record { owner = 0; times = 0 }

depth-fresh : (t : ℕ) → depth fresh t ≡ 0
depth-fresh t = ground arith

depth-leave :
    (t u : ℕ) (c : Section)
    → 0 < depth c t
    → depth (leave t c) u ≡ depth c u - (if t == u then 1 else 0)
depth-leave t u c h = ground (arith, h)

abbrev windows : CriticalSections Section
windows = record {
  initialized = fresh;
  enter = enter;
  leave = leave;
  depth = depth;
  depth-initialized = depth-fresh;
  depth-enter = depth-enter;
  enter_alone = enter_alone;
  enter_free = enter_free;
  depth-leave = depth-leave;
}

-- Thread 5 waits for the number to be there; thread 6 has the guard.
abbrev waiting : Monitor Section (Option ℕ)
waiting = record {
  section = record { owner = 6; times = 1 };
  guards = 6 ∷ 5 ∷ [];
  asleep = 5 ∷ [];
  shared = none;
}

waiting-Reach : Reach windows waiting
unfolding new_mutex make_guard wait_round is_asleep has_guard
waiting-Reach =
    let empty = new_mutex windows none in
    let one : Monitor Section (Option ℕ) = record {
      section = record { owner = 5; times = 1 };
      guards = 5 ∷ [];
      asleep = [];
      shared = none;
    } in
    let slept = (wait_round windows 5 is_some one).1 in
    next
      (next (next (start none) (makes_guard 5 empty one refl refl)) (waits 5 is_some one refl refl))
      (makes_guard 6 slept waiting refl refl)

mutual_exclusion_example : is_some (make_guard windows 6 waiting) ≡ true
unfolding is_asleep has_guard
mutual_exclusion_example = (mutual_exclusion windows waiting-Reach).1 6 refl refl
