-- ===== src/Threading/Locks.antt =====
-- Mutex, LockGuard and ConditionVariable of win32_compat.h, over the critical sections of Windows. A
-- thread is a number.
use multi_threaded_tcp_chat.Base.{
  ℕ, ◌+◌, ◌-◌, ◌<◌, ◌≡◌, ◌≢◌, Bool, true, false, Option, none, some, List, [], ◌∷◌, if◌then◌else◌,
  ltb, ◌==◌, nat_eq, is_some,
}
use multi_threaded_tcp_chat.Base.Counting.{count, take_out}

-- What Windows says of a CRITICAL_SECTION: a thread that is in it may enter it again, no other thread
-- may, and it has to leave it as often. `enter` is `none` where the thread has to wait, and `depth`
-- is how often a thread is in.
pub record CriticalSections (C : Type 0) : Type 0 where
  pub initialized : C
  pub enter : ℕ → C → Option C
  pub leave : ℕ → C → C
  pub depth : C → ℕ → ℕ
  pub depth-initialized : (t : ℕ) → depth initialized t ≡ 0
  pub depth-enter :
      (t u : ℕ) (c d : C) → enter t c ≡ some d → depth d u ≡ depth c u + (if t == u then 1 else 0)
  pub enter_alone : (t u : ℕ) (c d : C) → enter t c ≡ some d → u ≢ t → depth c u ≡ 0
  pub enter_free : (t : ℕ) (c : C) → ((u : ℕ) → u ≢ t → depth c u ≡ 0) → is_some (enter t c) ≡ true
  pub depth-leave :
      (t u : ℕ) (c : C)
      → 0 < depth c t
      → depth (leave t c) u ≡ depth c u - (if t == u then 1 else 0)

-- One Mutex with what it protects: its critical section, the thread of each LockGuard that stands, and
-- the threads that are in SleepConditionVariableCS.
pub record Monitor (C D : Type 0) : Type 0 where
  pub section : C
  pub guards : List ℕ
  pub asleep : List ℕ
  pub shared : D

-- A thread that sleeps does nothing else.
unfoldable pub is_asleep : {C D : Type 0} → ℕ → Monitor C D → Bool
is_asleep t m = ltb 0 (count t m.asleep)

unfoldable pub has_guard : {C D : Type 0} → ℕ → Monitor C D → Bool
has_guard t m = ltb 0 (count t m.guards)

module _ {C D : Type 0} (windows : CriticalSections C) where
  -- The constructor of Mutex.
  unfoldable pub new_mutex : D → Monitor C D
  new_mutex d = record { section = windows.initialized; guards = []; asleep = []; shared = d }

  -- The constructor of LockGuard, which is `none` while the thread has to wait.
  unfoldable pub make_guard : ℕ → Monitor C D → Option (Monitor C D)
  make_guard t m = elim (windows.enter t m.section) [
    | none ↦ none
    | some c ↦ some (record m { section = c; guards = t ∷ m.guards })
  ]

  -- The destructor of LockGuard.
  unfoldable pub end_guard : ℕ → Monitor C D → Monitor C D
  end_guard t m = record m { section = windows.leave t m.section; guards = take_out t m.guards }

  -- One round of the loop of ConditionVariable::wait, and whether the loop is left.
  unfoldable pub wait_round : ℕ → (D → Bool) → Monitor C D → Bool × Monitor C D
  wait_round t predicate m =
      if predicate m.shared
      then (true, m)
      else (false, record m { section = windows.leave t m.section; asleep = t ∷ m.asleep })

  -- The end of SleepConditionVariableCS, which comes after a notification or without one; the thread
  -- enters the section again first, and is `none` while it has to wait.
  unfoldable pub end_sleep : ℕ → Monitor C D → Option (Monitor C D)
  end_sleep t m = elim (windows.enter t m.section) [
    | none ↦ none
    | some c ↦ some (record m { section = c; asleep = take_out t m.asleep })
  ]

  -- What the threads do with it: each of them only while it is awake, and it waits and changes what is
  -- protected only where it has a guard.
  pub data Step : Monitor C D → Monitor C D → Type 0 where
    makes_guard :
        (t : ℕ) (m n : Monitor C D) → is_asleep t m ≡ false → make_guard t m ≡ some n → Step m n
    ends_guard :
        (t : ℕ) (m : Monitor C D)
        → is_asleep t m ≡ false
        → has_guard t m ≡ true
        → Step m (end_guard t m)
    waits :
        (t : ℕ) (predicate : D → Bool) (m : Monitor C D)
        → is_asleep t m ≡ false
        → has_guard t m ≡ true
        → Step m (wait_round t predicate m).1
    wakes : (t : ℕ) (m n : Monitor C D) → is_asleep t m ≡ true → end_sleep t m ≡ some n → Step m n
    changes :
        (t : ℕ) (d : D) (m : Monitor C D)
        → is_asleep t m ≡ false
        → has_guard t m ≡ true
        → Step m (record m { shared = d })

  pub data Reach : Monitor C D → Type 0 where
    start : (d : D) → Reach (new_mutex d)
    next : {m n : Monitor C D} → Reach m → Step m n → Reach n
