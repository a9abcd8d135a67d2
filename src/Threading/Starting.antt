-- ===== src/Threading/Starting.antt =====
-- The function object of a thread of win32_compat.h: the constructor makes it, and either deletes it or
-- leaves it to StaticThreadStart. `S` is the state that the task works on.
use multi_threaded_tcp_chat.Base.{ℕ, ◌+◌, ◌≡◌, refl, Bool, Option, none, some}

-- What is left of a task: the state, and the number of times its function object was deleted.
pub record Ran (S : Type 0) : Type 0 where
  pub state : S
  pub deleted : ℕ

module _ {S : Type 0} where
  -- The part of the constructor behind _beginthreadex, which gave no handle where `answer` is `none`.
  unfoldable pub after_begin : Option ℕ → S → Ran S
  after_begin none s = record { state = s; deleted = 1 }
  after_begin (some handle) s = record { state = s; deleted = 0 }

  -- StaticThreadStart, with its exit code; the task says whether it throws.
  unfoldable pub static_thread_start : (S → Bool × S) → Ran S → ℕ × Ran S
  static_thread_start task r =
      let (throws, s) = task r.state in (0, record { state = s; deleted = r.deleted + 1 })

  -- The whole life of the function object: Windows calls StaticThreadStart if there is a thread.
  unfoldable pub life : Option ℕ → (S → Bool × S) → S → Ran S
  unfolding after_begin static_thread_start
  life none task s = after_begin none s
  life (some handle) task s = (static_thread_start task (after_begin (some handle) s)).1

  -- Whether the thread begins or not, and whether the task returns or throws, its function object is
  -- deleted once; the task has run exactly if the thread began.
  pub function_deleted_once :
      (answer : Option ℕ) (task : S → Bool × S) (s : S)
      → ((life answer task s).deleted ≡ 1)
        × ((life answer task s).state ≡ elim answer [ none ↦ s | some handle ↦ (task s).1 ])
  unfolding life after_begin static_thread_start
  function_deleted_once none task s = (refl, refl)
  function_deleted_once (some handle) task s = (refl, refl)
