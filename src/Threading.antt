-- ===== src/Threading.antt =====
-- The class Thread of win32_compat.h: which object owns which handle of Windows. What
-- _beginthreadex answers is an argument; a handle is a number, and NULL is `none`.
pub mod Owners
pub mod Ownership
pub mod Joining
pub mod Starting
pub mod Locks
pub mod Exclusion
mod Tests
mod LockTests
use multi_threaded_tcp_chat.Base.{
  ℕ, zero, suc, ◌+◌, ◌≡◌, Bool, true, false, not, Option, none, some, List, [], ◌∷◌, ◌++◌,
  if◌then◌else◌, ◌==◌, nat_eq, is_some, to_list,
}
use multi_threaded_tcp_chat.Base.Map.{Map, lookup, insert, erase}

pub record Thread : Type 0 where
  pub handle : Option ℕ
  pub thread_id : ℕ

-- The objects by their addresses, and behind them the handles that were begun, that WaitForSingleObject
-- was called for, and that were closed, each list in order, and whether std::terminate was called.
pub record Threads : Type 0 where
  pub objects : Map ℕ Thread
  pub begun : List ℕ
  pub waited : List ℕ
  pub closed : List ℕ
  pub terminated : Bool

-- Before any object is made.
unfoldable pub no_threads : Threads
no_threads = record { objects = []; begun = []; waited = []; closed = []; terminated = false }

abbrev pub empty_thread : Thread
empty_thread = record { handle = none; thread_id = 0 }

-- `Thread()`
unfoldable pub make_empty : ℕ → Threads → Threads
make_empty this s = record s { objects = insert this empty_thread s.objects }

-- The constructor that begins a thread: `answer` has the handle and the id, or is `none` where
-- _beginthreadex gives 0 or -1.
unfoldable pub begin_thread : ℕ → Option (ℕ × ℕ) → Threads → Threads
begin_thread this none s = record s { objects = insert this empty_thread s.objects }
begin_thread this (some (handle, thread_id)) s = record s {
  objects = insert this (record { handle = some handle; thread_id = thread_id }) s.objects;
  begun = s.begun ++ handle ∷ [];
}

unfoldable pub joinable : Thread → Bool
joinable t = is_some t.handle

-- CloseHandle and `handle = NULL`, if there is a handle.
unfoldable pub detach : ℕ → Threads → Threads
detach this s = elim (lookup this s.objects) [
  | none ↦ s
  | some t ↦ elim t.handle [
    | none ↦ s
    | some handle ↦ record s {
      objects = insert this (record t { handle = none }) s.objects;
      closed = s.closed ++ handle ∷ [];
    }
  ]
]

-- join, once the thread has ended.
unfoldable pub join : ℕ → Threads → Threads
join this s = elim (lookup this s.objects) [
  | none ↦ s
  | some t ↦ elim t.handle [
    | none ↦ s
    | some handle ↦ record s {
      objects = insert this (record t { handle = none }) s.objects;
      waited = s.waited ++ handle ∷ [];
      closed = s.closed ++ handle ∷ [];
    }
  ]
]

-- The destructor.
unfoldable pub destroy : ℕ → Threads → Threads
destroy this s = elim (lookup this s.objects) [
  | none ↦ s
  | some t ↦ record s { objects = erase this s.objects; closed = s.closed ++ to_list t.handle }
]

-- `Thread(Thread &&other)`
unfoldable pub make_from : ℕ → ℕ → Threads → Threads
make_from this other s = elim (lookup other s.objects) [
  | none ↦ s
  | some t ↦ record s { objects = insert other empty_thread (insert this t s.objects) }
]

-- `operator=(Thread &&other)`
unfoldable pub assign : ℕ → ℕ → Threads → Threads
unfolding joinable
assign this other s = if this == other then s else elim (lookup this s.objects) [
  | none ↦ s
  | some mine ↦ elim (lookup other s.objects) [
    | none ↦ s
    | some t ↦
        if joinable mine
        then record s { terminated = true }
        else record s { objects = insert other empty_thread (insert this t s.objects) }
  ]
]
