-- ===== src/Threading/Ownership.antt =====
-- Each handle of a thread has one owner, and is closed once.
use multi_threaded_tcp_chat.Base.{
  ℕ, ◌+◌, ◌≡◌, refl, ap, false, Option, none, some, [], nat_eq, arith,
}
use multi_threaded_tcp_chat.Base.Map.{Map, lookup}
use multi_threaded_tcp_chat.Base.Counting.{count, count-append, gather}
use multi_threaded_tcp_chat.Threading.{
  Thread, Threads, no_threads, empty_thread, make_empty, begin_thread, detach, join, destroy,
  make_from, assign,
}
use multi_threaded_tcp_chat.Threading.Owners.{
  handle_of, IsOwned, put_new-IsOwned, destroy-IsOwned, detach-IsOwned, join-IsOwned,
  make_from-IsOwned, assign-IsOwned,
}

-- What the program does with its objects of the class.
pub data Event : Type 0 where
  makes_empty : ℕ → Event
  begins : ℕ → Option (ℕ × ℕ) → Event
  detaches joins destroys : ℕ → Event
  makes_from assigns : ℕ → ℕ → Event

unfoldable pub apply : Event → Threads → Threads
apply (makes_empty this) s = make_empty this s
apply (begins this answer) s = begin_thread this answer s
apply (detaches this) s = detach this s
apply (joins this) s = join this s
apply (destroys this) s = destroy this s
apply (makes_from this other) s = make_from this other s
apply (assigns this other) s = assign this other s

-- A new object stands where none is, and after std::terminate nothing happens.
abbrev pub IsFresh : Event → Threads → Type 0
IsFresh (makes_empty this) s = lookup this s.objects ≡ none
IsFresh (begins this _) s = lookup this s.objects ≡ none
IsFresh (makes_from this _) s = lookup this s.objects ≡ none
IsFresh _ s = Unit {0}

pub data Reach : Threads → Type 0 where
  start : Reach no_threads
  next :
      (e : Event) (s : Threads) → Reach s → IsFresh e s → s.terminated ≡ false → Reach (apply e s)

apply-IsOwned : (e : Event) (s : Threads) → IsFresh e s → IsOwned s → IsOwned (apply e s)
unfolding apply make_empty begin_thread
apply-IsOwned (makes_empty this) s fresh v =
    let w = put_new-IsOwned this empty_thread s fresh v in
    record {
      balance = λ k. omega (arith, w.balance k, count-append k s.begun []);
      distinct = w.distinct;
    }
apply-IsOwned (begins this none) s fresh v =
    let w = put_new-IsOwned this empty_thread s fresh v in
    record {
      balance = λ k. omega (arith, w.balance k, count-append k s.begun []);
      distinct = w.distinct;
    }
apply-IsOwned (begins this (some (handle, thread_id))) s fresh v =
    put_new-IsOwned this (record { handle = some handle; thread_id = thread_id }) s fresh v
apply-IsOwned (detaches this) s fresh v = detach-IsOwned this s v
apply-IsOwned (joins this) s fresh v = join-IsOwned this s v
apply-IsOwned (destroys this) s fresh v = destroy-IsOwned this s v
apply-IsOwned (makes_from this other) s fresh v = make_from-IsOwned this other s fresh v
apply-IsOwned (assigns this other) s fresh v = assign-IsOwned this other s v

Reach-IsOwned : {s : Threads} → Reach s → IsOwned s
Reach-IsOwned start = unfold no_threads in record { balance = λ k. refl; distinct = tt }
Reach-IsOwned (next e s r fresh alive) = apply-IsOwned e s fresh (Reach-IsOwned r)

-- Whatever the program does with its objects of the class Thread, as long as each object is made where
-- none stands: each handle has been begun just as often as it has been closed or is owned by an object,
-- so that it is closed once and has one owner; and when no object is left, all handles are closed.
pub handles_closed_once :
    {s : Threads}
    → Reach s
    → (k : ℕ)
    → (count k s.begun ≡ count k s.closed + count k (gather handle_of s.objects))
      × (s.objects ≡ [] → count k s.begun ≡ count k s.closed)
handles_closed_once {s} r k =
    let balance = (Reach-IsOwned r).balance k in
    (
      balance,
      λ gone. omega (arith, balance, ap (λ (m : Map ℕ Thread). count k (gather handle_of m)) gone),
    )
