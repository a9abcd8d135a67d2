-- ===== src/Threading/Tests.antt =====
-- The class Thread with two objects, at 1 and 2, and one thread, whose handle is 70.
use multi_threaded_tcp_chat.Base.{◌+◌, ◌≡◌, refl, true, false, none, some, [], ◌∷◌, nat_eq}
use multi_threaded_tcp_chat.Base.Map.{lookup, insert}
use multi_threaded_tcp_chat.Base.Counting.{count, gather}
use multi_threaded_tcp_chat.Threading.{
  Threads, no_threads, make_empty, begin_thread, joinable, assign,
}
use multi_threaded_tcp_chat.Threading.Ownership.{
  makes_empty, begins, assigns, destroys, apply, Reach, start, next, handles_closed_once,
}
use multi_threaded_tcp_chat.Threading.Owners.{handle_of}

abbrev one : Threads
one = apply (makes_empty 1) no_threads

abbrev two : Threads
two = apply (begins 2 (some (70, 5))) one

-- The thread goes from 2 to 1.
abbrev moved : Threads
moved = apply (assigns 1 2) two

abbrev ended : Threads
ended = apply (destroys 1) moved

moved_once :
    moved.objects
    ≡ (1, record { handle = some 70; thread_id = 5 })
      ∷ (2, record { handle = none; thread_id = 0 })
      ∷ []
unfolding apply no_threads make_empty begin_thread assign joinable lookup insert
moved_once = refl

taken_over : (apply (assigns 2 1) two).terminated ≡ true
unfolding apply no_threads make_empty begin_thread assign joinable lookup insert
taken_over = refl

no_object : lookup 1 no_threads.objects ≡ none
unfolding no_threads lookup
no_object = refl

no_second : lookup 2 one.objects ≡ none
unfolding apply no_threads make_empty lookup insert
no_second = refl

alive :
    (no_threads.terminated ≡ false)
    × (one.terminated ≡ false)
    × (two.terminated ≡ false)
    × (moved.terminated ≡ false)
unfolding apply no_threads make_empty begin_thread assign joinable lookup insert
alive = (refl, refl, refl, refl)

ended-Reach : Reach ended
ended-Reach =
    let (alive_none, alive_one, alive_two, alive_moved) = alive in
    next (destroys 1) moved
      (next (assigns 1 2) two
        (next (begins 2 (some (70, 5))) one
          (next (makes_empty 1) no_threads start no_object alive_none) no_second alive_one)
        tt alive_two)
      tt alive_moved

handles_closed_once_example :
    (count 70 ended.begun ≡ count 70 ended.closed + count 70 (gather handle_of ended.objects))
    × (ended.objects ≡ [] → count 70 ended.begun ≡ count 70 ended.closed)
handles_closed_once_example = handles_closed_once ended-Reach 70
