-- ===== src/Server/Cleanup.antt =====
-- When the end of main of server.cpp uses nothing that is gone.
use multi_threaded_tcp_chat.Base.{
  ◌≡◌, ◌≢◌, refl, ap, ◌∙◌, true, false, List, [], ◌∷◌, ◌++◌, All, arith, inl, inr, ◌⊎◌,
}
use multi_threaded_tcp_chat.IocpServer.{Task}
use multi_threaded_tcp_chat.Server.Teardown.{
  iocp_server, Stage, no_server, no_message_store, no_chat_rooms, no_connection_manager,
  no_thread_pool, is_alive, Work, taken, handling, Handler, entered, found, stopping, Ending,
  use_part, is_idle, main_step, test_running, Step, main_goes_on, takes_task, calls_handler,
  handler_returns, calls_stop, stop_goes_on, Run, stay, step,
}
use multi_threaded_tcp_chat.Server.CleanupSteps.{
  IsLate, Step-IsLate, owes, any_taken, faults-use_part,
}
use multi_threaded_tcp_chat.Server.QuietEnd.{is_before, IsQuiet, Step-IsQuiet}

Run-IsQuiet : {d e : Ending} → Run d e → IsQuiet d → IsQuiet e
Run-IsQuiet (stay e) v = v
Run-IsQuiet (step s r) v = Run-IsQuiet r (Step-IsQuiet s v)

Run-IsLate : {d e : Ending} → Run d e → IsLate d → IsLate e
Run-IsLate (stay e) v = v
Run-IsLate (step s r) v = Run-IsLate r (Step-IsLate s v)

-- What the call of the lambda leaves as it was.
after_call :
    (works : List Work) (e : Ending)
    → ((use_part iocp_server (record e { works = works })).works ≡ works)
      × ((use_part iocp_server (record e { works = works })).tasks ≡ e.tasks)
      × ((use_part iocp_server (record e { works = works })).stage ≡ e.stage)
unfolding use_part
after_call works e = (ground arith, ground arith, ground arith)

-- main waits in the destructor of the pool until these are done.
abbrev IsWaiting : List Task → List Work → Ending → Type 0
IsWaiting tasks works e = (e.stage ≡ no_connection_manager) × (e.tasks ≡ tasks) × (e.works ≡ works)

abbrev Ends : Ending → Type 0
Ends d = (e : Ending) × Run d e × (e.stage ≡ no_thread_pool)

first : {d e : Ending} → Step d e → Ends e → Ends d
first s (e, r, last) = (e, step s r, last)

handler_ends :
    (tasks : List Task) (t : Task) (ws : List Work)
    → ((d : Ending) → IsWaiting tasks ws d → Ends d)
    → (d : Ending) → IsWaiting tasks (handling t ∷ ws) d
    → Ends d
handler_ends tasks t ws rest d (at, left, busy) =
    first (handler_returns d [] ws t busy) (rest _ (at, left, refl))

lambda_ends :
    (tasks : List Task) (t : Task) (ws : List Work)
    → ((d : Ending) → IsWaiting tasks ws d → Ends d)
    → (d : Ending) → IsWaiting tasks (taken t ∷ ws) d
    → Ends d
lambda_ends tasks t ws rest d (at, left, busy) =
    let (works, same, stage) = after_call (handling t ∷ ws) d in
    first (calls_handler d [] ws t busy)
      (handler_ends tasks t ws rest _ (stage ∙ at, same ∙ left, works))

main_at : (s : Stage) (d : Ending) → d.stage ≡ s → Step d (main_step s d)
main_at s d at = rw (← at) (main_goes_on d)

goes_on : (s : Stage) (d : Ending) → d.stage ≡ s → Ends (main_step s d) → Ends d
goes_on s d at ends = first (main_at s d at) ends

main_ends : (tasks : List Task) (works : List Work) (d : Ending) → IsWaiting tasks works d → Ends d
unfolding main_step is_idle
main_ends [] [] d (at, left, busy) = (
  main_step no_connection_manager d,
  step (main_at no_connection_manager d at) (stay _),
  ground (arith, left, busy),
)
main_ends (t ∷ ts) [] d (at, left, busy) =
    first (takes_task d t ts left)
      (lambda_ends ts t [] (main_ends ts []) _ (at, refl, ap (λ (l : List Work). taken t ∷ l) busy))
main_ends tasks (taken t ∷ ws) d h = lambda_ends tasks t ws (main_ends tasks ws) d h
main_ends tasks (handling t ∷ ws) d h = handler_ends tasks t ws (main_ends tasks ws) d h

resets : (d : Ending) → d.stage ≡ no_server → Ends d
unfolding main_step
resets d at = goes_on no_server d at (
    goes_on no_message_store _ refl
      (goes_on no_chat_rooms _ refl (main_ends d.tasks d.works _ (refl, refl, refl))))

uses_server :
    (d : Ending) (xs ys : List Handler) (h : Handler)
    → is_alive iocp_server d.stage ≡ false
    → d.handlers ≡ xs ++ h ∷ ys
    → is_before h ≡ false
    → (e : Ending) × Run d e × (e.faults ≢ [])
uses_server d xs ys entered past at h = absurd (cc)
uses_server d xs ys found past at h = (
  _,
  step (calls_stop d xs ys at) (stay _),
  faults-use_part (record d { running = false; handlers = xs ++ (test_running d ++ ys) })
      iocp_server past,
)
uses_server d xs ys stopping past at h =
    (_, step (stop_goes_on d xs ys at) (stay _), faults-use_part d iocp_server past)

-- At the time when main has destroyed the server: main can come to its end. If a task is queued, or taken by
-- a worker that has not yet run its lambda, every run that takes main there uses the server that is
-- gone. If a call of ConsoleHandler has found the server and is about to call Stop or in it, some run
-- does. If there is no task queued or being run, no such call of ConsoleHandler, and neither I/O
-- workers nor the thread of AcceptConnections are left, no run uses anything that is gone, also if
-- Ctrl+C is pressed again.
pub cleanup_race :
    (d : Ending)
    → d.stage ≡ no_server
    → d.faults ≡ []
    → ((e : Ending) × Run d e × (e.stage ≡ no_thread_pool))
      × ((d.tasks ≢ []) ⊎ (any_taken d.works ≡ true)
          → (e : Ending) → Run d e
          → e.stage ≡ no_thread_pool
          → e.faults ≢ [])
      × ((xs ys : List Handler) (h : Handler)
          → d.handlers ≡ xs ++ h ∷ ys
          → is_before h ≡ false
          → (e : Ending) × Run d e × (e.faults ≢ []))
      × (d.tasks ≡ []
          → d.works ≡ []
          → All (λ h. is_before h ≡ true) d.handlers
          → d.io_workers ≡ 0
          → d.accepting ≡ false
          → (e : Ending) → Run d e
          → e.faults ≡ [])
unfolding is_alive
cleanup_race d h none_yet =
    let past : is_alive iocp_server d.stage ≡ false = ground (arith, h) in
    (
      resets d h,
      λ waiting e r last.
          (Run-IsLate r (record {
            past = past;
            late = inl (owing d.tasks d.works waiting);
            unjoined = λ k. absurd (ground (arith, h, k));
          })).unjoined
            last,
      λ xs ys handler at inside. uses_server d xs ys handler past at inside,
      λ idle no_works outside no_io accepted e r.
          (Run-IsQuiet r (record {
            past = past;
            no_tasks = idle;
            no_works = no_works;
            outside = outside;
            no_io_workers = no_io;
            accepted = accepted;
            no_faults = none_yet;
          })).no_faults,
    )
  where
    owing :
        (tasks : List Task) (works : List Work)
        → (tasks ≢ []) ⊎ (any_taken works ≡ true)
        → owes tasks works ≡ true
    owing [] works (inl some_left) = absurd (some_left refl)
    owing [] works (inr some_taken) = some_taken
    owing (t ∷ ts) works waiting = refl
