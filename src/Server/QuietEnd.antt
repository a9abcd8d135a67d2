-- ===== src/Server/QuietEnd.antt =====
-- The end of main of server.cpp when no other thread has anything left to do with what it destroys.
use multi_threaded_tcp_chat.Base.{
  ◌≡◌, refl, sym, ◌∙◌, Bool, true, false, List, [], ◌∷◌, ◌++◌, All, arith, if_both, nat_eq,
}
use multi_threaded_tcp_chat.Server.Teardown.{
  g_server, iocp_server, Stage, looping, closing_server, no_server, no_message_store, no_chat_rooms,
  no_connection_manager, no_thread_pool, is_alive, taken, handling, Handler, entered, found,
  stopping, Ending, is_idle, main_step, test_server, Step, main_goes_on, main_enqueues, takes_task,
  calls_handler, handler_uses, handler_returns, interrupts, tests_server, calls_stop, stop_goes_on,
  stop_returns, accept_goes_on, io_worker_goes_on, io_worker_returns,
}
use multi_threaded_tcp_chat.Server.CleanupSteps.{not_empty}

-- A call of ConsoleHandler that has not found a server.
abbrev pub is_before : Handler → Bool
is_before entered = true
is_before found = false
is_before stopping = false

-- No task is queued or being run, no call of ConsoleHandler has found the server, the threads of the server
-- have returned, and nothing that was gone has been used.
pub record IsQuiet (e : Ending) : Type 0 where
  pub past : is_alive iocp_server e.stage ≡ false
  pub no_tasks : e.tasks ≡ []
  pub no_works : e.works ≡ []
  pub outside : All (λ h. is_before h ≡ true) e.handlers
  pub no_io_workers : e.io_workers ≡ 0
  pub accepted : e.accepting ≡ false
  pub no_faults : e.faults ≡ []

at_stage :
    (s : Stage) (e : Ending)
    → is_alive iocp_server s ≡ false
    → IsQuiet e
    → IsQuiet (record e { stage = s })
at_stage s e past v = record {
  past = past;
  no_tasks = v.no_tasks;
  no_works = v.no_works;
  outside = v.outside;
  no_io_workers = v.no_io_workers;
  accepted = v.accepted;
  no_faults = v.no_faults;
}

main_step-IsQuiet : (s : Stage) (e : Ending) → e.stage ≡ s → IsQuiet e → IsQuiet (main_step s e)
unfolding main_step is_alive
main_step-IsQuiet looping e h v = absurd (ground (arith, v.past, h))
main_step-IsQuiet closing_server e h v = absurd (ground (arith, v.past, h))
main_step-IsQuiet no_server e h v = at_stage no_message_store e refl v
main_step-IsQuiet no_message_store e h v = at_stage no_chat_rooms e refl v
main_step-IsQuiet no_chat_rooms e h v = at_stage no_connection_manager e refl v
main_step-IsQuiet no_connection_manager e h v =
    if_both IsQuiet (is_idle e.tasks e.works) (at_stage no_thread_pool e refl v) v
main_step-IsQuiet no_thread_pool e h v = v

no_pointer : (s : Stage) → is_alive iocp_server s ≡ false → is_alive g_server s ≡ false
unfolding is_alive
no_pointer looping h = absurd (cc)
no_pointer closing_server h = refl
no_pointer no_server h = refl
no_pointer no_message_store h = refl
no_pointer no_chat_rooms h = refl
no_pointer no_connection_manager h = refl
no_pointer no_thread_pool h = refl

no_server_found : (e : Ending) → is_alive iocp_server e.stage ≡ false → test_server e ≡ []
unfolding test_server
no_server_found e past = ground (arith, no_pointer e.stage past)

All-without :
    (xs ys : List Handler) (h : Handler)
    → All (λ h. is_before h ≡ true) (xs ++ h ∷ ys)
    → (is_before h ≡ true) × All (λ h. is_before h ≡ true) (xs ++ ys)
All-without [] ys h all = all
All-without (x ∷ xs) ys h (first, rest) =
    let (here, others) = All-without xs ys h rest in (here, (first, others))

-- Each call of ConsoleHandler among them has not found a server.
outside_of :
    (e : Ending) (xs ys : List Handler) (h : Handler)
    → e.handlers ≡ xs ++ h ∷ ys
    → IsQuiet e
    → (is_before h ≡ true) × All (λ h. is_before h ≡ true) (xs ++ ys)
outside_of e xs ys h at v = All-without xs ys h (rw (← at) v.outside)

pub Step-IsQuiet : {d e : Ending} → Step d e → IsQuiet d → IsQuiet e
unfolding is_alive
Step-IsQuiet (main_goes_on d) v = main_step-IsQuiet d.stage d refl v
Step-IsQuiet (main_enqueues d more h) v = absurd (ground (arith, v.past, h))
Step-IsQuiet (takes_task d t rest h) v = absurd (ground (arith, v.no_tasks, h))
Step-IsQuiet (calls_handler d xs ys t h) v = absurd (not_empty xs (taken t) ys (sym h ∙ v.no_works))
Step-IsQuiet (handler_uses d xs ys t ps qs p more h k) v =
    absurd (not_empty xs (handling t) ys (sym h ∙ v.no_works))
Step-IsQuiet (handler_returns d xs ys t h) v =
    absurd (not_empty xs (handling t) ys (sym h ∙ v.no_works))
Step-IsQuiet (interrupts d) v = record {
  past = v.past;
  no_tasks = v.no_tasks;
  no_works = v.no_works;
  outside = (refl, v.outside);
  no_io_workers = v.no_io_workers;
  accepted = v.accepted;
  no_faults = v.no_faults;
}
Step-IsQuiet (tests_server d xs ys h) v = record {
  past = v.past;
  no_tasks = v.no_tasks;
  no_works = v.no_works;
  outside = rw (no_server_found d v.past) (outside_of d xs ys entered h v).1;
  no_io_workers = v.no_io_workers;
  accepted = v.accepted;
  no_faults = v.no_faults;
}
Step-IsQuiet (calls_stop d xs ys h) v = absurd (cc (outside_of d xs ys found h v).0)
Step-IsQuiet (stop_goes_on d xs ys h) v = absurd (cc (outside_of d xs ys stopping h v).0)
Step-IsQuiet (stop_returns d xs ys h k) v = absurd (cc (outside_of d xs ys stopping h v).0)
Step-IsQuiet (accept_goes_on d more returns h) v = absurd (ground (arith, v.accepted, h))
Step-IsQuiet (io_worker_goes_on d more h) v = absurd (omega (arith, v.no_io_workers, h))
Step-IsQuiet (io_worker_returns d h) v = absurd (omega (arith, v.no_io_workers, h))
