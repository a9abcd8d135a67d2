-- ===== src/Server/CleanupTests.antt =====
-- main of server.cpp, which has destroyed the server while a disconnection is queued and a worker has just
-- taken a message.
use multi_threaded_tcp_chat.Base.{◌≡◌, ◌≢◌, refl, true, false, [], ◌∷◌, inl, nat_eq}
use multi_threaded_tcp_chat.IocpServer.{on_message, on_disconnect}
use multi_threaded_tcp_chat.Server.Teardown.{
  iocp_server, no_server, no_message_store, no_chat_rooms, no_connection_manager, no_thread_pool,
  taken, handling, entered, Ending, use_part, is_alive, is_idle, main_step, main_goes_on,
  takes_task, calls_handler, handler_returns, interrupts, Run, stay, step,
}
use multi_threaded_tcp_chat.Server.Cleanup.{cleanup_race}

-- Nothing is left.
abbrev calm : Ending
calm = record {
  stage = no_server;
  g_running = false;
  running = false;
  joins = true;
  io_workers = 0;
  accepting = false;
  handlers = [];
  tasks = [];
  works = [];
  faults = [];
}

abbrev hurried : Ending
hurried = record calm { tasks = on_disconnect 1 ∷ []; works = taken (on_message 2 []) ∷ [] }

abbrev waiting : Ending
waiting = record hurried { stage = no_connection_manager }

abbrev emptied : Ending
emptied = record waiting { tasks = []; works = []; faults = iocp_server ∷ iocp_server ∷ [] }

abbrev finished : Ending
finished = record emptied { stage = no_thread_pool }

resets : (e : Ending) → Run waiting e → Run hurried e
unfolding main_step
resets e r = step (main_goes_on hurried) (
    step (main_goes_on (record hurried { stage = no_message_store }))
      (step (main_goes_on (record hurried { stage = no_chat_rooms })) r))

-- The worker runs the message and then the disconnection, and main ends.
abbrev message_called : Ending
message_called = record waiting {
  works = handling (on_message 2 []) ∷ [];
  faults = iocp_server ∷ [];
}

abbrev message_done : Ending
message_done = record message_called { works = [] }

abbrev disconnect_called : Ending
disconnect_called = record emptied { works = handling (on_disconnect 1) ∷ [] }

hurried-Run : Run hurried finished
unfolding main_step use_part is_alive is_idle
hurried-Run = resets finished (
    step (calls_handler waiting [] [] (on_message 2 []) refl) (
      step (handler_returns message_called [] [] (on_message 2 []) refl) (
        step (takes_task message_done (on_disconnect 1) [] refl) (
          step
            (calls_handler
              (record message_done { tasks = []; works = taken (on_disconnect 1) ∷ [] }) [] []
              (on_disconnect 1) refl)
            (step (handler_returns disconnect_called [] [] (on_disconnect 1) refl)
              (step (main_goes_on emptied) (stay finished)))))))

-- Ctrl+C is pressed again.
abbrev pressed : Ending
pressed = record calm { handlers = entered ∷ [] }

pressed-Run : Run calm pressed
pressed-Run = step (interrupts calm) (stay pressed)

some_queued : hurried.tasks ≢ []
some_queued = cc

cleanup_race_example : (finished.faults ≢ []) × (pressed.faults ≡ [])
cleanup_race_example = (
  (cleanup_race hurried refl refl).1 (inl some_queued) finished hurried-Run refl,
  (cleanup_race calm refl refl).3 refl refl tt refl refl pressed pressed-Run,
)
