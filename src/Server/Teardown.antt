-- ===== src/Server/Teardown.antt =====
-- The end of main of server.cpp: it destroys the components one after the other while other threads
-- may still use them. Each step is one of one thread; what a thread uses is noted when it is gone.
use multi_threaded_tcp_chat.Base.{
  ℕ, ◌-◌, ◌<◌, ◌≡◌, Bool, true, false, not, ◌&&◌, List, [], ◌∷◌, ◌++◌, if◌then◌else◌, ◌==◌, nat_eq,
}
use multi_threaded_tcp_chat.IocpServer.{Task, on_connect, on_message, on_disconnect}

-- The globals of server.cpp, which are std::unique_ptr, and the object that `g_server` owns, which its
-- own threads and the lambdas that it puts into the queue use by `this`.
pub data Part : Type 0 where
  g_server g_message_store g_chat_rooms g_connection_manager iocp_server : Part

-- Where main is: in its loop, in the destructor of the server, or past the `reset` of a global. A
-- `reset` first makes the pointer null.
pub data Stage : Type 0 where
  looping closing_server no_server no_message_store no_chat_rooms no_connection_manager : Stage
  no_thread_pool : Stage

-- Is it still there?
unfoldable pub is_alive : Part → Stage → Bool
is_alive part looping = true
is_alive g_server stage = false
is_alive iocp_server closing_server = true
is_alive iocp_server stage = false
is_alive g_message_store closing_server = true
is_alive g_message_store no_server = true
is_alive g_message_store stage = false
is_alive g_chat_rooms closing_server = true
is_alive g_chat_rooms no_server = true
is_alive g_chat_rooms no_message_store = true
is_alive g_chat_rooms stage = false
is_alive g_connection_manager closing_server = true
is_alive g_connection_manager no_server = true
is_alive g_connection_manager no_message_store = true
is_alive g_connection_manager no_chat_rooms = true
is_alive g_connection_manager stage = false

-- What the handler of a task may use.
unfoldable pub uses : Task → List Part
uses (on_connect client_id socket) = g_connection_manager ∷ g_server ∷ g_chat_rooms ∷ []
uses (on_message client_id message) =
    g_connection_manager ∷ g_server ∷ g_chat_rooms ∷ g_message_store ∷ []
uses (on_disconnect client_id) = g_chat_rooms ∷ g_connection_manager ∷ g_server ∷ []

-- Where a worker of the pool is with a task that it has taken: about to run the lambda, which reads the
-- handler from the server, or in the handler.
pub data Work : Type 0 where
  taken : Task → Work
  handling : Task → Work

-- Where a call of ConsoleHandler is: behind `g_running = false`, behind `if (g_server)`, or in Stop
-- behind the line that makes `running` false.
pub data Handler : Type 0 where
  entered found stopping : Handler

-- `joins` says that the destructor of the server waits for its I/O workers, `accepting` that the thread
-- of AcceptConnections, which nobody joins, has not returned. `faults` are the uses of what was gone.
pub record Ending : Type 0 where
  pub stage : Stage
  pub g_running : Bool
  pub running : Bool
  pub joins : Bool
  pub io_workers : ℕ
  pub accepting : Bool
  pub handlers : List Handler
  pub tasks : List Task
  pub works : List Work
  pub faults : List Part

unfoldable pub use_part : Part → Ending → Ending
use_part part e = if is_alive part e.stage then e else record e { faults = e.faults ++ part ∷ [] }

unfoldable pub is_idle : List Task → List Work → Bool
is_idle [] [] = true
is_idle [] (w ∷ ws) = false
is_idle (t ∷ ts) ws = false

-- The next line of main, if main can pass it. The loop ends when one of its tests fails. The destructor
-- of the server calls Stop, which waits for the I/O workers only if it finds the server running; the
-- destructor of the pool waits until its workers have run what was queued.
unfoldable pub main_step : Stage → Ending → Ending
main_step looping e =
    if e.g_running && e.running
    then e
    else record e { stage = closing_server; running = false; joins = e.running }
main_step closing_server e =
    if e.joins && not (e.io_workers == 0) then e else record e { stage = no_server }
main_step no_server e = record e { stage = no_message_store }
main_step no_message_store e = record e { stage = no_chat_rooms }
main_step no_chat_rooms e = record e { stage = no_connection_manager }
main_step no_connection_manager e =
    if is_idle e.tasks e.works then record e { stage = no_thread_pool } else e
main_step no_thread_pool e = e

-- `if (g_server)` of ConsoleHandler: it returns if there is no server.
unfoldable pub test_server : Ending → List Handler
test_server e = if is_alive g_server e.stage then found ∷ [] else []

-- The beginning of Stop: it returns if the server is not running.
unfoldable pub test_running : Ending → List Handler
test_running e = if e.running then stopping ∷ [] else []

-- One step of one thread; `more` are tasks that it puts into the queue.
pub data Step : Ending → Ending → Type 0 where
  main_goes_on : (e : Ending) → Step e (main_step e.stage e)
  main_enqueues :
      (e : Ending) (more : List Task)
      → e.stage ≡ looping
      → Step e (record e { tasks = e.tasks ++ more })
  takes_task :
      (e : Ending) (t : Task) (rest : List Task)
      → e.tasks ≡ t ∷ rest
      → Step e (record e { tasks = rest; works = taken t ∷ e.works })
  calls_handler :
      (e : Ending) (xs ys : List Work) (t : Task)
      → e.works ≡ xs ++ taken t ∷ ys
      → Step e (use_part iocp_server (record e { works = xs ++ handling t ∷ ys }))
  handler_uses :
      (e : Ending) (xs ys : List Work) (t : Task) (ps qs : List Part) (p : Part) (more : List Task)
      → e.works ≡ xs ++ handling t ∷ ys
      → uses t ≡ ps ++ p ∷ qs
      → Step e (use_part p (record e { tasks = e.tasks ++ more }))
  handler_returns :
      (e : Ending) (xs ys : List Work) (t : Task)
      → e.works ≡ xs ++ handling t ∷ ys
      → Step e (record e { works = xs ++ ys })
  interrupts :
      (e : Ending) → Step e (record e { g_running = false; handlers = entered ∷ e.handlers })
  tests_server :
      (e : Ending) (xs ys : List Handler)
      → e.handlers ≡ xs ++ entered ∷ ys
      → Step e (record e { handlers = xs ++ (test_server e ++ ys) })
  calls_stop :
      (e : Ending) (xs ys : List Handler)
      → e.handlers ≡ xs ++ found ∷ ys
      → Step e (
          use_part iocp_server
            (record e { running = false; handlers = xs ++ (test_running e ++ ys) }))
  stop_goes_on :
      (e : Ending) (xs ys : List Handler)
      → e.handlers ≡ xs ++ stopping ∷ ys
      → Step e (use_part iocp_server e)
  stop_returns :
      (e : Ending) (xs ys : List Handler)
      → e.handlers ≡ xs ++ stopping ∷ ys
      → e.io_workers ≡ 0
      → Step e (use_part iocp_server (record e { handlers = xs ++ ys }))
  accept_goes_on :
      (e : Ending) (more : List Task) (returns : Bool)
      → e.accepting ≡ true
      → Step e
          (use_part iocp_server (record e { tasks = e.tasks ++ more; accepting = not returns }))
  io_worker_goes_on :
      (e : Ending) (more : List Task)
      → 0 < e.io_workers
      → Step e (use_part iocp_server (record e { tasks = e.tasks ++ more }))
  io_worker_returns :
      (e : Ending)
      → 0 < e.io_workers
      → Step e (use_part iocp_server (record e { io_workers = e.io_workers - 1 }))

pub data Run : Ending → Ending → Type 0 where
  stay : (e : Ending) → Run e e
  step : {d e f : Ending} → Step d e → Run e f → Run d f
