-- ===== src/Server/Launch.antt =====
-- main of server.cpp from the start to the main loop, ConsoleHandler, and the end of main.
use multi_threaded_tcp_chat.Base.{
  ℕ, ◌≡◌, refl, ap, sym, ◌∙◌, Bool, true, false, not, ◌&&◌, Option, none, some, if◌then◌else◌, ◌==◌,
  nat_eq, is_some, arith, Bool-cases, inl, inr,
}
use multi_threaded_tcp_chat.Base.Text.{Text}
use multi_threaded_tcp_chat.Base.Counting.{count}
use multi_threaded_tcp_chat.ConnectionManager.{Config}
use multi_threaded_tcp_chat.MessageStore.{ChatMessage}
use multi_threaded_tcp_chat.ThreadPool.{Pool, new_pool}
use multi_threaded_tcp_chat.Sockets.{create_listen_socket, initialize_winsock}
use multi_threaded_tcp_chat.IocpServer.{Task, IocpServer, init}
use multi_threaded_tcp_chat.IocpServer.Lifecycle.{StartAnswers, start, stop}
use multi_threaded_tcp_chat.IocpServer.Tables.{starts, stops}
use multi_threaded_tcp_chat.IocpServer.Tables
use multi_threaded_tcp_chat.IocpServer.Ledger.{sockets_closed_once}
use multi_threaded_tcp_chat.Server.{History, Server}
use multi_threaded_tcp_chat.Server.Message.{disconnect_timed_out}
use multi_threaded_tcp_chat.Server.Reach.{
  new_server, ServerReach, ServerReach-IsSound, begin, after, at_network,
}

-- THREAD_POOL_SIZE
abbrev pub thread_pool_size : ℕ
thread_pool_size = 0

-- `pool_size` of main, for what GetSystemInfo says.
unfoldable pub chosen_pool_size : ℕ → ℕ
chosen_pool_size processors =
    if thread_pool_size == 0 then (if processors == 0 then 1 else processors) else thread_pool_size

-- `conn_config` of main
abbrev pub conn_config : Config
conn_config = record {
  max_connections_per_second = 50;
  max_messages_per_minute = 60;
  heartbeat_interval_seconds = 30;
  connection_timeout_seconds = 300;
  max_total_connections = 1000;
}

start-succeeds :
    (a : StartAnswers) (n : IocpServer)
    → ((start a n).0 ≡ (
        is_some a.listen.socket
        && a.listen.bound
        && a.listen.listening
        && is_some a.port
        && a.associated))
      × ((start a n).0 ≡ true → (start a n).1.running ≡ true)
unfolding start create_listen_socket
start-succeeds a n = (ground arith, ground arith)

-- What main keeps in globals.
pub record Main (A : Type 0) : Type 0 where
  pub running : Bool
  pub pool : Pool Task
  pub server : Server A

module _ {A : Type 0} where
  -- main until the main loop, for the result of WSAStartup, what Start is told, the clock, and an opened
  -- message store; `none` for an exit with 1.
  unfoldable pub launch : ℕ → StartAnswers → ℕ → A → Option (Main A)
  unfolding chosen_pool_size
  launch startup answers now store =
      if not (initialize_winsock startup)
      then none
      else let server = new_server conn_config now store in
        let started = start answers server.network in
        if not started.0
        then none
        else some (record {
          running = true;
          pool = new_pool answers.processors (chosen_pool_size answers.processors);
          server = record server { network = started.1 };
        })

  -- The test of the main loop, and a round if it says yes.
  unfoldable pub main_round : ℕ → Main A → Bool × Main A
  main_round now m =
      if m.running && m.server.network.running
      then (true, record m { server = disconnect_timed_out now m.server })
      else (false, m)

  -- ConsoleHandler; `interrupt` says that the signal is CTRL_C_EVENT or CTRL_BREAK_EVENT.
  unfoldable pub console_handler : Bool → Main A → Bool × Main A
  console_handler interrupt m =
      if interrupt
      then (
        true,
        record m { running = false; server = record m.server { network = stop m.server.network } },
      )
      else (false, m)

  is_some-launch :
      (startup : ℕ) (a : StartAnswers) (now : ℕ) (store : A)
      → is_some (launch startup a now store) ≡ (
          startup == 0
          && is_some a.listen.socket
          && a.listen.bound
          && a.listen.listening
          && is_some a.port
          && a.associated)
  unfolding launch initialize_winsock
  is_some-launch startup a now store = ground (arith, (start-succeeds a init).0)

  launched :
      (startup : ℕ) (a : StartAnswers) (now : ℕ) (store : A) (m : Main A)
      → launch startup a now store ≡ some m
      → ((start a init).0 ≡ true)
        × (m.running ≡ true)
        × (m.server ≡ record (new_server conn_config now store) { network = (start a init).1 })
  unfolding launch
  launched startup a now store m h = elim (Bool-cases (initialize_winsock startup)) [
    | inr fails ↦ absurd (cc (rw (fails, launch) at h))
    | inl ready ↦ elim (Bool-cases (start a init).0) [
      | inr fails ↦ absurd (cc (rw (ready, fails, launch) at h))
      | inl ok ↦
          let made =
            ap (λ (o : Option (Main A)). elim o [ none ↦ m | some l ↦ l ])
              (rw (ready, ok, launch) at h) in
          (ok, ap (λ (l : Main A). l.running) (sym made), ap (λ (l : Main A). l.server) (sym made))
    ]
  ]

  launched-Reach :
      (h : History A) (show_message : ChatMessage → Text) (a : StartAnswers) (now : ℕ) (store : A)
      → ServerReach h show_message
          (record (new_server conn_config now store) { network = (start a init).1 })
  unfolding Tables.apply init
  launched-Reach h show_message a now store =
      after (begin conn_config now store)
        (at_network (starts a) (new_server conn_config now store) refl)

  -- main comes to its loop exactly when WSAStartup, all of CreateListenSocket, CreateIoCompletionPort and
  -- the call that joins the two succeed. The server is then one of those that can be reached, the
  -- test of the main loop says yes, and after Ctrl+C it says no and the server has closed each socket
  -- as often as it has opened it.
  pub launch_serves :
      (h : History A) (show_message : ChatMessage → Text) (startup : ℕ) (a : StartAnswers) (now : ℕ)
      (store : A)
      → (is_some (launch startup a now store) ≡ (
          startup == 0
          && is_some a.listen.socket
          && a.listen.bound
          && a.listen.listening
          && is_some a.port
          && a.associated))
        × ((m : Main A)
            → launch startup a now store ≡ some m
            → ServerReach h show_message m.server
              × ((t : ℕ) → (main_round t m).0 ≡ true)
              × ((t : ℕ) → (main_round t (console_handler true m).1).0 ≡ false)
              × ((k : ℕ)
                  → count k (console_handler true m).1.server.network.opened
                    ≡ count k (console_handler true m).1.server.network.closed))
  unfolding main_round console_handler
  launch_serves h show_message startup a now store = (
    is_some-launch startup a now store,
    λ m e.
        (let (ok, goes_on, same) = launched startup a now store m e in
          let reach = launched-Reach h show_message a now store in
          let busy = (start-succeeds a init).1 ok in
          (
            rw same reach,
            λ t. ground (arith, goes_on, ap (λ (s : Server A). s.network.running) same ∙ busy),
            λ t. refl,
            λ k.
                rw same
                  ((sockets_closed_once (ServerReach-IsSound reach).network_reached k).1 busy),
          )),
  )
