-- ===== src/IocpServer/Lifecycle.antt =====
-- Start and Stop of iocp_server.cpp.
use multi_threaded_tcp_chat.Base.{
  ℕ, Bool, true, false, not, Option, none, some, List, [], ◌∷◌, ◌++◌, if◌then◌else◌, ◌==◌, nat_eq,
  to_list,
}
use multi_threaded_tcp_chat.Base.Map.{Map}
use multi_threaded_tcp_chat.Base.Counting.{gather}
use multi_threaded_tcp_chat.Sockets.{ListenAnswers, create_listen_socket}
use multi_threaded_tcp_chat.IocpServer.{ClientInfo, IocpServer}

-- What Windows says: the calls of CreateListenSocket, the completion port (`none` for NULL), whether
-- the two could be joined, and the number of processors.
pub record StartAnswers : Type 0 where
  pub listen : ListenAnswers
  pub port : Option ℕ
  pub associated : Bool
  pub processors : ℕ

-- Start. The thread that accepts is not counted among the workers.
unfoldable pub start : StartAnswers → IocpServer → Bool × IocpServer
start a s =
    let made = create_listen_socket a.listen in
    let created = record s {
      listen_socket = made.result;
      opened = s.opened ++ made.opened;
      closed = s.closed ++ made.closed;
    } in
    elim made.result [
      | none ↦ (false, created)
      | some listen_socket ↦ elim a.port [
        | none ↦ (
          false,
          record created { completion_port = none; closed = created.closed ++ listen_socket ∷ [] },
        )
        | some port ↦
            if not a.associated
            then (
              false,
              record created {
                completion_port = some port;
                closed_ports = s.closed_ports ++ port ∷ [];
                closed = created.closed ++ listen_socket ∷ [];
              },
            )
            else (
              true,
              record created {
                completion_port = some port;
                running = true;
                io_workers = if a.processors == 0 then 1 else a.processors;
              },
            )
      ]
    ]

abbrev pub socket_of : ClientInfo → List ℕ
socket_of c = c.socket ∷ []

-- `closesocket` for each client, in the order of the table.
abbrev pub sockets : Map ℕ ClientInfo → List ℕ
sockets = gather socket_of

-- Stop, once the workers have returned.
unfoldable pub stop : IocpServer → IocpServer
stop s = if not s.running then s else record s {
  running = false;
  listen_socket = none;
  completion_port = none;
  io_workers = 0;
  closed = (s.closed ++ to_list s.listen_socket) ++ sockets s.clients;
  closed_ports = s.closed_ports ++ to_list s.completion_port;
  clients = [];
  socket_to_id = [];
}

-- ~IOCPServer.
unfoldable pub destroy_server : IocpServer → IocpServer
destroy_server s = stop s
