-- ===== src/IocpServer.antt =====
-- iocp_server.h and iocp_server.cpp, with CLIENT_INFO and PER_IO_DATA of sockutil.h: the table of
-- clients and what the server asks of the network and of the thread pool. What Windows answers is an
-- argument of the operation that asks: whether a call succeeded, the address of a peer, the clock.
pub mod Lifecycle
pub mod Completions
pub mod Consistency
pub mod Tables
pub mod Balance
pub mod Ledger
pub mod Writes
pub mod Buffers
pub mod IoReach
pub mod Freeing
pub mod Broadcasting
mod Tests
use multi_threaded_tcp_chat.Base.{
  ℕ, zero, suc, ◌+◌, ◌-◌, ◌≡◌, Bool, true, false, not, ◌&&◌, ◌||◌, Option, none, some, List, [],
  ◌∷◌, ◌++◌, map, if◌then◌else◌, length, take, min, ltb, ◌==◌, nat_eq, is_some,
}
use multi_threaded_tcp_chat.Base.Text.{Text, text}
use multi_threaded_tcp_chat.Base.Map.{Map, lookup, insert, erase}

abbrev pub max_len : ℕ
max_len = 2048

pub data ClientState : Type 0 where
  disconnected connected authenticated : ClientState

-- CLIENT_INFO; a SOCKET is a number.
pub record ClientInfo : Type 0 where
  pub id : ℕ
  pub socket : ℕ
  pub name : Text
  pub ip_address : Text
  pub state : ClientState
  pub connected_at : ℕ
  pub last_activity : ℕ
  pub message_count : ℕ
  pub current_room : Text

-- A call of WSASend for a client: the bytes that were copied into the buffer of its PER_IO_DATA,
-- which has `max_len` bytes, and the length that the call is told (`wsa_buf.len`).
pub record SendRequest : Type 0 where
  pub client_id : ℕ
  pub socket : ℕ
  pub copied : Text
  pub len : ℕ

-- A call of WSARecv, with the client and the socket of its PER_IO_DATA.
pub record ReadRequest : Type 0 where
  pub client_id : ℕ
  pub socket : ℕ

-- What is put into the queue of the thread pool.
pub data Task : Type 0 where
  on_connect : ℕ → ℕ → Task
  on_message : ℕ → Text → Task
  on_disconnect : ℕ → Task

-- The members of IOCPServer, and behind them what it did so far: the sockets that it closed, its
-- calls of WSASend and WSARecv, and the tasks that it enqueued, each list in order.
pub record IocpServer : Type 0 where
  pub running : Bool
  pub next_client_id : ℕ
  pub clients : Map ℕ ClientInfo
  pub socket_to_id : Map ℕ ℕ
  pub listen_socket : Option ℕ
  pub completion_port : Option ℕ
  pub io_workers : ℕ
  pub opened : List ℕ
  pub closed : List ℕ
  pub closed_ports : List ℕ
  pub sends : List SendRequest
  pub reads : List ReadRequest
  pub tasks : List Task

-- The constructor.
unfoldable pub init : IocpServer
init = record {
  running = false;
  next_client_id = 1;
  clients = [];
  socket_to_id = [];
  listen_socket = none;
  completion_port = none;
  io_workers = 0;
  opened = [];
  closed = [];
  closed_ports = [];
  sends = [];
  reads = [];
  tasks = [];
}

unfoldable pub enqueue : Task → IocpServer → IocpServer
enqueue t s = record s { tasks = s.tasks ++ t ∷ [] }

-- The part of CleanupClient before the callback.
unfoldable pub forget_client : ℕ → IocpServer → IocpServer
forget_client client_id s = elim (lookup client_id s.clients) [
  | none ↦ s
  | some c ↦ record s {
    clients = erase client_id s.clients;
    socket_to_id = erase c.socket s.socket_to_id;
    closed = s.closed ++ c.socket ∷ [];
  }
]

unfoldable pub cleanup_client : ℕ → IocpServer → IocpServer
unfolding enqueue
cleanup_client client_id s = enqueue (on_disconnect client_id) (forget_client client_id s)

unfoldable pub disconnect_client : ℕ → IocpServer → IocpServer
disconnect_client client_id s = cleanup_client client_id s

-- PostRead: `started` says whether WSARecv has begun, at once or with WSA_IO_PENDING.
unfoldable pub post_read : Bool → ReadRequest → IocpServer → IocpServer
post_read started io s =
    let asked = record s { reads = s.reads ++ io ∷ [] } in
    if started then asked else cleanup_client io.client_id asked

unfoldable pub post_write : ℕ → Text → IocpServer → IocpServer
post_write client_id message s = elim (lookup client_id s.clients) [
  | none ↦ s
  | some c ↦ record s {
    sends =
        s.sends
        ++ (record {
          client_id = client_id;
          socket = c.socket;
          copied = take (min (length message) max_len) message;
          len = length message;
        })
          ∷ [];
  }
]

unfoldable pub send : ℕ → Text → IocpServer → Bool × IocpServer
send client_id message s =
    if is_some (lookup client_id s.clients)
    then (true, post_write client_id message s)
    else (false, s)

unfoldable pub broadcast_to : Map ℕ ClientInfo → Text → ℕ → IocpServer → IocpServer
broadcast_to [] message exclude_id s = s
broadcast_to ((id, _) ∷ rest) message exclude_id s =
    broadcast_to rest message exclude_id
      (if not (id == exclude_id) then post_write id message s else s)

-- Broadcast; the default for `exclude_id` is -1, which no client has, and which is 0 here.
unfoldable pub broadcast : Text → ℕ → IocpServer → IocpServer
unfolding broadcast_to
broadcast message exclude_id s = broadcast_to s.clients message exclude_id s

unfoldable pub get_client : ℕ → IocpServer → Option ClientInfo
get_client client_id s = lookup client_id s.clients

abbrev pub infos : Map ℕ ClientInfo → List ClientInfo
infos [] = []
infos ((_, c) ∷ cs) = c ∷ infos cs

unfoldable pub get_all_clients : IocpServer → List ClientInfo
get_all_clients s = infos s.clients
