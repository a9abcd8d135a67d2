-- ===== src/IocpServer/Completions.antt =====
-- What iocp_server.cpp does with a connection that is accepted and with what the completion port gives.
use multi_threaded_tcp_chat.Base.{
  ℕ, ◌+◌, Bool, true, false, not, Option, none, some, List, [], ◌∷◌, ◌++◌, if◌then◌else◌, length,
  ltb, ◌==◌, nat_eq,
}
use multi_threaded_tcp_chat.Base.Text.{Text, text}
use multi_threaded_tcp_chat.Base.Map.{lookup, insert}
use multi_threaded_tcp_chat.IocpServer.{
  ClientInfo, connected, IocpServer, on_connect, on_message, ReadRequest, enqueue, cleanup_client,
  post_read,
}

-- What HandleAccept is told by Windows.
pub record Accepted : Type 0 where
  pub socket : ℕ
  pub associated : Bool
  pub address : Text
  pub now : ℕ
  pub read_started : Bool

unfoldable pub handle_accept : Accepted → IocpServer → IocpServer
unfolding enqueue
handle_accept a s =
    if not a.associated
    then record s { opened = s.opened ++ a.socket ∷ []; closed = s.closed ++ a.socket ∷ [] }
    else let client_id = s.next_client_id in
      let client : ClientInfo = record {
        id = client_id;
        socket = a.socket;
        name = text "anonymous";
        ip_address = a.address;
        state = connected;
        connected_at = a.now;
        last_activity = a.now;
        message_count = 0;
        current_room = text "general";
      } in
      let entered = record s {
        opened = s.opened ++ a.socket ∷ [];
        next_client_id = client_id + 1;
        clients = insert client_id client s.clients;
        socket_to_id = insert a.socket client_id s.socket_to_id;
      } in
      post_read a.read_started (record { client_id = client_id; socket = a.socket })
        (enqueue (on_connect client_id a.socket) entered)

-- "Update last activity" of HandleRead.
unfoldable pub touch : ℕ → ℕ → IocpServer → IocpServer
touch client_id now s = elim (lookup client_id s.clients) [
  | none ↦ s
  | some c ↦ record s {
    clients =
        insert client_id (record c { last_activity = now; message_count = c.message_count + 1 })
          s.clients;
  }
]

unfoldable pub handle_read : ReadRequest → Text → ℕ → Bool → IocpServer → IocpServer
unfolding enqueue
handle_read io received now read_started s =
    let touched = touch io.client_id now s in
    post_read read_started io (
      if ltb 0 (length received)
      then enqueue (on_message io.client_id received) touched
      else touched)

-- What GetQueuedCompletionStatus gives a worker; the bytes of a read are those in its buffer.
pub data Completion : Type 0 where
  timed_out : Completion
  failed : ℕ → Completion
  failed_without_data : Completion
  wake_up : Completion
  read_done : ReadRequest → Text → Completion
  write_done : ℕ → ℕ → Completion

-- The rest of a round of IOCPWorkerThread once the server was found running, and whether the thread
-- goes on.
unfoldable pub handle_completion : Completion → ℕ → Bool → IocpServer → Bool × IocpServer
handle_completion timed_out now read_started s = (true, s)
handle_completion (failed client_id) now read_started s = (true, cleanup_client client_id s)
handle_completion failed_without_data now read_started s = (true, s)
handle_completion wake_up now read_started s = (false, s)
handle_completion (read_done io received) now read_started s = (
  true,
  if length received == 0
      then cleanup_client io.client_id s
      else handle_read io received now read_started s,
)
handle_completion (write_done client_id bytes) now read_started s =
    (true, if bytes == 0 then cleanup_client client_id s else s)

-- One round of IOCPWorkerThread.
unfoldable pub worker_round : Completion → ℕ → Bool → IocpServer → Bool × IocpServer
worker_round completion now read_started s =
    if not s.running then (false, s) else handle_completion completion now read_started s

-- One round of AcceptConnections; `none` is INVALID_SOCKET. The answer says whether the thread goes on.
unfoldable pub accept_round : Option Accepted → IocpServer → Bool × IocpServer
accept_round accepted s =
    if not s.running
    then (false, s)
    else elim accepted [ none ↦ (true, s) | some a ↦ (true, handle_accept a s) ]

-- AcceptConnections, with what each call of `accept` gives as long as nothing else happens.
unfoldable pub accept_connections : List (Option Accepted) → IocpServer → IocpServer
accept_connections [] s = s
accept_connections (accepted ∷ rest) s =
    let (goes_on, after) = accept_round accepted s in
    let later = accept_connections rest after in if goes_on then later else after
