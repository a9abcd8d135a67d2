-- ===== src/IocpServer/Tests.antt =====
-- iocp_server.cpp with a connection that sends two bytes, is thrown out, and then ends.
use multi_threaded_tcp_chat.Base.{
  ◌+◌, ◌<◌, ◌≤◌, ◌≡◌, ◌↔◌, refl, true, false, none, some, [], ◌∷◌, ◌++◌, length, map, if◌then◌else◌,
  ltb, nat_eq,
}
use multi_threaded_tcp_chat.Base.Text.{text}
use multi_threaded_tcp_chat.Base.Map.{lookup, insert, erase}
use multi_threaded_tcp_chat.IocpServer.{
  ClientInfo, IocpServer, SendRequest, on_connect, on_message, max_len, ReadRequest, init, enqueue,
  post_read, connected, send, broadcast, broadcast_to, get_all_clients,
}
use multi_threaded_tcp_chat.IocpServer.Lifecycle.{StartAnswers, start, stop, sockets}
use multi_threaded_tcp_chat.Base.Counting.{count}
use multi_threaded_tcp_chat.IocpServer.Balance.{held}
use multi_threaded_tcp_chat.IocpServer.Ledger.{sockets_closed_once}
use multi_threaded_tcp_chat.Sockets.{create_listen_socket}
use multi_threaded_tcp_chat.IocpServer.Completions.{
  Accepted, read_done, accept_round, accept_connections, handle_accept, touch, handle_read,
  handle_completion, worker_round,
}
use multi_threaded_tcp_chat.IocpServer.Consistency.{IsConsistent}
use multi_threaded_tcp_chat.IocpServer.Tables.{
  accept, complete, starts, apply, Reach, begin, next, tables_agree,
}
use multi_threaded_tcp_chat.IocpServer.Broadcasting.{carries, others, broadcast_to_each}
use multi_threaded_tcp_chat.IocpServer.Buffers.{Buffers, no_buffers, io_done}
use multi_threaded_tcp_chat.IocpServer.Freeing.{buffers_freed_once}
use multi_threaded_tcp_chat.IocpServer.IoReach.{accepts, completes, changes, placed}
use multi_threaded_tcp_chat.IocpServer.IoReach
use multi_threaded_tcp_chat.IocpServer.Writes.{InBounds, send_bounds}

abbrev arrival : Accepted
arrival = record {
  socket = 40;
  associated = true;
  address = text "1.2.3.4:5";
  now = 100;
  read_started = true;
}

abbrev granted : StartAnswers
granted = record {
  listen = record { socket = some 7; bound = true; listening = true };
  port = some 8;
  associated = true;
  processors = 4;
}

abbrev started : IocpServer
started = apply (starts granted) init

deaf : init.listen_socket ≡ none
unfolding init
deaf = refl

abbrev joined : IocpServer
joined = apply (accept arrival) started

abbrev reading : ReadRequest
reading = record { client_id = 1; socket = 40 }

abbrev heard : IocpServer
heard = apply (complete (read_done reading (text "hi")) 200 true) joined

heard_tasks : heard.tasks ≡ on_connect 1 40 ∷ on_message 1 (text "hi") ∷ []
unfolding apply init start create_listen_socket handle_accept enqueue post_read worker_round
    handle_completion handle_read touch lookup insert erase text
heard_tasks = refl

free_socket : lookup 40 started.socket_to_id ≡ none
unfolding apply init start create_listen_socket lookup
free_socket = refl

heard-Reach : Reach heard
heard-Reach =
    next (complete (read_done reading (text "hi")) 200 true) joined
      (next (accept arrival) started (next (starts granted) init begin deaf) free_socket) tt

tables_agree_example : IsConsistent heard
tables_agree_example = tables_agree heard-Reach

-- A table with one client.
abbrev ann : ClientInfo
ann = record {
  id = 1;
  socket = 40;
  name = text "ann";
  ip_address = text "1.2.3.4:5";
  state = connected;
  connected_at = 100;
  last_activity = 100;
  message_count = 0;
  current_room = text "general";
}

abbrev alone : IocpServer
alone = record init {
  running = true;
  next_client_id = 2;
  clients = (1, ann) ∷ [];
  socket_to_id = (40, 1) ∷ [];
}

to_nobody_else : broadcast (text "hi") 1 alone ≡ alone
unfolding broadcast broadcast_to init
to_nobody_else = refl

no_clients_left : get_all_clients (stop alone) ≡ []
unfolding get_all_clients stop init
no_clients_left = refl

send_bounds_example :
    ((c : ClientInfo)
      → lookup 1 alone.clients ≡ some c
      → (r : SendRequest) × (send 1 (text "hi") alone
          ≡ (true, record alone { sends = alone.sends ++ r ∷ [] }))
        × (r.socket ≡ c.socket)
        × (InBounds r ↔ (length (text "hi") ≤ max_len))
        × (length (text "hi") ≤ max_len → r.copied ≡ text "hi")
        × (max_len < length (text "hi")
            → (r.len ≡ length (text "hi")) × (length r.copied ≡ max_len)))
    × (lookup 1 alone.clients ≡ none → send 1 (text "hi") alone ≡ (false, alone))
send_bounds_example = send_bounds 1 (text "hi") alone

sockets_closed_once_example :
    (count 40 heard.opened
      ≡ count 40 heard.closed + count 40 (sockets heard.clients) + count 40 (held heard))
    × (heard.running ≡ true → count 40 (stop heard).opened ≡ count 40 (stop heard).closed)
sockets_closed_once_example = sockets_closed_once heard-Reach 40

all_closed : (stop heard).closed ≡ 7 ∷ 40 ∷ []
unfolding apply init start create_listen_socket handle_accept enqueue post_read worker_round
    handle_completion handle_read touch lookup insert erase text stop
all_closed = refl

broadcast_to_each_example : broadcast (text "hey") 2 heard ≡ record heard {
  sends = heard.sends ++ map (carries (text "hey")) (others 2 (get_all_clients heard));
}
broadcast_to_each_example = (broadcast_to_each heard (text "hey") 2 heard-Reach).0

accepted_twice : (accept_connections (some arrival ∷ none ∷ []) started).socket_to_id ≡ (40, 1) ∷ []
unfolding accept_connections accept_round apply init start create_listen_socket handle_accept
    enqueue post_read insert
accepted_twice = refl

-- A connection whose first read is done; Windows has the PER_IO_DATA of the next one.
abbrev one_read : Buffers
one_read =
    IoReach.apply (completes 0 (io_done (text "hi")) 200 true)
      (IoReach.apply (accepts arrival) (IoReach.apply (changes (starts granted)) no_buffers))

one_read-Reach : IoReach.Reach one_read
one_read-Reach =
    IoReach.next _ _
      (IoReach.next _ _ (IoReach.next (changes (starts granted)) no_buffers IoReach.begin))

buffers_freed_once_example : placed 0 one_read ≡ (if ltb 0 one_read.next_address then 1 else 0)
buffers_freed_once_example = (buffers_freed_once one_read-Reach).0 0
