-- ===== src/Server/RunTests.antt =====
-- server.cpp from its start, with one client that comes and goes, or two at once.
use multi_threaded_tcp_chat.Base.{
  ℕ, ◌+◌, ◌-◌, ◌≡◌, refl, true, false, not, ◌&&◌, none, some, [], ◌∷◌, ◌==◌, nat_eq, text_eq,
}
use multi_threaded_tcp_chat.Base.Eq.{text_beq}
use multi_threaded_tcp_chat.Base.Text.{Text, text}
use multi_threaded_tcp_chat.Base.Map.{lookup}
use multi_threaded_tcp_chat.Base.Set.{contains}
use multi_threaded_tcp_chat.ChatRoom.{general}
use multi_threaded_tcp_chat.ChatRoom.{join_room, leave_room, init, new_room}
use multi_threaded_tcp_chat.ChatRoom.Members.{member_of}
use multi_threaded_tcp_chat.ConnectionManager.{check_rate, drop_old, on_disconnect}
use multi_threaded_tcp_chat.IocpServer.Lifecycle.{start}
use multi_threaded_tcp_chat.Sockets.{create_listen_socket}
use multi_threaded_tcp_chat.Base.Counting.{count}
use multi_threaded_tcp_chat.ThreadPool.{new_pool}
use multi_threaded_tcp_chat.Sockets.{initialize_winsock}
use multi_threaded_tcp_chat.Server.Launch.{
  Main, conn_config, chosen_pool_size, launch, main_round, console_handler, launch_serves,
}
use multi_threaded_tcp_chat.Server.Lifetime.{disconnect_undoes, late_connection_stays}
use multi_threaded_tcp_chat.ChatRoom.Invariant
use multi_threaded_tcp_chat.ConnectionManager.{
  default_config, mute, ban, is_muted, is_banned, allow_connection,
}
use multi_threaded_tcp_chat.ConnectionManager
use multi_threaded_tcp_chat.MessageStore.{Cache}
use multi_threaded_tcp_chat.IocpServer.{ClientInfo, connected}
use multi_threaded_tcp_chat.IocpServer
use multi_threaded_tcp_chat.IocpServer.Tables.{starts}
use multi_threaded_tcp_chat.IocpServer.Tables
use multi_threaded_tcp_chat.IocpServer.Consistency
use multi_threaded_tcp_chat.IocpServer.Lifecycle.{StartAnswers}
use multi_threaded_tcp_chat.Server.{Server, handle_connect, handle_disconnect}
use multi_threaded_tcp_chat.Server.Message.{handle_message}
use multi_threaded_tcp_chat.Server.Invariant.{IsName}
use multi_threaded_tcp_chat.Server.Reach.{
  new_server, at_network, connect, message, ServerReach, begin, after,
}
use multi_threaded_tcp_chat.Server.Archive.{in_memory}
use multi_threaded_tcp_chat.Server.Program.{Program, done, step, connect_program}
use multi_threaded_tcp_chat.Server.Interleaving.{World, Interleaved, overlapping_agrees}
use multi_threaded_tcp_chat.Server.Interleaving
use multi_threaded_tcp_chat.Server.Samples.{show, clock}

abbrev fresh : Server Cache
fresh = new_server default_config 0 []

abbrev granted : StartAnswers
granted = record {
  listen = record { socket = some 7; bound = true; listening = true };
  port = some 8;
  associated = true;
  processors = 4;
}

abbrev started : Server Cache
started = record fresh { network = Tables.apply (starts granted) fresh.network }

deaf : fresh.network.listen_socket ≡ none
unfolding IocpServer.init
deaf = refl

abbrev named : Server Cache
named =
    handle_message (in_memory 100) show 1 (text "ann") clock
      (handle_connect 1 (text "1.2.3.4:5") 1 started)

named-ServerReach : ServerReach (in_memory 100) show named
named-ServerReach =
    after
      (after (after (begin default_config 0 []) (at_network (starts granted) fresh deaf))
        (connect 1 (text "1.2.3.4:5") 1 started))
      (message 1 (text "ann") clock (handle_connect 1 (text "1.2.3.4:5") 1 started))

-- Two connections have begun.
abbrev begun : World Cache
begun = record {
  server = started;
  begun = connect_program 2 (text "5.6.7.8:9") 1 ∷ connect_program 1 (text "1.2.3.4:5") 1 ∷ [];
}

begun-Interleaved : Interleaved (in_memory 100) show begun
begun-Interleaved =
    Interleaving.after
      (Interleaving.after
        (Interleaving.after (Interleaving.start default_config 0 [])
          (Interleaving.at_network (starts granted) (record { server = fresh; begun = [] }) deaf))
        (Interleaving.begins (connect_program 1 (text "1.2.3.4:5") 1)
          (record { server = started; begun = [] }) (Interleaving.connect 1 (text "1.2.3.4:5") 1)))
      (Interleaving.begins (connect_program 2 (text "5.6.7.8:9") 1)
        (record { server = started; begun = connect_program 1 (text "1.2.3.4:5") 1 ∷ [] })
        (Interleaving.connect 2 (text "5.6.7.8:9") 1))

-- What is left of a program after its first step.
abbrev resumed : Program (Server Cache) → Server Cache → Program (Server Cache)
resumed done s = done
resumed (step change more) s = more s

-- The second has made its first step before the first has made any.
abbrev overlapping : World Cache
overlapping = record {
  server = started;
  begun =
      resumed (connect_program 2 (text "5.6.7.8:9") 1) started
      ∷ connect_program 1 (text "1.2.3.4:5") 1
      ∷ [];
}

overlapping-Interleaved : Interleaved (in_memory 100) show overlapping
unfolding connect_program
overlapping-Interleaved = Interleaving.after begun-Interleaved (
    Interleaving.goes_on begun [] (connect_program 1 (text "1.2.3.4:5") 1 ∷ []) (λ s. s)
      (resumed (connect_program 2 (text "5.6.7.8:9") 1)) refl)

overlapping_agrees_example :
    Invariant.IsConsistent overlapping.server.chat_rooms
    × Consistency.IsConsistent overlapping.server.network
    × ((id : ℕ) (name : Text) → lookup id overlapping.server.client_names ≡ some name → IsName name)
overlapping_agrees_example = overlapping_agrees overlapping-Interleaved

rooms_of_started : Invariant.IsConsistent started.chat_rooms
rooms_of_started = Invariant.init-IsConsistent 0

let_in_now : (allow_connection (text "1.2.3.4:5") 1 started.connection_manager).0 ≡ true
unfolding allow_connection is_banned contains check_rate drop_old ConnectionManager.init
let_in_now = refl

disconnect_undoes_example :
    ((n : Text) (d : ℕ)
      → member_of
          (handle_disconnect 1 (handle_connect 1 (text "1.2.3.4:5") 1 started)).chat_rooms.rooms
          n
          d
        ≡ (not (1 == d) && member_of started.chat_rooms.rooms n d))
    × (lookup 1 (handle_disconnect 1 (handle_connect 1 (text "1.2.3.4:5") 1 started)).client_names
        ≡ none)
    × ((handle_disconnect 1 (handle_connect 1 (text "1.2.3.4:5") 1 started)
          ).connection_manager.current_connections
        ≡ started.connection_manager.current_connections)
disconnect_undoes_example =
    disconnect_undoes 1 (text "1.2.3.4:5") 1 started rooms_of_started let_in_now

nobody : lookup 1 started.network.clients ≡ none
unfolding Tables.apply start create_listen_socket IocpServer.init lookup
nobody = refl

let_in_late :
    (allow_connection (text "1.2.3.4:5") 1 (handle_disconnect 1 started).connection_manager).0
    ≡ true
unfolding handle_disconnect on_disconnect allow_connection is_banned contains check_rate drop_old
    ConnectionManager.init
let_in_late = refl

joins_late : (join_room general 1 [] (leave_room 1 started.chat_rooms)).0 ≡ true
unfolding join_room leave_room init new_room lookup text_beq text
joins_late = refl

late_connection_stays_example :
    (member_of
        (handle_connect 1 (text "1.2.3.4:5") 1 (handle_disconnect 1 started)).chat_rooms.rooms
        general
        1
      ≡ true)
    × (lookup 1
          (handle_connect 1 (text "1.2.3.4:5") 1 (handle_disconnect 1 started)).network.clients
        ≡ none)
    × ((handle_connect 1 (text "1.2.3.4:5") 1 (handle_disconnect 1 started)
          ).connection_manager.current_connections
        ≡ started.connection_manager.current_connections - 1 + 1)
late_connection_stays_example =
    late_connection_stays 1 (text "1.2.3.4:5") 1 started rooms_of_started nobody let_in_late
      joins_late

abbrev launched : Main Cache
launched = record {
  running = true;
  pool = new_pool 4 (chosen_pool_size 4);
  server = record (new_server conn_config 0 []) { network = (start granted IocpServer.init).1 };
}

launch_now : launch 0 granted 0 [] ≡ some launched
unfolding launch initialize_winsock start create_listen_socket
launch_now = refl

launch_serves_example :
    ServerReach (in_memory 100) show launched.server
    × ((t : ℕ) → (main_round t launched).0 ≡ true)
    × ((t : ℕ) → (main_round t (console_handler true launched).1).0 ≡ false)
    × ((k : ℕ)
        → count k (console_handler true launched).1.server.network.opened
          ≡ count k (console_handler true launched).1.server.network.closed)
launch_serves_example = (launch_serves (in_memory 100) show 0 granted 0 []).1 launched launch_now
