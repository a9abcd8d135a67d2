-- ===== src/Server/Reach.antt =====
-- Everything that can happen to the server, and the invariant through all of it. Handlers run one
-- after the other here, in any order; what the network does comes between them.
use multi_threaded_tcp_chat.Base.{ℕ, refl, [], nat_eq, text_eq}
use multi_threaded_tcp_chat.Base.Text.{Text}
use multi_threaded_tcp_chat.Base.Map.{lookup}
use multi_threaded_tcp_chat.ChatRoom.{init}
use multi_threaded_tcp_chat.ChatRoom.Reach
use multi_threaded_tcp_chat.ChatRoom.Reach.{rooms_agree}
use multi_threaded_tcp_chat.ConnectionManager.{Config}
use multi_threaded_tcp_chat.ConnectionManager
use multi_threaded_tcp_chat.MessageStore.{ChatMessage}
use multi_threaded_tcp_chat.IocpServer
use multi_threaded_tcp_chat.IocpServer.Tables.{Event, IsPossible, tables_agree}
use multi_threaded_tcp_chat.IocpServer.Tables
use multi_threaded_tcp_chat.Server.{History, Server, handle_connect, handle_disconnect}
use multi_threaded_tcp_chat.Server.Message.{Clock, handle_message, disconnect_timed_out}
use multi_threaded_tcp_chat.Server.Invariant.{
  IsSound, IsSound-keep, disconnect_all-Reach, handle_connect-IsSound, handle_disconnect-IsSound,
}
use multi_threaded_tcp_chat.Server.Handlers.{handle_message-IsSound}

module _ {A : Type 0} where
  -- The end of main's initialisation: a server with no clients, which is then started.
  abbrev pub new_server : Config → ℕ → A → Server A
  new_server cfg now store = record {
    network = IocpServer.init;
    connection_manager = ConnectionManager.init cfg;
    chat_rooms = init now;
    message_store = store;
    client_names = [];
  }

  -- What can happen next: something at the sockets, a task of the pool that runs a handler, or a round of
  -- the main loop.
  pub data Step (h : History A) (show_message : ChatMessage → Text)
      : Server A → Server A → Type 0 where
    at_network :
        (e : Event) (s : Server A)
        → IsPossible e s.network
        → Step h show_message s (record s { network = Tables.apply e s.network })
    connect :
        (id : ℕ) (ip : Text) (now : ℕ) (s : Server A)
        → Step h show_message s (handle_connect id ip now s)
    disconnect : (id : ℕ) (s : Server A) → Step h show_message s (handle_disconnect id s)
    message :
        (id : ℕ) (bytes : Text) (clock : Clock) (s : Server A)
        → Step h show_message s (handle_message h show_message id bytes clock s)
    watch : (now : ℕ) (s : Server A) → Step h show_message s (disconnect_timed_out now s)

  Step-IsSound :
      {h : History A} {show_message : ChatMessage → Text} {s t : Server A}
      → Step h show_message s t
      → IsSound s
      → IsSound t
  unfolding disconnect_timed_out
  Step-IsSound (at_network e s possible) v =
      IsSound-keep s _ v v.rooms_reached (Tables.next e s.network v.network_reached possible) refl
  Step-IsSound (connect id ip now s) v = handle_connect-IsSound id ip now s v
  Step-IsSound (disconnect id s) v = handle_disconnect-IsSound id s v
  Step-IsSound {h} {show_message} (message id bytes clock s) v =
      handle_message-IsSound h show_message id bytes clock s v
  Step-IsSound (watch now s) v =
      IsSound-keep s _ v v.rooms_reached (disconnect_all-Reach _ s.network v.network_reached) refl

  pub data ServerReach (h : History A) (show_message : ChatMessage → Text) : Server A → Type 0 where
    begin :
        (cfg : Config) (now : ℕ) (store : A) → ServerReach h show_message (new_server cfg now store)
    after :
        {s t : Server A}
        → ServerReach h show_message s
        → Step h show_message s t
        → ServerReach h show_message t

  pub ServerReach-IsSound :
      {h : History A} {show_message : ChatMessage → Text} {s : Server A}
      → ServerReach h show_message s
      → IsSound s
  unfolding lookup
  ServerReach-IsSound (begin cfg now store) = record {
    rooms_reached = Reach.start now;
    network_reached = Tables.begin;
    named = λ id name e. absurd (cc);
  }
  ServerReach-IsSound (after r step) = Step-IsSound step (ServerReach-IsSound r)
