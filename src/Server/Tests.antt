-- ===== src/Server/Tests.antt =====
-- server.cpp with two clients, Ann and Bob, in the room general.
use multi_threaded_tcp_chat.Base.{
  ℕ, ◌||◌, ◌-◌, ◌≡◌, ◌≢◌, refl, true, false, not, some, [], ◌∷◌, ◌++◌, if◌then◌else◌, keep, ◌==◌,
  nat_eq, text_eq,
}
use multi_threaded_tcp_chat.Base.Eq.{text_beq}
use multi_threaded_tcp_chat.Base.Text.{text, to_string}
use multi_threaded_tcp_chat.Base.Map.{lookup, Distinct}
use multi_threaded_tcp_chat.Base.Set.{contains}
use multi_threaded_tcp_chat.ChatRoom.{get_client_room, get_room_members}
use multi_threaded_tcp_chat.ConnectionManager.{check_rate, drop_old, on_disconnect}
use multi_threaded_tcp_chat.ConnectionManager.{
  default_config, mute, ban, is_muted, is_banned, allow_connection,
}
use multi_threaded_tcp_chat.ConnectionManager
use multi_threaded_tcp_chat.IocpServer.{ClientInfo, connected, get_client}
use multi_threaded_tcp_chat.IocpServer
use multi_threaded_tcp_chat.Commands.{trim_end}
use multi_threaded_tcp_chat.Server.{
  as_line, get_client_name, handle_connect, handle_disconnect, broadcast_to_room,
}
use multi_threaded_tcp_chat.Server.Process.{find_client, run_whisper, run_ban}
use multi_threaded_tcp_chat.Server.Message.{handle_message}
use multi_threaded_tcp_chat.Server.Delivery.{
  request, sent, to_each, broadcast_to_room-sent, run_whisper-sent,
}
use multi_threaded_tcp_chat.Server.Banning.{ban_one_port}
use multi_threaded_tcp_chat.Sockets.{get_socket_address}
use multi_threaded_tcp_chat.Server.Silence.{muted_silenced, refused_connection}
use multi_threaded_tcp_chat.Server.Archive.{in_memory}
use multi_threaded_tcp_chat.Server.Samples.{show, client, bob_name, both, clock}

broadcast_to_room-sent_example :
    broadcast_to_room (in_memory 100) 1 (text "hi") 9 both ≡ record both {
      message_store =
          (in_memory 100).store 9
            (record {
              sender_id = 1;
              sender_name = get_client_name 1 both;
              room = get_client_room 1 both.chat_rooms;
              content = text "hi";
              timestamp = 9;
            })
            [];
      network = sent both.network (
          to_each
            (keep
              (λ id. not (id == 1))
              (get_room_members (get_client_room 1 both.chat_rooms) both.chat_rooms))
            (get_client_name 1 both ++ text ": " ++ text "hi"));
    }
broadcast_to_room-sent_example = broadcast_to_room-sent (in_memory 100) 1 (text "hi") 9 both

two_names : Distinct both.client_names
unfolding lookup
two_names = (refl, (refl, tt))

bob_named : bob_name ≢ []
unfolding text
bob_named = λ e. absurd (cc)

found_bob : find_client bob_name both.client_names ≡ some 2
unfolding find_client text text_beq
found_bob = refl

run_whisper-sent_example :
    (run_whisper 1 bob_name bob_name both).network.sends
    ≡ request 2
        (client 2 41)
        (as_line (text "[Whisper from " ++ get_client_name 1 both ++ text "]:" ++ bob_name))
      ∷ request 1 (client 1 40) (as_line (text "[Whisper to " ++ bob_name ++ text "]:" ++ bob_name))
      ∷ []
unfolding lookup IocpServer.init
run_whisper-sent_example =
    (run_whisper-sent 1 2 bob_name bob_name both two_names bob_named bob_named found_bob).2
      (client 2 41) (client 1 40) refl refl

bob_from : (client 2 41).ip_address ≡ get_socket_address (some (text "1.2.3.4", 5))
unfolding get_socket_address text to_string
bob_from = refl

ban_one_port_example :
    is_banned
      (get_socket_address (some (text "1.2.3.4", 81)))
      (run_ban 1 bob_name both).connection_manager
    ≡ (◌==◌ {K = ℕ} 5 81
        || is_banned (get_socket_address (some (text "1.2.3.4", 81))) both.connection_manager)
unfolding get_client lookup IocpServer.init
ban_one_port_example =
    ((ban_one_port (text "1.2.3.4") 5).1 1 2 bob_name both (client 2 41) found_bob refl bob_from).1
      81

bob_muted : (is_muted 2 clock.check.asked_mute both.connection_manager).0 ≡ true
unfolding is_muted lookup ConnectionManager.init
bob_muted = refl

muted_silenced_example :
    handle_message (in_memory 100) show 2 (text "#create x") clock both ≡ record both {
      network =
          if trim_end (text "#create x") == []
          then both.network
          else sent both.network
              ((2, as_line (text "You are sending too many messages. Please slow down.")) ∷ []);
    }
muted_silenced_example =
    muted_silenced (in_memory 100) show 2 (text "#create x") clock both bob_muted

turned_away : (allow_connection (text "6.6.6.6:6") 7 both.connection_manager).0 ≡ false
unfolding allow_connection is_banned contains text text_beq ConnectionManager.init
turned_away = refl

refused_connection_example :
    ((handle_connect 3 (text "6.6.6.6:6") 7 both).network.tasks
      ≡ both.network.tasks ++ IocpServer.on_disconnect 3 ∷ [])
    × ((handle_disconnect 3 (handle_connect 3 (text "6.6.6.6:6") 7 both)
          ).connection_manager.current_connections
        ≡ 2 - 1)
refused_connection_example = refused_connection 3 (text "6.6.6.6:6") 7 both turned_away
