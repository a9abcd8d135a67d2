-- ===== src/Server/Samples.antt =====
-- A server of server.cpp with two clients, Ann and Bob, in the room general.
use multi_threaded_tcp_chat.Base.{ℕ, arith, true, false, [], ◌∷◌, nat_eq, text_eq}
use multi_threaded_tcp_chat.Base.Text.{Text, text}
use multi_threaded_tcp_chat.ChatRoom.{Room, general}
use multi_threaded_tcp_chat.ConnectionManager.{check_rate, drop_old, on_disconnect}
use multi_threaded_tcp_chat.ConnectionManager.{
  default_config, mute, ban, is_muted, is_banned, allow_connection,
}
use multi_threaded_tcp_chat.ConnectionManager
use multi_threaded_tcp_chat.MessageStore.{ChatMessage, Cache}
use multi_threaded_tcp_chat.IocpServer.{ClientInfo, connected}
use multi_threaded_tcp_chat.IocpServer
use multi_threaded_tcp_chat.Server.{Server}
use multi_threaded_tcp_chat.Server.Message.{Clock}

abbrev pub show : ChatMessage → Text
show msg = msg.content

abbrev pub client : ℕ → ℕ → ClientInfo
client id socket = record {
  id = id;
  socket = socket;
  name = text "anonymous";
  ip_address = text "1.2.3.4:5";
  state = connected;
  connected_at = 0;
  last_activity = 0;
  message_count = 0;
  current_room = text "general";
}

abbrev pub ann_name : Text
ann_name = text "ann"

abbrev pub bob_name : Text
bob_name = text "bob"

abbrev lobby : Room
lobby = record {
  name = general;
  topic = [];
  members = 1 ∷ 2 ∷ [];
  owner_id = 0;
  created_at = 0;
  is_private = false;
  password = [];
}

abbrev pub both : Server Cache
both = record {
  network = record IocpServer.init {
    running = true;
    next_client_id = 3;
    clients = (1, client 1 40) ∷ (2, client 2 41) ∷ [];
    socket_to_id = (40, 1) ∷ (41, 2) ∷ [];
  };
  connection_manager = record (ConnectionManager.init default_config) {
    muted_clients = (2, ConnectionManager.permanent) ∷ [];
    banned_ips = text "6.6.6.6:6" ∷ [];
    current_connections = 2;
  };
  chat_rooms = record {
    rooms = (general, lobby) ∷ [];
    client_rooms = (1, general) ∷ (2, general) ∷ [];
  };
  message_store = [];
  client_names = (1, ann_name) ∷ (2, bob_name) ∷ [];
}

abbrev pub clock : Clock
clock = record {
  check = record { asked_mute = 1; asked = 2; recorded = 3; active = 4; in_order = omega arith };
  mute_check = 5;
  action = 6;
}
