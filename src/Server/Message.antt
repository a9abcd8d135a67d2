-- ===== src/Server/Message.antt =====
-- HandleMessage of server.cpp, and the round of the main loop that throws out clients that are idle.
use multi_threaded_tcp_chat.Base.{
  ℕ, Bool, false, not, ◌&&◌, List, [], ◌∷◌, ◌++◌, if◌then◌else◌, ◌==◌, nat_eq, text_eq,
}
use multi_threaded_tcp_chat.Base.Text.{Text, text}
use multi_threaded_tcp_chat.ChatRoom.{get_client_room, get_room_members}
use multi_threaded_tcp_chat.ConnectionManager.{
  is_muted, allow_message, record_message, check_timeouts,
}
use multi_threaded_tcp_chat.ConnectionManager.MessageLimit.{Readings}
use multi_threaded_tcp_chat.MessageStore.{ChatMessage}
use multi_threaded_tcp_chat.IocpServer.{ClientInfo, IocpServer, disconnect_client, get_all_clients}
use multi_threaded_tcp_chat.Commands.{trim_end, parse_command}
use multi_threaded_tcp_chat.Server.{
  History, Server, default_name, deliver_others, send_to_client, get_client_name, set_client_name,
  broadcast_to_room,
}
use multi_threaded_tcp_chat.Server.Process.{run_command}

-- The readings of the clock while a message is handled: those of the rate check, the one of the
-- second question about the mute, and the one of what is done with the message.
pub record Clock : Type 0 where
  pub check : Readings
  pub mute_check : ℕ
  pub action : ℕ

-- `msg[0] == '#'`
unfoldable pub starts_with_hash : Text → Bool
starts_with_hash [] = false
starts_with_hash (c ∷ cs) = c == 35

unfoldable pub ids : List ClientInfo → List ℕ
ids [] = []
ids (client ∷ rest) = client.id ∷ ids rest

unfoldable pub disconnect_all : List ℕ → IocpServer → IocpServer
disconnect_all [] n = n
disconnect_all (id ∷ rest) n = disconnect_all rest (disconnect_client id n)

module _ {A : Type 0} where
  unfoldable pub process_command :
      History A → (ChatMessage → Text) → ℕ → Text → ℕ → Server A → Server A
  process_command h show_message client_id cmd now s =
      run_command h show_message client_id (parse_command cmd) now s

  -- The first message of a client is its name.
  unfoldable pub register : ℕ → Text → Server A → Server A
  unfolding set_client_name
  register client_id msg s =
      let room = get_client_room client_id s.chat_rooms in
      let named = set_client_name client_id msg s in
      record named {
        network =
            deliver_others client_id (get_room_members room s.chat_rooms)
              (msg ++ text " has joined #" ++ room) s.network;
      }

  -- The end of HandleMessage, after the checks.
  unfoldable pub accept_message :
      History A → (ChatMessage → Text) → ℕ → Text → ℕ → Server A → Server A
  accept_message h show_message client_id msg now s =
      if (get_client_name client_id s == default_name client_id) && not (starts_with_hash msg)
      then register client_id msg s
      else if starts_with_hash msg
      then process_command h show_message client_id msg now s
      else broadcast_to_room h client_id msg now s

  unfoldable pub handle_message :
      History A → (ChatMessage → Text) → ℕ → Text → Clock → Server A → Server A
  handle_message h show_message client_id message clock s =
      let msg = trim_end message in
      let (allowed, asked) =
        allow_message client_id clock.check.asked_mute clock.check.asked s.connection_manager in
      let recorded = record_message client_id clock.check.recorded clock.check.active asked in
      let (muted, forgotten) = is_muted client_id clock.mute_check recorded in
      if msg == []
      then s
      else if not allowed
      then send_to_client client_id (text "You are sending too many messages. Please slow down.")
          (record s { connection_manager = asked })
      else if muted
      then send_to_client client_id (text "You are muted.")
          (record s { connection_manager = forgotten })
      else accept_message h show_message client_id msg clock.action
          (record s { connection_manager = forgotten })

  -- One round of the main loop.
  unfoldable pub disconnect_timed_out : ℕ → Server A → Server A
  disconnect_timed_out now s = record s {
    network =
        disconnect_all (check_timeouts (ids (get_all_clients s.network)) now s.connection_manager)
          s.network;
  }
