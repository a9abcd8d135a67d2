-- ===== src/Server/Process.antt =====
-- ProcessCommand and HandleMessage of server.cpp, one definition per command.
use multi_threaded_tcp_chat.Base.{
  ℕ, suc, false, not, Option, none, some, List, [], ◌∷◌, ◌++◌, if◌then◌else◌, length, ltb, ◌==◌,
  nat_eq, text_eq,
}
use multi_threaded_tcp_chat.Base.Int.{ℤ, pos, negsuc}
use multi_threaded_tcp_chat.Base.Text.{Text, text, to_string}
use multi_threaded_tcp_chat.Base.Map.{Map}
use multi_threaded_tcp_chat.ChatRoom.{
  ChatRoomManager, general, create_room, join_room, get_client_room, get_room_members,
}
use multi_threaded_tcp_chat.ChatRoom.Listing.{list_rooms}
use multi_threaded_tcp_chat.ConnectionManager.{ban, mute}
use multi_threaded_tcp_chat.MessageStore.{ChatMessage}
use multi_threaded_tcp_chat.IocpServer.{ClientInfo, disconnect_client, get_client, get_all_clients}
use multi_threaded_tcp_chat.Commands.{
  Command, exit_command, help_command, rooms_command, leave_command, online_command,
  unknown_command, join_command, create_command, kick_command, ban_command, whisper_command,
  history_command, mute_command,
}
use multi_threaded_tcp_chat.Server.{
  History, Server, deliver_all, deliver_others, send_to_client, get_client_name,
}

-- The loop that looks a name up: the first client that has it.
unfoldable pub find_client : Text → Map ℕ Text → Option ℕ
find_client target_name [] = none
find_client target_name ((id, name) ∷ rest) =
    let later = find_client target_name rest in if name == target_name then some id else later

-- std::to_string of an int
unfoldable pub show_int : ℤ → Text
show_int (pos n) = to_string n
show_int (negsuc n) = text "-" ++ to_string (suc n)

abbrev pub help_text : Text
help_text =
    text "Available commands:\n"
    ++ text "  #rooms     - List all chat rooms\n"
    ++ text "  #join <r>  - Join room <r>\n"
    ++ text "  #create <r>- Create new room\n"
    ++ text "  #leave     - Leave to general\n"
    ++ text "  #online    - List online users\n"
    ++ text "  #whisper <user> <msg> - Private message\n"
    ++ text "  #history [n] - Show last n messages\n"
    ++ text "  #exit      - Disconnect\n"

-- The lines of #rooms.
unfoldable pub room_lines : ChatRoomManager → List Text → Text
room_lines m [] = []
room_lines m (room ∷ rest) =
    text "  #"
    ++ room
    ++ text " ("
    ++ to_string (length (get_room_members room m))
    ++ text " users)\n"
    ++ room_lines m rest

-- The number of messages that #history asks for.
unfoldable pub history_count : ℤ → ℕ
history_count (pos n) = if ltb n 1 then 10 else if ltb 50 n then 50 else n
history_count (negsuc n) = 10

-- The lines of #history, with ChatMessage::ToString as `show_message`.
unfoldable pub history_lines : (ChatMessage → Text) → List ChatMessage → Text
history_lines show_message [] = []
history_lines show_message (msg ∷ rest) =
    text "  " ++ show_message msg ++ text "\n" ++ history_lines show_message rest

module _ {A : Type 0} where
  unfoldable pub run_join : ℕ → Text → Server A → Server A
  run_join client_id room_name s =
      let name = get_client_name client_id s in
      let old_room = get_client_room client_id s.chat_rooms in
      let (joined, rooms) = join_room room_name client_id [] s.chat_rooms in
      let told_old =
        if not (old_room == [])
        then deliver_all (get_room_members old_room rooms) (name ++ text " left #" ++ old_room)
            s.network
        else s.network in
      let told_new =
        deliver_others client_id (get_room_members room_name rooms)
          (name ++ text " joined #" ++ room_name) told_old in
      if room_name == []
      then send_to_client client_id (text "Usage: #join <room_name>") s
      else if old_room == room_name
      then send_to_client client_id (text "You are already in #" ++ room_name) s
      else if joined
      then send_to_client client_id (text "Joined #" ++ room_name)
          (record s { chat_rooms = rooms; network = told_new })
      else send_to_client client_id (text "Failed to join room. Does it exist?")
          (record s { chat_rooms = rooms })

  unfoldable pub run_create : ℕ → Text → ℕ → Server A → Server A
  run_create client_id room_name now s =
      let (created, rooms) = create_room room_name client_id false [] now s.chat_rooms in
      if room_name == []
      then send_to_client client_id (text "Usage: #create <room_name>") s
      else if created
      then send_to_client client_id (text "Created and joined #" ++ room_name)
          (record s { chat_rooms = (join_room room_name client_id [] rooms).1 })
      else send_to_client client_id (text "Failed to create room. Does it already exist?")
          (record s { chat_rooms = rooms })

  unfoldable pub run_leave : ℕ → Server A → Server A
  run_leave client_id s =
      let current = get_client_room client_id s.chat_rooms in
      if not (current == general)
      then send_to_client client_id (text "You left #" ++ current ++ text " and joined #general")
          (record s { chat_rooms = (join_room general client_id [] s.chat_rooms).1 })
      else send_to_client client_id (text "You are already in #general") s

  -- The lines of #online.
  unfoldable pub online_lines : Server A → List ClientInfo → Text
  online_lines s [] = []
  online_lines s (client ∷ rest) =
      text "  "
      ++ get_client_name client.id s
      ++ text " (#"
      ++ get_client_room client.id s.chat_rooms
      ++ text ")\n"
      ++ online_lines s rest

  unfoldable pub run_online : ℕ → Server A → Server A
  run_online client_id s =
      let clients = get_all_clients s.network in
      send_to_client client_id
        (text "Online users ("
          ++ to_string (length clients)
          ++ text "):\n"
          ++ online_lines s clients)
        s

  unfoldable pub run_whisper : ℕ → Text → Text → Server A → Server A
  run_whisper client_id target_name private_msg s =
      let name = get_client_name client_id s in
      if target_name == []
      then send_to_client client_id (text "Usage: #whisper <username> <message>") s
      else if private_msg == []
      then send_to_client client_id (text "Usage: #whisper <username> <message>") s
      else elim (find_client target_name s.client_names) [
        | none ↦ send_to_client client_id (text "User not found: " ++ target_name) s
        | some target_id ↦
            send_to_client client_id
              (text "[Whisper to " ++ target_name ++ text "]:" ++ private_msg)
              (send_to_client target_id (text "[Whisper from " ++ name ++ text "]:" ++ private_msg)
                s)
      ]

  unfoldable pub run_history : History A → (ChatMessage → Text) → ℕ → ℤ → Server A → Server A
  run_history h show_message client_id number s =
      let room = get_client_room client_id s.chat_rooms in
      let messages = h.get_recent room (history_count number) s.message_store in
      send_to_client client_id
        (text "Last "
          ++ to_string (length messages)
          ++ text " messages in #"
          ++ room
          ++ text ":\n"
          ++ history_lines show_message messages)
        s

  unfoldable pub run_kick : ℕ → Text → Server A → Server A
  run_kick client_id target_name s =
      let name = get_client_name client_id s in
      elim (find_client target_name s.client_names) [
        | none ↦ send_to_client client_id (text "User not found") s
        | some target_id ↦
            let told = send_to_client target_id (text "You have been kicked by " ++ name) s in
            send_to_client client_id (text "Kicked " ++ target_name)
              (record told { network = disconnect_client target_id told.network })
      ]

  unfoldable pub run_ban : ℕ → Text → Server A → Server A
  run_ban client_id target_name s =
      let name = get_client_name client_id s in
      elim (find_client target_name s.client_names) [
        | none ↦ send_to_client client_id (text "User not found") s
        | some target_id ↦ elim (get_client target_id s.network) [
          | none ↦ s
          | some client ↦
              let told =
                send_to_client target_id (text "You have been banned by " ++ name)
                  (record s { connection_manager = ban client.ip_address s.connection_manager }) in
              send_to_client client_id (text "Banned IP for " ++ target_name)
                (record told { network = disconnect_client target_id told.network })
        ]
      ]

  unfoldable pub run_mute : ℕ → Text → ℤ → ℕ → Server A → Server A
  run_mute client_id target_name duration now s =
      let seconds = show_int duration ++ text " seconds" in
      elim (find_client target_name s.client_names) [
        | none ↦ send_to_client client_id (text "User not found") s
        | some target_id ↦
            send_to_client client_id (text "Muted " ++ target_name ++ text " for " ++ seconds) (
              send_to_client target_id (text "You have been muted for " ++ seconds) (record s {
                connection_manager = mute target_id duration now s.connection_manager;
              }))
      ]

  -- ProcessCommand once the command is read; `now` is the clock that #create and #mute read.
  unfoldable pub run_command :
      History A → (ChatMessage → Text) → ℕ → Command → ℕ → Server A → Server A
  run_command h show_message client_id exit_command now s = record s {
    network = disconnect_client client_id s.network;
  }
  run_command h show_message client_id help_command now s = send_to_client client_id help_text s
  run_command h show_message client_id rooms_command now s =
      send_to_client client_id
        (text "Available rooms:\n" ++ room_lines s.chat_rooms (list_rooms s.chat_rooms)) s
  run_command h show_message client_id (join_command room_name) now s =
      run_join client_id room_name s
  run_command h show_message client_id (create_command room_name) now s =
      run_create client_id room_name now s
  run_command h show_message client_id leave_command now s = run_leave client_id s
  run_command h show_message client_id online_command now s = run_online client_id s
  run_command h show_message client_id (whisper_command target_name private_msg) now s =
      run_whisper client_id target_name private_msg s
  run_command h show_message client_id (history_command number) now s =
      run_history h show_message client_id number s
  run_command h show_message client_id (kick_command target_name) now s =
      run_kick client_id target_name s
  run_command h show_message client_id (ban_command target_name) now s =
      run_ban client_id target_name s
  run_command h show_message client_id (mute_command target_name duration) now s =
      run_mute client_id target_name duration now s
  run_command h show_message client_id unknown_command now s =
      send_to_client client_id (text "Unknown command. Type #help for available commands.") s
