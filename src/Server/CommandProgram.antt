-- ===== src/Server/CommandProgram.antt =====
-- ProcessCommand and HandleMessage of server.cpp as programs.
use multi_threaded_tcp_chat.Base.{
  ℕ, false, not, Option, none, some, List, [], ◌∷◌, ◌++◌, if◌then◌else◌, length, ◌==◌, nat_eq,
  text_eq,
}
use multi_threaded_tcp_chat.Base.Int.{ℤ}
use multi_threaded_tcp_chat.Base.Text.{Text, text, to_string}
use multi_threaded_tcp_chat.ChatRoom.{
  general, create_room, join_room, get_client_room, get_room_members,
}
use multi_threaded_tcp_chat.ChatRoom.Listing.{list_rooms}
use multi_threaded_tcp_chat.ConnectionManager.{ban, mute}
use multi_threaded_tcp_chat.MessageStore.{ChatMessage}
use multi_threaded_tcp_chat.IocpServer.{ClientInfo, get_client, get_all_clients}
use multi_threaded_tcp_chat.Commands.{
  Command, exit_command, help_command, rooms_command, leave_command, online_command,
  unknown_command, join_command, create_command, kick_command, ban_command, whisper_command,
  history_command, mute_command,
}
use multi_threaded_tcp_chat.Server.{History, Server, get_client_name}
use multi_threaded_tcp_chat.Server.Process.{
  find_client, show_int, help_text, history_count, history_lines,
}
use multi_threaded_tcp_chat.Server.Program.{
  Program, done, step, observe, act, say, say_all, say_others, cleanup,
}

module _ {A : Type 0} where
  -- `if (target_id != -1)`, `if (client)`: what was looked up, if it was found.
  unfoldable pub if_found :
      {B : Type 0} → Option B → Program (Server A) → (B → Program (Server A)) → Program (Server A)
  if_found none absent present = absent
  if_found (some b) absent present = present b

  unfoldable pub join_program : ℕ → Text → Program (Server A)
  join_program client_id room_name = observe (get_client_name client_id) λ name.
      if room_name == []
      then say client_id (text "Usage: #join <room_name>") done
      else observe (λ s. get_client_room client_id s.chat_rooms)
          λ old_room.
            if old_room == room_name
            then say client_id (text "You are already in #" ++ room_name) done
            else step
                (λ s. record s { chat_rooms = (join_room room_name client_id [] s.chat_rooms).1 })
                λ s.
                  if (join_room room_name client_id [] s.chat_rooms).0
                  then (let rest : Program (Server A) =
                        observe (λ s. get_room_members room_name s.chat_rooms)
                          λ new_members.
                            say_others client_id new_members (name ++ text " joined #" ++ room_name)
                              (say client_id (text "Joined #" ++ room_name) done) in
                      if not (old_room == [])
                      then (observe (λ s. get_room_members old_room s.chat_rooms)
                          λ old_members.
                            say_all old_members (name ++ text " left #" ++ old_room) rest)
                      else rest)
                  else say client_id (text "Failed to join room. Does it exist?") done

  unfoldable pub create_program : ℕ → Text → ℕ → Program (Server A)
  create_program client_id room_name now =
      if room_name == []
      then say client_id (text "Usage: #create <room_name>") done
      else step
          (λ s. record s {
            chat_rooms = (create_room room_name client_id false [] now s.chat_rooms).1;
          })
          λ s.
            if (create_room room_name client_id false [] now s.chat_rooms).0
            then act
                (λ s. record s { chat_rooms = (join_room room_name client_id [] s.chat_rooms).1 })
                (say client_id (text "Created and joined #" ++ room_name) done)
            else say client_id (text "Failed to create room. Does it already exist?") done

  unfoldable pub leave_program : ℕ → Program (Server A)
  leave_program client_id =
      observe (λ s. get_client_room client_id s.chat_rooms)
        λ current.
          if not (current == general)
          then act (λ s. record s { chat_rooms = (join_room general client_id [] s.chat_rooms).1 })
              (say client_id (text "You left #" ++ current ++ text " and joined #general") done)
          else say client_id (text "You are already in #general") done

  -- The loop of #rooms: what it has gathered goes to `more`.
  unfoldable pub gather_rooms : List Text → (Text → Program (Server A)) → Program (Server A)
  gather_rooms [] more = more []
  gather_rooms (room ∷ rest) more =
      observe (λ s. length (get_room_members room s.chat_rooms))
        λ users. gather_rooms rest λ lines.
          more (text "  #" ++ room ++ text " (" ++ to_string users ++ text " users)\n" ++ lines)

  -- The loop of #online.
  unfoldable pub gather_clients : List ClientInfo → (Text → Program (Server A)) → Program (Server A)
  gather_clients [] more = more []
  gather_clients (client ∷ rest) more = observe (get_client_name client.id) λ cname.
      observe (λ s. get_client_room client.id s.chat_rooms)
        λ room.
          gather_clients rest
            λ lines. more (text "  " ++ cname ++ text " (#" ++ room ++ text ")\n" ++ lines)

  unfoldable pub whisper_program : ℕ → Text → Text → Program (Server A)
  whisper_program client_id target_name private_msg = observe (get_client_name client_id) λ name.
      if target_name == []
      then say client_id (text "Usage: #whisper <username> <message>") done
      else if private_msg == []
      then say client_id (text "Usage: #whisper <username> <message>") done
      else observe (λ s. find_client target_name s.client_names)
          λ target.
            if_found target (say client_id (text "User not found: " ++ target_name) done)
              (λ target_id.
                say target_id (text "[Whisper from " ++ name ++ text "]:" ++ private_msg) (
                  say client_id (text "[Whisper to " ++ target_name ++ text "]:" ++ private_msg)
                    done))

  unfoldable pub kick_program : ℕ → Text → Program (Server A)
  kick_program client_id target_name = observe (get_client_name client_id) λ name.
      observe (λ s. find_client target_name s.client_names)
        λ target. if_found target (say client_id (text "User not found") done) (λ target_id.
          say target_id (text "You have been kicked by " ++ name)
            (cleanup target_id (say client_id (text "Kicked " ++ target_name) done)))

  -- The address is the one that the client had when GetClient found it.
  unfoldable pub ban_program : ℕ → Text → Program (Server A)
  ban_program client_id target_name = observe (get_client_name client_id) λ name.
      observe (λ s. find_client target_name s.client_names)
        λ target. if_found target (say client_id (text "User not found") done) (λ target_id.
          observe (λ s. get_client target_id s.network)
            λ found. if_found found (done) (λ client.
              act
                (λ s. record s { connection_manager = ban client.ip_address s.connection_manager })
                (say target_id (text "You have been banned by " ++ name)
                  (cleanup target_id (say client_id (text "Banned IP for " ++ target_name) done)))))

  unfoldable pub mute_program : ℕ → Text → ℤ → ℕ → Program (Server A)
  mute_program client_id target_name duration now =
      let seconds = show_int duration ++ text " seconds" in
      observe (λ s. find_client target_name s.client_names)
        λ target. if_found target (say client_id (text "User not found") done) (λ target_id.
          act
            (λ s. record s {
              connection_manager = mute target_id duration now s.connection_manager;
            })
            (say target_id (text "You have been muted for " ++ seconds)
              (say client_id (text "Muted " ++ target_name ++ text " for " ++ seconds) done)))

  unfoldable pub command_program :
      History A → (ChatMessage → Text) → ℕ → Command → ℕ → Program (Server A)
  command_program h show_message client_id exit_command now = cleanup client_id done
  command_program h show_message client_id help_command now = say client_id help_text done
  command_program h show_message client_id rooms_command now =
      observe (λ s. list_rooms s.chat_rooms)
        λ rooms. gather_rooms rooms λ lines. say client_id (text "Available rooms:\n" ++ lines) done
  command_program h show_message client_id (join_command room_name) now =
      join_program client_id room_name
  command_program h show_message client_id (create_command room_name) now =
      create_program client_id room_name now
  command_program h show_message client_id leave_command now = leave_program client_id
  command_program h show_message client_id online_command now =
      observe (λ s. get_all_clients s.network)
        λ clients. gather_clients clients λ lines.
          say client_id
            (text "Online users (" ++ to_string (length clients) ++ text "):\n" ++ lines) done
  command_program h show_message client_id (whisper_command target_name private_msg) now =
      whisper_program client_id target_name private_msg
  command_program h show_message client_id (history_command number) now =
      observe (λ s. get_client_room client_id s.chat_rooms)
        λ room.
          observe (λ s. h.get_recent room (history_count number) s.message_store)
            λ messages.
              say client_id
                (text "Last "
                  ++ to_string (length messages)
                  ++ text " messages in #"
                  ++ room
                  ++ text ":\n"
                  ++ history_lines show_message messages)
                done
  command_program h show_message client_id (kick_command target_name) now =
      kick_program client_id target_name
  command_program h show_message client_id (ban_command target_name) now =
      ban_program client_id target_name
  command_program h show_message client_id (mute_command target_name duration) now =
      mute_program client_id target_name duration now
  command_program h show_message client_id unknown_command now =
      say client_id (text "Unknown command. Type #help for available commands.") done
