-- ===== src/Server/MessageProgram.antt =====
-- HandleMessage of server.cpp as a program, and the round of the main loop.
use multi_threaded_tcp_chat.Base.{
  ℕ, not, ◌&&◌, List, [], ◌∷◌, ◌++◌, if◌then◌else◌, ◌==◌, nat_eq, text_eq,
}
use multi_threaded_tcp_chat.Base.Text.{Text, text}
use multi_threaded_tcp_chat.ChatRoom.{get_client_room, get_room_members}
use multi_threaded_tcp_chat.ConnectionManager.{
  is_muted, check_messages, record_message, check_timeouts,
}
use multi_threaded_tcp_chat.MessageStore.{ChatMessage}
use multi_threaded_tcp_chat.IocpServer.{get_all_clients}
use multi_threaded_tcp_chat.Commands.{trim_end, parse_command}
use multi_threaded_tcp_chat.Server.{History, Server, default_name, get_client_name, set_client_name}
use multi_threaded_tcp_chat.Server.Message.{Clock, starts_with_hash, ids}
use multi_threaded_tcp_chat.Server.Program.{
  Program, done, step, observe, act, say, say_others, cleanup, broadcast_program,
}
use multi_threaded_tcp_chat.Server.CommandProgram.{command_program}

module _ {A : Type 0} where
  unfoldable pub register_program : ℕ → Text → Program (Server A)
  register_program client_id msg = act (set_client_name client_id msg) (
      observe (λ s. get_client_room client_id s.chat_rooms)
        λ room.
          observe (λ s. get_room_members room s.chat_rooms)
            λ members. say_others client_id members (msg ++ text " has joined #" ++ room) done)

  -- After the checks.
  unfoldable pub accept_program :
      History A → (ChatMessage → Text) → ℕ → Text → ℕ → Program (Server A)
  accept_program h show_message client_id msg now =
      observe (get_client_name client_id) λ current_name.
        if (current_name == default_name client_id) && not (starts_with_hash msg)
        then register_program client_id msg
        else if starts_with_hash msg
        then command_program h show_message client_id (parse_command msg) now
        else broadcast_program h client_id msg now

  unfoldable pub refuse : ℕ → Program (Server A)
  refuse client_id =
      say client_id (text "You are sending too many messages. Please slow down.") done

  -- The two questions about the mute, the one about the rate and the record of the message are four
  -- steps.
  unfoldable pub message_program :
      History A → (ChatMessage → Text) → ℕ → Text → Clock → Program (Server A)
  unfolding refuse
  message_program h show_message client_id message clock =
      let msg = trim_end message in
      if msg == []
      then done
      else step
          (λ s. record s {
            connection_manager = (is_muted client_id clock.check.asked_mute s.connection_manager).1;
          })
          λ s.
            if (is_muted client_id clock.check.asked_mute s.connection_manager).0
            then refuse client_id
            else step
                (λ s. record s {
                  connection_manager =
                      (check_messages client_id clock.check.asked s.connection_manager).1;
                })
                λ s.
                  if not (check_messages client_id clock.check.asked s.connection_manager).0
                  then refuse client_id
                  else act
                      (λ s. record s {
                        connection_manager =
                            record_message client_id clock.check.recorded clock.check.active
                              s.connection_manager;
                      })
                      (step
                        (λ s. record s {
                          connection_manager =
                              (is_muted client_id clock.mute_check s.connection_manager).1;
                        })
                        λ s.
                          if (is_muted client_id clock.mute_check s.connection_manager).0
                          then say client_id (text "You are muted.") done
                          else accept_program h show_message client_id msg clock.action)

  unfoldable pub cleanup_all : List ℕ → Program (Server A) → Program (Server A)
  cleanup_all [] more = more
  cleanup_all (id ∷ ids) more = cleanup id (cleanup_all ids more)

  unfoldable pub watch_program : ℕ → Program (Server A)
  unfolding cleanup_all
  watch_program now =
      observe (λ s. get_all_clients s.network)
        λ clients.
          observe (λ s. check_timeouts (ids clients) now s.connection_manager)
            λ timed_out. cleanup_all timed_out done
