-- ===== src/Server/CommandAlone.antt =====
-- The same for the commands and for HandleMessage.
use multi_threaded_tcp_chat.Base.{
  ℕ, ◌≡◌, refl, ◌∙◌, not, ◌&&◌, List, [], ◌∷◌, arith, ◌==◌, nat_eq, text_eq, Bool-cases, inl, inr,
}
use multi_threaded_tcp_chat.Base.Int.{ℤ}
use multi_threaded_tcp_chat.Base.Text.{Text}
use multi_threaded_tcp_chat.ChatRoom.{join_room, get_client_room}
use multi_threaded_tcp_chat.ConnectionManager.{
  is_muted, check_messages, record_message, allow_message,
}
use multi_threaded_tcp_chat.MessageStore.{ChatMessage}
use multi_threaded_tcp_chat.IocpServer.{ClientInfo, disconnect_client, cleanup_client}
use multi_threaded_tcp_chat.Commands.{
  trim_end, Command, parse_command, exit_command, help_command, rooms_command, leave_command,
  online_command, unknown_command, join_command, create_command, kick_command, ban_command,
  whisper_command, history_command, mute_command,
}
use multi_threaded_tcp_chat.Server.{History, Server, default_name, get_client_name}
use multi_threaded_tcp_chat.Server.Process.{
  room_lines, online_lines, run_join, run_create, run_leave, run_online, run_whisper, run_history,
  run_kick, run_ban, run_mute, run_command,
}
use multi_threaded_tcp_chat.Server.Message.{
  Clock, starts_with_hash, process_command, register, accept_message, handle_message,
}
use multi_threaded_tcp_chat.Server.Program.{Program, done, finish, cleanup}
use multi_threaded_tcp_chat.Server.CommandProgram.{
  if_found, join_program, create_program, leave_program, gather_rooms, gather_clients,
  whisper_program, kick_program, ban_program, mute_program, command_program,
}
use multi_threaded_tcp_chat.Server.MessageProgram.{
  register_program, accept_program, refuse, message_program,
}
use multi_threaded_tcp_chat.Server.Alone.{
  finish-say_all, finish-say_others, finish-cleanup, broadcast_alone,
}

module _ {A : Type 0} where
  finish-gather_rooms :
      (rooms : List Text) (more : Text → Program (Server A)) (s : Server A)
      → finish (gather_rooms rooms more) s ≡ finish (more (room_lines s.chat_rooms rooms)) s
  unfolding finish gather_rooms room_lines
  finish-gather_rooms [] more s = refl
  finish-gather_rooms (room ∷ rest) more s = finish-gather_rooms rest _ s

  finish-gather_clients :
      (clients : List ClientInfo) (more : Text → Program (Server A)) (s : Server A)
      → finish (gather_clients clients more) s ≡ finish (more (online_lines s clients)) s
  unfolding finish gather_clients online_lines
  finish-gather_clients [] more s = refl
  finish-gather_clients (client ∷ rest) more s = finish-gather_clients rest _ s

  join_alone :
      (id : ℕ) (room : Text) (s : Server A) → finish (join_program id room) s ≡ run_join id room s
  unfolding finish join_program run_join
  join_alone id room s = elim (Bool-cases (room == [])) [
    | inl e ↦ rw (e, finish) refl
    | inr e ↦
        rw (e, finish)
          (elim (Bool-cases (get_client_room id s.chat_rooms == room)) [
            | inl f ↦ rw (f, finish) refl
            | inr f ↦
                rw (f, finish)
                  (elim (Bool-cases (join_room room id [] s.chat_rooms).0) [
                    | inr g ↦ rw (g, finish) refl
                    | inl g ↦
                        rw (g, finish)
                          (elim (Bool-cases (get_client_room id s.chat_rooms == [])) [
                            | inl h ↦ rw (h, finish) (finish-say_others id _ _ _ _)
                            | inr h ↦
                                rw (h, finish)
                                  (finish-say_all _ _ _ _ ∙ finish-say_others id _ _ _ _)
                          ])
                  ])
          ])
  ]

  whisper_alone :
      (id : ℕ) (target msg : Text) (s : Server A)
      → finish (whisper_program id target msg) s ≡ run_whisper id target msg s
  unfolding finish if_found whisper_program run_whisper
  whisper_alone id target msg s = ground arith

  kick_alone :
      (id : ℕ) (target : Text) (s : Server A)
      → finish (kick_program id target) s ≡ run_kick id target s
  unfolding finish if_found kick_program run_kick cleanup disconnect_client cleanup_client
  kick_alone id target s = ground arith

  ban_alone :
      (id : ℕ) (target : Text) (s : Server A)
      → finish (ban_program id target) s ≡ run_ban id target s
  unfolding finish if_found ban_program run_ban cleanup disconnect_client cleanup_client
  ban_alone id target s = ground arith

  mute_alone :
      (id : ℕ) (target : Text) (duration : ℤ) (now : ℕ) (s : Server A)
      → finish (mute_program id target duration now) s ≡ run_mute id target duration now s
  unfolding finish if_found mute_program run_mute
  mute_alone id target duration now s = ground arith

  create_alone :
      (id : ℕ) (room : Text) (now : ℕ) (s : Server A)
      → finish (create_program id room now) s ≡ run_create id room now s
  unfolding finish create_program run_create
  create_alone id room now s = ground arith

  leave_alone : (id : ℕ) (s : Server A) → finish (leave_program id) s ≡ run_leave id s
  unfolding finish leave_program run_leave
  leave_alone id s = ground arith

  command_alone :
      (h : History A) (show_message : ChatMessage → Text) (id : ℕ) (c : Command) (now : ℕ)
      (s : Server A)
      → finish (command_program h show_message id c now) s ≡ run_command h show_message id c now s
  unfolding finish command_program run_command run_online run_history
  command_alone h show_message id exit_command now s = finish-cleanup id done s
  command_alone h show_message id help_command now s = refl
  command_alone h show_message id rooms_command now s = finish-gather_rooms _ _ s
  command_alone h show_message id (join_command room) now s = join_alone id room s
  command_alone h show_message id (create_command room) now s = create_alone id room now s
  command_alone h show_message id leave_command now s = leave_alone id s
  command_alone h show_message id online_command now s = finish-gather_clients _ _ s
  command_alone h show_message id (whisper_command target msg) now s = whisper_alone id target msg s
  command_alone h show_message id (history_command n) now s = refl
  command_alone h show_message id (kick_command target) now s = kick_alone id target s
  command_alone h show_message id (ban_command target) now s = ban_alone id target s
  command_alone h show_message id (mute_command target d) now s = mute_alone id target d now s
  command_alone h show_message id unknown_command now s = refl

  register_alone :
      (id : ℕ) (msg : Text) (s : Server A) → finish (register_program id msg) s ≡ register id msg s
  unfolding finish register_program register
  register_alone id msg s = finish-say_others id _ _ done _

  accept_alone :
      (h : History A) (show_message : ChatMessage → Text) (id : ℕ) (msg : Text) (now : ℕ)
      (s : Server A)
      → finish (accept_program h show_message id msg now) s
        ≡ accept_message h show_message id msg now s
  unfolding finish accept_program accept_message process_command
  accept_alone h show_message id msg now s =
      elim (Bool-cases ((get_client_name id s == default_name id) && not (starts_with_hash msg))) [
        | inl e ↦ rw (e, finish) (register_alone id msg s)
        | inr e ↦
            rw (e, finish)
              (elim (Bool-cases (starts_with_hash msg)) [
                | inl f ↦ rw (f, finish) (command_alone h show_message id (parse_command msg) now s)
                | inr f ↦ rw (f, finish) (broadcast_alone h id msg now s)
              ])
      ]

  -- HandleMessage, run with nothing between its steps, does what `handle_message` says.
  pub message_alone :
      (h : History A) (show_message : ChatMessage → Text) (id : ℕ) (message : Text) (clock : Clock)
      (s : Server A)
      → finish (message_program h show_message id message clock) s
        ≡ handle_message h show_message id message clock s
  unfolding finish message_program handle_message allow_message refuse
  message_alone h show_message id message clock s =
      let m = s.connection_manager in
      let unmuted = (is_muted id clock.check.asked_mute m).1 in
      let checked = (check_messages id clock.check.asked unmuted).1 in
      let recorded = record_message id clock.check.recorded clock.check.active checked in
      elim (Bool-cases (trim_end message == [])) [
        | inl e ↦ rw (e, finish) refl
        | inr e ↦
            rw (e, finish)
              (elim (Bool-cases (is_muted id clock.check.asked_mute m).0) [
                | inl f ↦ rw (f, finish) refl
                | inr f ↦
                    rw (f, finish)
                      (elim (Bool-cases (check_messages id clock.check.asked unmuted).0) [
                        | inr g ↦ rw (g, finish) refl
                        | inl g ↦
                            rw (g, finish)
                              (elim (Bool-cases (is_muted id clock.mute_check recorded).0) [
                                | inl k ↦ rw (k, finish) refl
                                | inr k ↦
                                    rw (k, finish)
                                      (accept_alone h show_message id (trim_end message)
                                        clock.action _)
                              ])
                      ])
              ])
      ]
