-- ===== src/Server/CommandOverlap.antt =====
-- The programs of the commands keep the server sound at each step.
use multi_threaded_tcp_chat.Base.{
  ℕ, refl, false, not, Option, none, some, List, [], ◌∷◌, if_both, ◌==◌, nat_eq, text_eq,
}
use multi_threaded_tcp_chat.Base.Int.{ℤ}
use multi_threaded_tcp_chat.Base.Text.{Text}
use multi_threaded_tcp_chat.ChatRoom.{general, create_room, join_room, get_client_room}
use multi_threaded_tcp_chat.MessageStore.{ChatMessage}
use multi_threaded_tcp_chat.IocpServer.{ClientInfo}
use multi_threaded_tcp_chat.Commands.{
  Command, exit_command, help_command, rooms_command, leave_command, online_command,
  unknown_command, join_command, create_command, kick_command, ban_command, whisper_command,
  history_command, mute_command,
}
use multi_threaded_tcp_chat.Server.{History, Server}
use multi_threaded_tcp_chat.Server.Invariant.{IsSound-keep, send_to_client-IsSound, created-Reach}
use multi_threaded_tcp_chat.Server.Program.{Program, done, say}
use multi_threaded_tcp_chat.Server.CommandProgram.{
  if_found, join_program, create_program, leave_program, gather_rooms, gather_clients,
  whisper_program, kick_program, ban_program, mute_program, command_program,
}
use multi_threaded_tcp_chat.Server.Overlap.{
  IsSafe, say_all-IsSafe, say_others-IsSafe, cleanup-IsSafe, joined-IsSafe,
}

module _ (A : Type 0) where
  pub say_done-IsSafe : (id : ℕ) (message : Text) → IsSafe {A = A} (say id message done)
  say_done-IsSafe id message = λ s v. (send_to_client-IsSound id message s v, tt)

  gather_rooms-IsSafe :
      (rooms : List Text) (more : Text → Program (Server A))
      → ((lines : Text) → IsSafe (more lines))
      → IsSafe (gather_rooms rooms more)
  unfolding gather_rooms
  gather_rooms-IsSafe [] more safe = safe []
  gather_rooms-IsSafe (room ∷ rest) more safe =
      λ s v. (v, gather_rooms-IsSafe rest _ (λ lines. safe _))

  gather_clients-IsSafe :
      (clients : List ClientInfo) (more : Text → Program (Server A))
      → ((lines : Text) → IsSafe (more lines))
      → IsSafe (gather_clients clients more)
  unfolding gather_clients
  gather_clients-IsSafe [] more safe = safe []
  gather_clients-IsSafe (client ∷ rest) more safe =
      λ s v. (v, λ t w. (w, gather_clients-IsSafe rest _ (λ lines. safe _)))

  join_program-IsSafe : (id : ℕ) (room : Text) → IsSafe {A = A} (join_program id room)
  unfolding join_program
  join_program-IsSafe id room = λ s v. (
    v,
    if_both IsSafe (room == []) (say_done-IsSafe id _) (λ t w. (
      w,
      if_both IsSafe (get_client_room id t.chat_rooms == room) (say_done-IsSafe id _) (λ u x. (
        joined-IsSafe room id u x,
        if_both IsSafe (join_room room id [] u.chat_rooms).0
            (if_both IsSafe (not (get_client_room id t.chat_rooms == []))
              (λ a va. (
                va,
                say_all-IsSafe _ _ _
                    (λ b vb. (vb, say_others-IsSafe id _ _ _ (say_done-IsSafe id _))),
              ))
              (λ b vb. (vb, say_others-IsSafe id _ _ _ (say_done-IsSafe id _))))
            (say_done-IsSafe id _),
      )),
    )),
  )

  create_program-IsSafe :
      (id : ℕ) (room : Text) (now : ℕ) → IsSafe {A = A} (create_program id room now)
  unfolding create_program
  create_program-IsSafe id room now = if_both IsSafe (room == []) (say_done-IsSafe id _) (λ s v. (
    IsSound-keep s _ v (created-Reach room id now s.chat_rooms v.rooms_reached) v.network_reached
        refl,
    if_both IsSafe (create_room room id false [] now s.chat_rooms).0
        (λ t w. (joined-IsSafe room id t w, say_done-IsSafe id _)) (say_done-IsSafe id _),
  ))

  leave_program-IsSafe : (id : ℕ) → IsSafe {A = A} (leave_program id)
  unfolding leave_program
  leave_program-IsSafe id = λ s v. (
    v,
    if_both IsSafe (not (get_client_room id s.chat_rooms == general))
        (λ t w. (joined-IsSafe general id t w, say_done-IsSafe id _)) (say_done-IsSafe id _),
  )

  -- What is done with a name that was looked up.
  if_found-IsSafe :
      {B : Type 0} (o : Option B) (absent : Program (Server A)) (present : B → Program (Server A))
      → IsSafe absent
      → ((b : B) → IsSafe (present b))
      → IsSafe (if_found o absent present)
  unfolding if_found
  if_found-IsSafe none absent present no_one someone = no_one
  if_found-IsSafe (some b) absent present no_one someone = someone b

  whisper_program-IsSafe :
      (id : ℕ) (target msg : Text) → IsSafe {A = A} (whisper_program id target msg)
  unfolding whisper_program
  whisper_program-IsSafe id target msg = λ s v. (
    v,
    if_both IsSafe (target == []) (say_done-IsSafe id _) (
        if_both IsSafe (msg == []) (say_done-IsSafe id _) (λ t w. (
          w,
          if_found-IsSafe _ _ _ (say_done-IsSafe id _)
              (λ to. λ u x. (send_to_client-IsSound to _ u x, say_done-IsSafe id _)),
        ))),
  )

  kick_program-IsSafe : (id : ℕ) (target : Text) → IsSafe {A = A} (kick_program id target)
  unfolding kick_program
  kick_program-IsSafe id target = λ s v. (
    v,
    λ t w. (
      w,
      if_found-IsSafe _ _ _ (say_done-IsSafe id _) (λ to.
          λ u x. (send_to_client-IsSound to _ u x, cleanup-IsSafe to _ (say_done-IsSafe id _))),
    ),
  )

  ban_program-IsSafe : (id : ℕ) (target : Text) → IsSafe {A = A} (ban_program id target)
  unfolding ban_program
  ban_program-IsSafe id target = λ s v. (
    v,
    λ t w. (
      w,
      if_found-IsSafe _ _ _ (say_done-IsSafe id _) (λ to. λ u x. (
        x,
        if_found-IsSafe _ _ _ tt (λ client. λ a va. (
          IsSound-keep a _ va va.rooms_reached va.network_reached refl,
          λ b vb. (send_to_client-IsSound to _ b vb, cleanup-IsSafe to _ (say_done-IsSafe id _)),
        )),
      )),
    ),
  )

  mute_program-IsSafe :
      (id : ℕ) (target : Text) (duration : ℤ) (now : ℕ)
      → IsSafe {A = A} (mute_program id target duration now)
  unfolding mute_program
  mute_program-IsSafe id target duration now = λ s v. (
    v,
    if_found-IsSafe _ _ _ (say_done-IsSafe id _) (λ to. λ a va. (
      IsSound-keep a _ va va.rooms_reached va.network_reached refl,
      λ b vb. (send_to_client-IsSound to _ b vb, say_done-IsSafe id _),
    )),
  )

module _ {A : Type 0} where
  pub command_program-IsSafe :
      (h : History A) (show_message : ChatMessage → Text) (id : ℕ) (c : Command) (now : ℕ)
      → IsSafe (command_program h show_message id c now)
  unfolding command_program
  command_program-IsSafe h show_message id exit_command now = cleanup-IsSafe id done tt
  command_program-IsSafe h show_message id help_command now = say_done-IsSafe A id _
  command_program-IsSafe h show_message id rooms_command now =
      λ s v. (v, gather_rooms-IsSafe A _ _ (λ lines. say_done-IsSafe A id _))
  command_program-IsSafe h show_message id (join_command room) now = join_program-IsSafe A id room
  command_program-IsSafe h show_message id (create_command room) now =
      create_program-IsSafe A id room now
  command_program-IsSafe h show_message id leave_command now = leave_program-IsSafe A id
  command_program-IsSafe h show_message id online_command now =
      λ s v. (v, gather_clients-IsSafe A _ _ (λ lines. say_done-IsSafe A id _))
  command_program-IsSafe h show_message id (whisper_command target msg) now =
      whisper_program-IsSafe A id target msg
  command_program-IsSafe h show_message id (history_command n) now =
      λ s v. (v, λ t w. (w, say_done-IsSafe A id _))
  command_program-IsSafe h show_message id (kick_command target) now =
      kick_program-IsSafe A id target
  command_program-IsSafe h show_message id (ban_command target) now = ban_program-IsSafe A id target
  command_program-IsSafe h show_message id (mute_command target d) now =
      mute_program-IsSafe A id target d now
  command_program-IsSafe h show_message id unknown_command now = say_done-IsSafe A id _
