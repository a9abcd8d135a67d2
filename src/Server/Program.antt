-- ===== src/Server/Program.antt =====
-- A handler of server.cpp as the sequence of what it does under one lock at a time, since handlers run
-- on several threads of the pool at once. A step changes the server and goes on with what it has seen.
use multi_threaded_tcp_chat.Base.{
  ℕ, not, List, [], ◌∷◌, ◌++◌, if◌then◌else◌, leb, ◌==◌, nat_eq, text_eq,
}
use multi_threaded_tcp_chat.Base.Text.{Text, text}
use multi_threaded_tcp_chat.Base.Map.{erase}
use multi_threaded_tcp_chat.ChatRoom.{
  general, join_room, leave_room, get_client_room, get_room_members,
}
use multi_threaded_tcp_chat.ConnectionManager.{is_banned, check_rate, on_connect, on_disconnect}
use multi_threaded_tcp_chat.IocpServer.{forget_client, enqueue}
use multi_threaded_tcp_chat.IocpServer
use multi_threaded_tcp_chat.Server.{History, Server, send_to_client, get_client_name}

pub data Program (S : Type 0) : Type 0 where
  done : Program S
  step : (S → S) → (S → Program S) → Program S

-- The whole program, when no other thread comes between its steps.
unfoldable pub finish : {S : Type 0} → Program S → S → S
finish done s = s
finish (step change more) s = finish (more s) (change s)

module _ {A : Type 0} where
  -- A step that only reads.
  abbrev pub observe : {B : Type 0} → (Server A → B) → (B → Program (Server A)) → Program (Server A)
  observe read more = step (λ s. s) (λ s. more (read s))

  -- A step whose result is not used.
  abbrev pub act : (Server A → Server A) → Program (Server A) → Program (Server A)
  act change more = step change (λ s. more)

  abbrev pub say : ℕ → Text → Program (Server A) → Program (Server A)
  say client_id message more = act (send_to_client client_id message) more

  unfoldable pub say_all : List ℕ → Text → Program (Server A) → Program (Server A)
  say_all [] message more = more
  say_all (id ∷ ids) message more = say id message (say_all ids message more)

  unfoldable pub say_others : ℕ → List ℕ → Text → Program (Server A) → Program (Server A)
  say_others excluded [] message more = more
  say_others excluded (id ∷ ids) message more =
      let rest = say_others excluded ids message more in
      if not (id == excluded) then say id message rest else rest

  -- CleanupClient: the tables are changed under their lock, the task is enqueued under another.
  unfoldable pub cleanup : ℕ → Program (Server A) → Program (Server A)
  cleanup client_id more =
      act (λ s. record s { network = forget_client client_id s.network })
        (act (λ s. record s { network = enqueue (IocpServer.on_disconnect client_id) s.network })
          more)

  -- HandleConnect after AllowConnection has said no, and yes.
  unfoldable pub turn_away : ℕ → Program (Server A)
  unfolding cleanup
  turn_away client_id = cleanup client_id done

  unfoldable pub let_in : ℕ → Program (Server A)
  let_in client_id =
      act (λ s. record s { connection_manager = on_connect s.connection_manager })
        (act (λ s. record s { chat_rooms = (join_room general client_id [] s.chat_rooms).1 })
          (say client_id
            (text "Welcome to the chat server! You are in #general.\n"
              ++ text "Type #help for available commands.\n")
            done))

  -- HandleConnect. AllowConnection asks for the ban, the number of connections and the rate in turn.
  unfoldable pub connect_program : ℕ → Text → ℕ → Program (Server A)
  unfolding turn_away let_in
  connect_program client_id ip now =
      observe (λ s. is_banned ip s.connection_manager)
        λ banned.
          if banned
          then turn_away client_id
          else observe
              (λ s.
                leb s.connection_manager.max_total_connections
                  s.connection_manager.current_connections)
              λ full.
                if full
                then turn_away client_id
                else step
                    (λ s. record s { connection_manager = (check_rate now s.connection_manager).1 })
                    λ s.
                      if (check_rate now s.connection_manager).0
                      then let_in client_id
                      else turn_away client_id

  unfoldable pub disconnect_program : ℕ → Program (Server A)
  disconnect_program client_id = observe (get_client_name client_id) λ name.
      observe (λ s. get_client_room client_id s.chat_rooms)
        λ room.
          act (λ s. record s { chat_rooms = leave_room client_id s.chat_rooms })
            (act (λ s. record s { connection_manager = on_disconnect s.connection_manager })
              (act (λ s. record s { client_names = erase client_id s.client_names })
                (if not (room == [])
                  then (observe (λ s. get_room_members room s.chat_rooms)
                      λ members. say_all members (name ++ text " has left the chat") done)
                  else done)))

  -- BroadcastToRoom
  unfoldable pub broadcast_program : History A → ℕ → Text → ℕ → Program (Server A)
  broadcast_program h sender_id message now = observe (get_client_name sender_id) λ name.
      observe (λ s. get_client_room sender_id s.chat_rooms)
        λ room.
          act
            (λ s. record s {
              message_store =
                  h.store now
                    (record {
                      sender_id = sender_id;
                      sender_name = name;
                      room = room;
                      content = message;
                      timestamp = now;
                    })
                    s.message_store;
            })
            (observe (λ s. get_room_members room s.chat_rooms)
              λ members. say_others sender_id members (name ++ text ": " ++ message) done)
