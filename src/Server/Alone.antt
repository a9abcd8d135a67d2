-- ===== src/Server/Alone.antt =====
-- A handler whose program runs with no other thread between its steps does what the handler is
-- defined to do.
use multi_threaded_tcp_chat.Base.{
  ℕ, ◌≡◌, refl, List, [], ◌∷◌, arith, ◌==◌, nat_eq, text_eq, Bool-cases, inl, inr,
}
use multi_threaded_tcp_chat.Base.Text.{Text}
use multi_threaded_tcp_chat.ChatRoom.{get_client_room}
use multi_threaded_tcp_chat.ConnectionManager.{allow_connection}
use multi_threaded_tcp_chat.IocpServer.{disconnect_client, cleanup_client}
use multi_threaded_tcp_chat.Server.{
  History, Server, deliver_all, deliver_others, send_to_client, handle_connect, handle_disconnect,
  broadcast_to_room,
}
use multi_threaded_tcp_chat.Server.Program.{
  Program, done, finish, say_all, say_others, cleanup, turn_away, let_in, connect_program,
  disconnect_program, broadcast_program,
}

module _ {A : Type 0} where
  pub finish-say_all :
      (ids : List ℕ) (message : Text) (more : Program (Server A)) (s : Server A)
      → finish (say_all ids message more) s
        ≡ finish more (record s { network = deliver_all ids message s.network })
  unfolding finish say_all deliver_all send_to_client
  finish-say_all [] message more s = refl
  finish-say_all (id ∷ ids) message more s =
      finish-say_all ids message more (send_to_client id message s)

  pub finish-say_others :
      (excluded : ℕ) (ids : List ℕ) (message : Text) (more : Program (Server A)) (s : Server A)
      → finish (say_others excluded ids message more) s
        ≡ finish more (record s { network = deliver_others excluded ids message s.network })
  unfolding finish say_others deliver_others send_to_client
  finish-say_others excluded [] message more s = refl
  finish-say_others excluded (id ∷ ids) message more s = elim (Bool-cases (id == excluded)) [
    | inl own ↦ rw own (finish-say_others excluded ids message more s)
    | inr other ↦
        rw other (finish-say_others excluded ids message more (send_to_client id message s))
  ]

  pub finish-cleanup :
      (id : ℕ) (more : Program (Server A)) (s : Server A)
      → finish (cleanup id more) s
        ≡ finish more (record s { network = disconnect_client id s.network })
  unfolding finish cleanup disconnect_client cleanup_client
  finish-cleanup id more s = refl

  pub connect_alone :
      (id : ℕ) (ip : Text) (now : ℕ) (s : Server A)
      → finish (connect_program id ip now) s ≡ handle_connect id ip now s
  unfolding finish connect_program handle_connect allow_connection turn_away cleanup let_in
      disconnect_client cleanup_client
  connect_alone id ip now s = ground arith

  pub disconnect_alone :
      (id : ℕ) (s : Server A) → finish (disconnect_program id) s ≡ handle_disconnect id s
  unfolding finish disconnect_program handle_disconnect
  disconnect_alone id s = elim (Bool-cases (get_client_room id s.chat_rooms == [])) [
    | inl e ↦ rw (e, finish) refl
    | inr e ↦ rw (e, finish) (finish-say_all _ _ done _)
  ]

  pub broadcast_alone :
      (h : History A) (id : ℕ) (message : Text) (now : ℕ) (s : Server A)
      → finish (broadcast_program h id message now) s ≡ broadcast_to_room h id message now s
  unfolding finish broadcast_program broadcast_to_room
  broadcast_alone h id message now s = finish-say_others id _ _ done _
