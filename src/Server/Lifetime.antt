-- ===== src/Server/Lifetime.antt =====
-- HandleConnect and HandleDisconnect of one client, in both orders: they are two tasks of the pool, and
-- two workers may take them.
use multi_threaded_tcp_chat.Base.{
  ℕ, ◌+◌, ◌-◌, ◌≡◌, refl, ap, ◌∙◌, true, not, ◌&&◌, none, List, [], ◌∷◌, if_both, arith, ◌==◌,
  nat_eq, text_eq,
}
use multi_threaded_tcp_chat.Base.Eq.{text_beq_iff}
use multi_threaded_tcp_chat.Base.Text.{Text}
use multi_threaded_tcp_chat.Base.Map.{lookup, lookup-erase_self}
use multi_threaded_tcp_chat.ChatRoom.{
  ChatRoomManager, general, join_room, leave_room, get_client_room,
}
use multi_threaded_tcp_chat.ChatRoom.Members.{member_of}
use multi_threaded_tcp_chat.ChatRoom.Invariant.{
  IsConsistent, join_room-IsConsistent, leave_room-IsConsistent,
}
use multi_threaded_tcp_chat.ChatRoom.Moves.{join_room-member_of, leave_room-member_of}
use multi_threaded_tcp_chat.ConnectionManager.{ConnectionManager, allow_connection, on_connect}
use multi_threaded_tcp_chat.IocpServer.{IocpServer, post_write, send}
use multi_threaded_tcp_chat.Server.{
  Server, deliver, deliver_all, send_to_client, handle_connect, handle_disconnect,
}
use multi_threaded_tcp_chat.Server.Silence.{
  current_connections-allow_connection, current_connections-on_disconnect,
}

clients-deliver :
    (id : ℕ) (message : Text) (n : IocpServer) → (deliver id message n).clients ≡ n.clients
unfolding deliver send post_write
clients-deliver id message n = ground arith

clients-deliver_all :
    (ids : List ℕ) (message : Text) (n : IocpServer)
    → (deliver_all ids message n).clients ≡ n.clients
unfolding deliver_all
clients-deliver_all [] message n = refl
clients-deliver_all (id ∷ ids) message n =
    clients-deliver_all ids message (deliver id message n) ∙ clients-deliver id message n

current_connections-on_connect :
    (m : ConnectionManager) → (on_connect m).current_connections ≡ m.current_connections + 1
unfolding on_connect
current_connections-on_connect m = refl

came_and_went :
    (id d : ℕ) (n : Text) (m : ChatRoomManager)
    → IsConsistent m
    → member_of (leave_room id (join_room general id [] m).1).rooms n d
      ≡ (not (id == d) && member_of m.rooms n d)
came_and_went id d n m v =
    leave_room-member_of _ id (join_room-IsConsistent m v general id []) n d
    ∙ ground (arith, (join_room-member_of m general id [] v).1 n d)

went_and_came :
    (id : ℕ) (m : ChatRoomManager)
    → IsConsistent m
    → (join_room general id [] (leave_room id m)).0 ≡ true
    → member_of (join_room general id [] (leave_room id m)).1.rooms general id ≡ true
went_and_came id m v lets_in =
    let (success, members) =
      join_room-member_of (leave_room id m) general id [] (leave_room-IsConsistent m v id) in
    ground (arith, members general id, success, lets_in, text_beq_iff general general)

module _ {A : Type 0} where
  connected_rooms :
      (id : ℕ) (ip : Text) (now : ℕ) (s : Server A)
      → (allow_connection ip now s.connection_manager).0 ≡ true
      → ((handle_connect id ip now s).chat_rooms ≡ (join_room general id [] s.chat_rooms).1)
        × ((handle_connect id ip now s).connection_manager.current_connections
            ≡ s.connection_manager.current_connections + 1)
        × ((handle_connect id ip now s).network.clients ≡ s.network.clients)
  unfolding handle_connect send_to_client
  connected_rooms id ip now s allowed =
      rw (allowed, handle_connect)
        (
          refl,
          current_connections-on_connect (allow_connection ip now s.connection_manager).1
              ∙ ap (λ (k : ℕ). k + 1)
                  (current_connections-allow_connection ip now s.connection_manager),
          clients-deliver id _ s.network,
        )

  clients-handle_disconnect :
      (id : ℕ) (s : Server A) → (handle_disconnect id s).network.clients ≡ s.network.clients
  unfolding handle_disconnect
  clients-handle_disconnect id s =
      if_both (λ (n : IocpServer). n.clients ≡ s.network.clients)
        (not (get_client_room id s.chat_rooms == [])) (clients-deliver_all _ _ s.network) refl

  -- If HandleDisconnect runs after HandleConnect of a client that was let in: the client is a member of no
  -- room, it has no name, everyone else is a member of the same rooms as before, and the connection
  -- counter is back where it was.
  pub disconnect_undoes :
      (id : ℕ) (ip : Text) (now : ℕ) (s : Server A)
      → IsConsistent s.chat_rooms
      → (allow_connection ip now s.connection_manager).0 ≡ true
      → let after = handle_disconnect id (handle_connect id ip now s) in
        ((n : Text) (d : ℕ)
          → member_of after.chat_rooms.rooms n d
            ≡ (not (id == d) && member_of s.chat_rooms.rooms n d))
        × (lookup id after.client_names ≡ none)
        × (after.connection_manager.current_connections ≡ s.connection_manager.current_connections)
  unfolding handle_disconnect
  disconnect_undoes id ip now s v allowed =
      let (rooms, counted, _) = connected_rooms id ip now s allowed in
      (
        λ n d.
            ap (λ (m : ChatRoomManager). member_of (leave_room id m).rooms n d) rooms
            ∙ came_and_went id d n s.chat_rooms v,
        lookup-erase_self id (handle_connect id ip now s).client_names,
        omega (
          arith,
          counted,
          current_connections-on_disconnect (handle_connect id ip now s).connection_manager,
        ),
      )

  -- If the two tasks run the other way round, for a client that is no longer in the table of clients, and
  -- the client is let in: it stays a member of "general" although it is still not in the table, and
  -- the counter, unless it was 0, is where it was, and 1 if it was.
  pub late_connection_stays :
      (id : ℕ) (ip : Text) (now : ℕ) (s : Server A)
      → IsConsistent s.chat_rooms
      → lookup id s.network.clients ≡ none
      → (allow_connection ip now (handle_disconnect id s).connection_manager).0 ≡ true
      → (join_room general id [] (leave_room id s.chat_rooms)).0 ≡ true
      → let late = handle_connect id ip now (handle_disconnect id s) in
        (member_of late.chat_rooms.rooms general id ≡ true)
        × (lookup id late.network.clients ≡ none)
        × (late.connection_manager.current_connections
            ≡ s.connection_manager.current_connections - 1 + 1)
  unfolding handle_disconnect
  late_connection_stays id ip now s v gone allowed lets_in =
      let (rooms, counted, clients) = connected_rooms id ip now (handle_disconnect id s) allowed in
      (
        ap (λ (m : ChatRoomManager). member_of m.rooms general id) rooms
            ∙ went_and_came id s.chat_rooms v lets_in,
        ap (lookup id) (clients ∙ clients-handle_disconnect id s) ∙ gone,
        counted ∙ ap (λ (k : ℕ). k + 1) (current_connections-on_disconnect s.connection_manager),
      )
