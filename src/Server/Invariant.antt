-- ===== src/Server/Invariant.antt =====
-- What holds of the server whatever its clients do: it drives the rooms and the tables of clients only
-- through their operations, and the names that it gives out are well formed.
use multi_threaded_tcp_chat.Base.{
  ℕ, ◌≡◌, ◌≢◌, refl, ap, sym, ◌∙◌, false, not, Option, none, some, List, [], ◌∷◌, ◌++◌, if_both,
  arith, ◌==◌, nat_eq, text_eq,
}
use multi_threaded_tcp_chat.Base.Text.{Text, text}
use multi_threaded_tcp_chat.Base.Map.{lookup, lookup-erase}
use multi_threaded_tcp_chat.ChatRoom.{
  ChatRoomManager, general, create_room, join_room, leave_room, get_client_room,
}
use multi_threaded_tcp_chat.ChatRoom.Reach.{create, join, leave}
use multi_threaded_tcp_chat.ChatRoom.Reach
use multi_threaded_tcp_chat.ConnectionManager.{allow_connection}
use multi_threaded_tcp_chat.IocpServer.{IocpServer, disconnect_client}
use multi_threaded_tcp_chat.IocpServer.Tables.{Event, IsPossible, sends_to, disconnects}
use multi_threaded_tcp_chat.IocpServer.Tables
use multi_threaded_tcp_chat.Server.{
  as_line, History, Server, deliver, deliver_all, deliver_others, send_to_client, get_client_name,
  handle_connect, handle_disconnect, broadcast_to_room,
}
use multi_threaded_tcp_chat.Server.Process.{
  find_client, run_join, run_create, run_leave, run_whisper,
}
use multi_threaded_tcp_chat.Server.Message.{starts_with_hash, disconnect_all}

deliver-Reach :
    (id : ℕ) (message : Text) (n : IocpServer)
    → Tables.Reach n
    → Tables.Reach (deliver id message n)
unfolding deliver Tables.apply
deliver-Reach id message n r =
    if_both Tables.Reach (message == []) r (Tables.next (sends_to id (as_line message)) n r tt)

deliver_all-Reach :
    (ids : List ℕ) (message : Text) (n : IocpServer)
    → Tables.Reach n
    → Tables.Reach (deliver_all ids message n)
unfolding deliver_all
deliver_all-Reach [] message n r = r
deliver_all-Reach (id ∷ ids) message n r =
    deliver_all-Reach ids message _ (deliver-Reach id message n r)

pub deliver_others-Reach :
    (excluded : ℕ) (ids : List ℕ) (message : Text) (n : IocpServer)
    → Tables.Reach n
    → Tables.Reach (deliver_others excluded ids message n)
unfolding deliver_others
deliver_others-Reach excluded [] message n r = r
deliver_others-Reach excluded (id ∷ ids) message n r =
    deliver_others-Reach excluded ids message _
      (if_both Tables.Reach (not (id == excluded)) (deliver-Reach id message n r) r)

pub disconnect-Reach :
    (id : ℕ) (n : IocpServer) → Tables.Reach n → Tables.Reach (disconnect_client id n)
unfolding Tables.apply
disconnect-Reach id n r = Tables.next (disconnects id) n r tt

pub disconnect_all-Reach :
    (ids : List ℕ) (n : IocpServer) → Tables.Reach n → Tables.Reach (disconnect_all ids n)
unfolding disconnect_all
disconnect_all-Reach [] n r = r
disconnect_all-Reach (id ∷ ids) n r = disconnect_all-Reach ids _ (disconnect-Reach id n r)

pub joined-Reach :
    (room : Text) (id : ℕ) (m : ChatRoomManager)
    → Reach.Reach m
    → Reach.Reach (join_room room id [] m).1
unfolding Reach.apply
joined-Reach room id m r = Reach.next (join room id []) m r

pub left-Reach : (id : ℕ) (m : ChatRoomManager) → Reach.Reach m → Reach.Reach (leave_room id m)
unfolding Reach.apply
left-Reach id m r = Reach.next (leave id) m r

pub created-Reach :
    (room : Text) (id now : ℕ) (m : ChatRoomManager)
    → Reach.Reach m
    → Reach.Reach (create_room room id false [] now m).1
unfolding Reach.apply
created-Reach room id now m r = Reach.next (create room id false [] now) m r

-- A name that the server gives out is not empty and does not start with '#'.
abbrev pub IsName : Text → Type 0
IsName name = (name ≢ []) × (starts_with_hash name ≡ false)

module _ {A : Type 0} where
  pub record IsSound (s : Server A) : Type 0 where
    pub rooms_reached : Reach.Reach s.chat_rooms
    pub network_reached : Tables.Reach s.network
    pub named : (id : ℕ) (name : Text) → lookup id s.client_names ≡ some name → IsName name

  -- The names are left alone.
  pub IsSound-keep :
      (s t : Server A)
      → IsSound s
      → Reach.Reach t.chat_rooms
      → Tables.Reach t.network
      → t.client_names ≡ s.client_names
      → IsSound t
  IsSound-keep s t v rooms network same = record {
    rooms_reached = rooms;
    network_reached = network;
    named = λ id name e. v.named id name (ap (lookup id) (sym same) ∙ e);
  }

  pub send_to_client-IsSound :
      (id : ℕ) (message : Text) (s : Server A) → IsSound s → IsSound (send_to_client id message s)
  unfolding send_to_client
  send_to_client-IsSound id message s v =
      IsSound-keep s _ v v.rooms_reached (deliver-Reach id message s.network v.network_reached) refl

  pub handle_connect-IsSound :
      (id : ℕ) (ip : Text) (now : ℕ) (s : Server A)
      → IsSound s
      → IsSound (handle_connect id ip now s)
  unfolding handle_connect
  handle_connect-IsSound id ip now s v =
      if_both IsSound (not (allow_connection ip now s.connection_manager).0)
        (IsSound-keep s _ v v.rooms_reached (disconnect-Reach id s.network v.network_reached) refl)
        (send_to_client-IsSound id _ _ (
          IsSound-keep s _ v (joined-Reach general id s.chat_rooms v.rooms_reached)
            v.network_reached refl))

  pub handle_disconnect-IsSound :
      (id : ℕ) (s : Server A) → IsSound s → IsSound (handle_disconnect id s)
  unfolding handle_disconnect
  handle_disconnect-IsSound id s v = record {
    rooms_reached = left-Reach id s.chat_rooms v.rooms_reached;
    network_reached =
        if_both Tables.Reach (not (get_client_room id s.chat_rooms == []))
          (deliver_all-Reach _ _ s.network v.network_reached) v.network_reached;
    named = λ other name e.
        v.named other name (ground (arith, lookup-erase id other s.client_names, e));
  }

  pub broadcast_to_room-IsSound :
      (h : History A) (id : ℕ) (message : Text) (now : ℕ) (s : Server A)
      → IsSound s
      → IsSound (broadcast_to_room h id message now s)
  unfolding broadcast_to_room
  broadcast_to_room-IsSound h id message now s v =
      IsSound-keep s _ v v.rooms_reached (deliver_others-Reach id _ _ s.network v.network_reached)
        refl

  pub run_join-IsSound :
      (id : ℕ) (room : Text) (s : Server A) → IsSound s → IsSound (run_join id room s)
  unfolding run_join
  run_join-IsSound id room s v =
      let rooms = joined-Reach room id s.chat_rooms v.rooms_reached in
      if_both IsSound (room == []) (send_to_client-IsSound id _ s v) (
        if_both IsSound (get_client_room id s.chat_rooms == room) (send_to_client-IsSound id _ s v)
          (if_both IsSound (join_room room id [] s.chat_rooms).0
            (send_to_client-IsSound id _ _ (
              IsSound-keep s _ v rooms
                (deliver_others-Reach id _ _ _ (
                  if_both Tables.Reach (not (get_client_room id s.chat_rooms == []))
                    (deliver_all-Reach _ _ s.network v.network_reached) v.network_reached))
                refl))
            (send_to_client-IsSound id _ _ (IsSound-keep s _ v rooms v.network_reached refl))))

  pub run_create-IsSound :
      (id : ℕ) (room : Text) (now : ℕ) (s : Server A)
      → IsSound s
      → IsSound (run_create id room now s)
  unfolding run_create
  run_create-IsSound id room now s v =
      let rooms = created-Reach room id now s.chat_rooms v.rooms_reached in
      if_both IsSound (room == []) (send_to_client-IsSound id _ s v) (
        if_both IsSound (create_room room id false [] now s.chat_rooms).0
          (send_to_client-IsSound id _ _
            (IsSound-keep s _ v (joined-Reach room id _ rooms) v.network_reached refl))
          (send_to_client-IsSound id _ _ (IsSound-keep s _ v rooms v.network_reached refl)))

  pub run_leave-IsSound : (id : ℕ) (s : Server A) → IsSound s → IsSound (run_leave id s)
  unfolding run_leave
  run_leave-IsSound id s v =
      if_both IsSound (not (get_client_room id s.chat_rooms == general))
        (send_to_client-IsSound id _ _ (
          IsSound-keep s _ v (joined-Reach general id s.chat_rooms v.rooms_reached)
            v.network_reached refl))
        (send_to_client-IsSound id _ s v)

  pub run_whisper-IsSound :
      (id : ℕ) (target msg : Text) (s : Server A)
      → IsSound s
      → IsSound (run_whisper id target msg s)
  unfolding run_whisper
  run_whisper-IsSound id target msg s v =
      if_both IsSound (target == []) (send_to_client-IsSound id _ s v) (
        if_both IsSound (msg == []) (send_to_client-IsSound id _ s v)
          (found (find_client target s.client_names)))
    where
      found :
          (o : Option ℕ)
          → IsSound (elim o [
            | none ↦ send_to_client id (text "User not found: " ++ target) s
            | some t ↦ send_to_client id (text "[Whisper to " ++ target ++ text "]:" ++ msg) (
                send_to_client t
                  (text "[Whisper from " ++ get_client_name id s ++ text "]:" ++ msg)
                  s)
          ])
      found none = send_to_client-IsSound id _ s v
      found (some t) = send_to_client-IsSound id _ _ (send_to_client-IsSound t _ s v)
