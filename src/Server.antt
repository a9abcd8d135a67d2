-- ===== src/Server.antt =====
-- server.cpp: the handlers that the tasks of the thread pool run, over the four managers. A handler is
-- one step here, from its first line to its last. The log on the console is left out.
pub mod Process
pub mod Message
pub mod Invariant
pub mod Handlers
pub mod Reach
pub mod Delivery
pub mod CommandRooms
pub mod Banning
pub mod Silence
pub mod Launch
pub mod Teardown
pub mod CleanupSteps
pub mod QuietEnd
pub mod Cleanup
pub mod Lifetime
pub mod Program
pub mod CommandProgram
pub mod MessageProgram
pub mod Alone
pub mod CommandAlone
pub mod Overlap
pub mod CommandOverlap
pub mod MessageOverlap
pub mod Interleaving
pub mod Archive
mod Samples
mod Tests
mod RunTests
mod CommandTests
mod CleanupTests
use multi_threaded_tcp_chat.Base.{
  ℕ, zero, suc, ◌+◌, Bool, true, false, not, ◌&&◌, Option, none, some, List, [], ◌∷◌, ◌++◌,
  if◌then◌else◌, length, ◌==◌, nat_eq, text_eq,
}
use multi_threaded_tcp_chat.Base.Text.{Text, text, to_string}
use multi_threaded_tcp_chat.Base.Map.{Map, lookup_or, insert, erase}
use multi_threaded_tcp_chat.ChatRoom.{
  ChatRoomManager, general, join_room, leave_room, get_client_room, get_room_members,
}
use multi_threaded_tcp_chat.ConnectionManager.{
  ConnectionManager, allow_connection, on_connect, on_disconnect,
}
use multi_threaded_tcp_chat.MessageStore.{ChatMessage}
use multi_threaded_tcp_chat.IocpServer.{IocpServer, send, disconnect_client}

-- What the handlers use of MessageStore: Store at a time, and GetRecent.
pub record History (A : Type 0) : Type 0 where
  pub store : ℕ → ChatMessage → A → A
  pub get_recent : Text → ℕ → A → List ChatMessage

-- The global components, and the names of the clients.
pub record Server (A : Type 0) : Type 0 where
  pub network : IocpServer
  pub connection_manager : ConnectionManager
  pub chat_rooms : ChatRoomManager
  pub message_store : A
  pub client_names : Map ℕ Text

-- The line that SendToClient sends: it ends with '\n'.
unfoldable pub as_line : Text → Text
as_line [] = text "\n"
as_line (c ∷ []) = if not (c == 10) then c ∷ text "\n" else c ∷ []
as_line (c ∷ d ∷ cs) = c ∷ as_line (d ∷ cs)

-- The effect of SendToClient on the network.
unfoldable pub deliver : ℕ → Text → IocpServer → IocpServer
deliver client_id message n = if message == [] then n else (send client_id (as_line message) n).1

-- SendToClient for each id of a list.
unfoldable pub deliver_all : List ℕ → Text → IocpServer → IocpServer
deliver_all [] message n = n
deliver_all (id ∷ ids) message n = deliver_all ids message (deliver id message n)

-- The same without the client `excluded`.
unfoldable pub deliver_others : ℕ → List ℕ → Text → IocpServer → IocpServer
deliver_others excluded [] message n = n
deliver_others excluded (id ∷ ids) message n =
    deliver_others excluded ids message (if not (id == excluded) then deliver id message n else n)

-- "User#" and the id
unfoldable pub default_name : ℕ → Text
default_name client_id = text "User#" ++ to_string client_id

module _ {A : Type 0} where
  unfoldable pub send_to_client : ℕ → Text → Server A → Server A
  send_to_client client_id message s = record s { network = deliver client_id message s.network }

  unfoldable pub get_client_name : ℕ → Server A → Text
  get_client_name client_id s = lookup_or (default_name client_id) client_id s.client_names

  unfoldable pub set_client_name : ℕ → Text → Server A → Server A
  set_client_name client_id name s = record s {
    client_names = insert client_id name s.client_names;
  }

  -- HandleConnect; `ip` is what GetSocketAddress gives for the socket.
  unfoldable pub handle_connect : ℕ → Text → ℕ → Server A → Server A
  unfolding send_to_client
  handle_connect client_id ip now s =
      let (allowed, connections) = allow_connection ip now s.connection_manager in
      if not allowed
      then record s {
        connection_manager = connections;
        network = disconnect_client client_id s.network;
      }
      else send_to_client client_id
          (text "Welcome to the chat server! You are in #general.\n"
            ++ text "Type #help for available commands.\n")
          (record s {
            connection_manager = on_connect connections;
            chat_rooms = (join_room general client_id [] s.chat_rooms).1;
          })

  unfoldable pub handle_disconnect : ℕ → Server A → Server A
  handle_disconnect client_id s =
      let name = get_client_name client_id s in
      let room = get_client_room client_id s.chat_rooms in
      let rooms = leave_room client_id s.chat_rooms in
      record s {
        chat_rooms = rooms;
        connection_manager = on_disconnect s.connection_manager;
        client_names = erase client_id s.client_names;
        network =
            if not (room == [])
            then deliver_all (get_room_members room rooms) (name ++ text " has left the chat")
                s.network
            else s.network;
      }

  -- BroadcastToRoom; the message is stored and stamped at `now`.
  unfoldable pub broadcast_to_room : History A → ℕ → Text → ℕ → Server A → Server A
  broadcast_to_room h sender_id message now s =
      let name = get_client_name sender_id s in
      let room = get_client_room sender_id s.chat_rooms in
      let chat_msg : ChatMessage = record {
        sender_id = sender_id;
        sender_name = name;
        room = room;
        content = message;
        timestamp = now;
      } in
      record s {
        message_store = h.store now chat_msg s.message_store;
        network =
            deliver_others sender_id (get_room_members room s.chat_rooms)
              (name ++ text ": " ++ message) s.network;
      }
