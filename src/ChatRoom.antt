-- ===== src/ChatRoom.antt =====
-- chat_room.h and chat_room.cpp: the rooms and who is in which. Each method holds the lock of the
-- manager from its first line to its last, so a method is one step. The clock that the constructor
-- of a room reads is the argument `now`.
pub mod Members
pub mod Invariant
pub mod Deletion
pub mod Open
pub mod Reach
pub mod Edits
pub mod Moves
pub mod Listing
pub mod Unordered
mod Tests
mod UnorderedTests
use multi_threaded_tcp_chat.Base.{
  ℕ, Bool, true, false, not, ◌&&◌, ◌||◌, Option, none, some, List, [], ◌∷◌, ◌++◌, ◌==◌, nat_eq,
  text_eq, if◌then◌else◌, is_some,
}
use multi_threaded_tcp_chat.Base.Text.{Text, text}
use multi_threaded_tcp_chat.Base.Map.{Map, lookup, insert, erase, lookup_or}
use multi_threaded_tcp_chat.Base.Set.{contains, add, remove}

pub record Room : Type 0 where
  pub name : Text
  pub topic : Text
  pub members : List ℕ
  pub owner_id : ℕ
  pub created_at : ℕ
  pub is_private : Bool
  pub password : Text

pub record ChatRoomManager : Type 0 where
  pub rooms : Map Text Room
  pub client_rooms : Map ℕ Text

abbrev pub general : Text
general = text "general"

-- The constructor of `Room`.
unfoldable pub new_room : Text → ℕ → ℕ → Room
new_room room_name owner now = record {
  name = room_name;
  topic = [];
  members = [];
  owner_id = owner;
  created_at = now;
  is_private = false;
  password = [];
}

-- The constructor of `ChatRoomManager`.
unfoldable pub init : ℕ → ChatRoomManager
unfolding new_room
init now = record {
  rooms =
      (general, record (new_room general 0 now) { topic = text "Welcome to the chat server!" })
      ∷ [];
  client_rooms = [];
}

unfoldable pub create_room : Text → ℕ → Bool → Text → ℕ → ChatRoomManager → Bool × ChatRoomManager
unfolding new_room
create_room name owner_id is_private password now m = elim (lookup name m.rooms) [
  | some _ ↦ (false, m)
  | none ↦
      let room = record (new_room name owner_id now) {
        is_private = is_private;
        password = password;
      } in
      (true, record m { rooms = insert name room m.rooms })
]

-- One round of the loop over the members of a room that is deleted. `rooms["general"]` makes the
-- room if it is not there.
unfoldable pub move_to_general : ℕ → ℕ → ChatRoomManager → ChatRoomManager
unfolding new_room
move_to_general now client_id m =
    let target = lookup_or (new_room [] 0 now) general m.rooms in
    record {
      rooms = insert general (record target { members = add client_id target.members }) m.rooms;
      client_rooms = insert client_id general m.client_rooms;
    }

unfoldable pub move_all_to_general : ℕ → List ℕ → ChatRoomManager → ChatRoomManager
move_all_to_general now [] m = m
move_all_to_general now (c ∷ cs) m = move_all_to_general now cs (move_to_general now c m)

unfoldable pub delete_room : Text → ℕ → ℕ → ChatRoomManager → Bool × ChatRoomManager
delete_room name requester_id now m =
    if name == general then (false, m) else elim (lookup name m.rooms) [
      | none ↦ (false, m)
      | some room ↦
          if not (room.owner_id == requester_id) && not (requester_id == 0)
          then (false, m)
          else let moved = move_all_to_general now room.members m in
            (true, record moved { rooms = erase name moved.rooms })
    ]

-- "Leave current room first": the room that the client is in, if it still exists, loses it.
unfoldable pub drop_member : Text → ℕ → Map Text Room → Map Text Room
drop_member name client_id rooms = elim (lookup name rooms) [
  | none ↦ rooms
  | some room ↦ insert name (record room { members = remove client_id room.members }) rooms
]

unfoldable pub leave_current : ℕ → ChatRoomManager → Map Text Room
leave_current client_id m = elim (lookup client_id m.client_rooms) [
  | none ↦ m.rooms
  | some current ↦ drop_member current client_id m.rooms
]

-- `it->second.members.insert(client_id)`, through the iterator to the room that was found.
unfoldable pub add_member : Text → ℕ → Map Text Room → Map Text Room
add_member name client_id rooms = elim (lookup name rooms) [
  | none ↦ rooms
  | some room ↦ insert name (record room { members = add client_id room.members }) rooms
]

unfoldable pub join_room : Text → ℕ → Text → ChatRoomManager → Bool × ChatRoomManager
join_room name client_id password m = elim (lookup name m.rooms) [
  | none ↦ (false, m)
  | some room ↦ if room.is_private && not (room.password == password) then (false, m) else (
    true,
    record {
      rooms = add_member name client_id (leave_current client_id m);
      client_rooms = insert client_id name m.client_rooms;
    },
  )
]

unfoldable pub leave_room : ℕ → ChatRoomManager → ChatRoomManager
leave_room client_id m = elim (lookup client_id m.client_rooms) [
  | none ↦ m
  | some current ↦ record {
    rooms = drop_member current client_id m.rooms;
    client_rooms = erase client_id m.client_rooms;
  }
]

unfoldable pub get_client_room : ℕ → ChatRoomManager → Text
get_client_room client_id m = lookup_or general client_id m.client_rooms

unfoldable pub set_topic : Text → Text → ℕ → ChatRoomManager → Bool × ChatRoomManager
set_topic room_name topic requester_id m = elim (lookup room_name m.rooms) [
  | none ↦ (false, m)
  | some room ↦
      if not (room.owner_id == requester_id) && not (requester_id == 0)
      then (false, m)
      else (true, record m { rooms = insert room_name (record room { topic = topic }) m.rooms })
]

unfoldable pub get_room_members : Text → ChatRoomManager → List ℕ
get_room_members room_name m = elim (lookup room_name m.rooms) [
  | none ↦ []
  | some room ↦ room.members
]

unfoldable pub room_exists : Text → ChatRoomManager → Bool
room_exists name m = is_some (lookup name m.rooms)

unfoldable pub get_roommates : ℕ → ChatRoomManager → List ℕ
get_roommates client_id m = elim (lookup client_id m.client_rooms) [
  | none ↦ get_room_members general m
  | some current ↦ get_room_members current m
]
