-- ===== src/ChatRoom/Unordered/Results.antt =====
-- What a caller of chat_room.cpp sees of two states that differ in the order of their tables.

use multi_threaded_tcp_chat.Base.{
  ℕ, ◌≡◌, refl, ap, ◌∙◌, Bool, true, List, [], ◌∷◌, nat_eq, text_eq, arith, Option-cases, inl, inr,
}
use multi_threaded_tcp_chat.Base.Text.{Text, to_string}
use multi_threaded_tcp_chat.Base.Map.{lookup, Distinct}
use multi_threaded_tcp_chat.Base.Counting.{SameItems, length-SameItems}
use multi_threaded_tcp_chat.ChatRoom.{
  ChatRoomManager, general, create_room, delete_room, join_room, set_topic, get_client_room,
  get_room_members, room_exists, get_roommates,
}
use multi_threaded_tcp_chat.ChatRoom.Listing.{list_rooms, get_room_info, apply-Distinct}
use multi_threaded_tcp_chat.ChatRoom.Reach.{Call, create, delete, join, leave, topic, apply}
use multi_threaded_tcp_chat.ChatRoom.Unordered.Tables.{SameEntry-cases}
use multi_threaded_tcp_chat.ChatRoom.Unordered.Operations.{
  SameTables, create_room-SameTables, join_room-SameTables, leave_room-SameTables,
  set_topic-SameTables,
}
use multi_threaded_tcp_chat.ChatRoom.Unordered.Deletion.{delete_room-SameTables}
use multi_threaded_tcp_chat.ChatRoom.Unordered.Sorting.{list_rooms-same}

-- What a call gives back; LeaveRoom gives nothing.
unfoldable pub succeeded : Call → ChatRoomManager → Bool
succeeded (create name owner is_private password now) m =
    (create_room name owner is_private password now m).0
succeeded (delete name requester now) m = (delete_room name requester now m).0
succeeded (join name client password) m = (join_room name client password m).0
succeeded (leave client) m = true
succeeded (topic name t requester) m = (set_topic name t requester m).0

pub apply-SameTables :
    (k : Call) (m n : ChatRoomManager)
    → SameTables m n
    → (succeeded k m ≡ succeeded k n) × SameTables (apply k m) (apply k n)
unfolding succeeded apply
apply-SameTables (create name owner is_private password now) m n h =
    create_room-SameTables m n h name owner is_private password now
apply-SameTables (delete name requester now) m n h = delete_room-SameTables m n h name requester now
apply-SameTables (join name client password) m n h = join_room-SameTables m n h name client password
apply-SameTables (leave client) m n h = (refl, leave_room-SameTables m n h client)
apply-SameTables (topic name t requester) m n h = set_topic-SameTables m n h name t requester

members-same :
    (a : Text) (m n : ChatRoomManager)
    → SameTables m n
    → SameItems (get_room_members a m) (get_room_members a n)
unfolding get_room_members
members-same a m n h = elim (SameEntry-cases (lookup a m.rooms) (lookup a n.rooms) (h.rooms a)) [
  | inl (e, f) ↦ rw (e, f, get_room_members) (λ b. refl)
  | inr (r, s, e, f, same) ↦ rw (e, f, get_room_members) same.members
]

info-same :
    (a : Text) (m n : ChatRoomManager) → SameTables m n → get_room_info a m ≡ get_room_info a n
unfolding get_room_info
info-same a m n h = elim (SameEntry-cases (lookup a m.rooms) (lookup a n.rooms) (h.rooms a)) [
  | inl (e, f) ↦ rw (e, f, get_room_info) refl
  | inr (r, s, e, f, same) ↦
      let counted = ap to_string (length-SameItems r.members s.members same.members) in
      ground (arith, e, f, same.name, same.topic, same.is_private, counted)
]

roommates-same :
    (c : ℕ) (m n : ChatRoomManager)
    → SameTables m n
    → SameItems (get_roommates c m) (get_roommates c n)
unfolding get_roommates
roommates-same c m n h = elim (Option-cases (lookup c n.client_rooms)) [
  | inl e ↦ rw (h.filed c, e, get_roommates) (members-same general m n h)
  | inr (a, e) ↦ rw (h.filed c, e, get_roommates) (members-same a m n h)
]

exists-same :
    (a : Text) (m n : ChatRoomManager) → SameTables m n → room_exists a m ≡ room_exists a n
unfolding room_exists
exists-same a m n h = elim (SameEntry-cases (lookup a m.rooms) (lookup a n.rooms) (h.rooms a)) [
  | inl (e, f) ↦ rw (e, f) refl
  | inr (r, s, e, f, same) ↦ rw (e, f) refl
]

client_room-same :
    (c : ℕ) (m n : ChatRoomManager) → SameTables m n → get_client_room c m ≡ get_client_room c n
unfolding get_client_room
client_room-same c m n h = ground (arith, h.filed c)

-- The states, with no name twice among the rooms, up to the order of the tables.
abbrev pub State : Type 0
State = (m : ChatRoomManager) × Distinct m.rooms

abbrev pub SameState : State → State → Type 0
SameState s t = SameTables s.0 t.0

abbrev pub after : Call → State → State
after k s = (apply k s.0, apply-Distinct k s.0 s.1)

abbrev pub after_all : List Call → State → State
after_all [] s = s
after_all (k ∷ ks) s = after_all ks (after k s)

-- What the calls give back, one after the other.
abbrev pub answers : List Call → State → List Bool
answers [] s = []
answers (k ∷ ks) s = succeeded k s.0 ∷ answers ks (after k s)

run-same :
    (ks : List Call) (s t : State)
    → SameState s t
    → (answers ks s ≡ answers ks t) × SameState (after_all ks s) (after_all ks t)
run-same [] s t h = (refl, h)
run-same (k ∷ ks) s t h =
    let (same, next) = apply-SameTables k s.0 t.0 h in
    let (rest, last) = run-same ks (after k s) (after k t) next in
    (
      ap (λ (b : Bool). b ∷ answers ks (after k s)) same
          ∙ ap (λ (l : List Bool). succeeded k t.0 ∷ l) rest,
      last,
    )

-- Of two states that hold the same rooms and the same members in whatever order their hash tables give,
-- no sequence of calls can tell one from the other: every call succeeds in both or in neither, and
-- after all of them ListRooms, GetRoomInfo, RoomExists and GetClientRoom answer the same, and
-- GetRoomMembers and GetRoommates the same members, each as often, if not in the same order.
pub order_unseen :
    (ks : List Call) (s t : State)
    → SameState s t
    → (answers ks s ≡ answers ks t)
      × (list_rooms (after_all ks s).0 ≡ list_rooms (after_all ks t).0)
      × ((a : Text) → get_room_info a (after_all ks s).0 ≡ get_room_info a (after_all ks t).0)
      × ((a : Text) → room_exists a (after_all ks s).0 ≡ room_exists a (after_all ks t).0)
      × ((c : ℕ) → get_client_room c (after_all ks s).0 ≡ get_client_room c (after_all ks t).0)
      × ((a : Text)
          → SameItems
              (get_room_members a (after_all ks s).0)
              (get_room_members a (after_all ks t).0))
      × ((c : ℕ)
          → SameItems (get_roommates c (after_all ks s).0) (get_roommates c (after_all ks t).0))
order_unseen ks s t h =
    let (same, last) = run-same ks s t h in
    let u = after_all ks s in
    let v = after_all ks t in
    (
      same,
      list_rooms-same u.0 v.0 last.rooms u.1 v.1,
      λ a. info-same a u.0 v.0 last,
      λ a. exists-same a u.0 v.0 last,
      λ c. client_room-same c u.0 v.0 last,
      λ a. members-same a u.0 v.0 last,
      λ c. roommates-same c u.0 v.0 last,
    )
