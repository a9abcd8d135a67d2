-- ===== src/ChatRoom/Tests.antt =====
-- chat_room.cpp on concrete calls: two rooms, one of them private, and three clients.
use multi_threaded_tcp_chat.Base.{true, false, [], ◌∷◌, ◌≡◌, refl, text_eq, nat_eq}
use multi_threaded_tcp_chat.Base.Text.{Text, text}
use multi_threaded_tcp_chat.Base.Eq.{text_beq}
use multi_threaded_tcp_chat.Base.Map.{lookup, insert, erase}
use multi_threaded_tcp_chat.Base.Set.{contains, add, remove}
use multi_threaded_tcp_chat.ChatRoom.{
  ChatRoomManager, init, new_room, general, create_room, join_room, delete_room, get_client_room,
  get_room_members, leave_current, add_member, drop_member, move_all_to_general, move_to_general,
}
use multi_threaded_tcp_chat.ChatRoom.Members.{member_of}
use multi_threaded_tcp_chat.ChatRoom.Invariant.{IsConsistent}
use multi_threaded_tcp_chat.ChatRoom.Reach.{create, join, apply, Reach, start, next, rooms_agree}
use multi_threaded_tcp_chat.ChatRoom.Moves.{admits, join_room-member_of}
use multi_threaded_tcp_chat.ChatRoom.Deletion.{delete_room-member_of}
use multi_threaded_tcp_chat.ChatRoom.Listing.{
  IsSorted, list_rooms_lem, list_rooms, sort, public_names, insert_sorted, text_lt,
}

abbrev cpp : Text
cpp = text "cpp"

abbrev secret : Text
secret = text "secret"

abbrev calls : ChatRoomManager
calls = apply (join general 3 []) (
    apply (join cpp 7 [])
      (apply (create secret 7 true (text "pw") 2) (apply (create cpp 7 false [] 1) (init 0))))

calls_reach : Reach calls
calls_reach = next (join general 3 []) _ (
    next (join cpp 7 []) _
      (next (create secret 7 true (text "pw") 2) _ (next (create cpp 7 false [] 1) _ (start 0))))

members_of_cpp : get_room_members cpp calls ≡ 7 ∷ []
unfolding apply init new_room create_room join_room leave_current add_member drop_member lookup
    insert add remove contains text text_beq get_room_members
members_of_cpp = refl

listed : list_rooms calls ≡ cpp ∷ general ∷ []
unfolding apply init new_room create_room join_room leave_current add_member drop_member lookup
    insert add remove contains text text_beq list_rooms sort public_names insert_sorted text_lt
listed = refl

wrong_password : (join_room secret 3 (text "no") calls).0 ≡ false
unfolding apply init new_room create_room join_room leave_current add_member drop_member lookup
    insert add remove contains text text_beq
wrong_password = refl

moved_back : get_client_room 7 (delete_room cpp 7 9 calls).1 ≡ general
unfolding apply init new_room create_room join_room leave_current add_member drop_member lookup
    insert erase add remove contains text text_beq delete_room move_all_to_general move_to_general
    get_client_room
moved_back = refl

rooms_agree_example : IsConsistent calls
rooms_agree_example = rooms_agree calls_reach

join_room-member_of_example :
    (join_room secret 3 (text "pw") calls).0 ≡ admits calls secret (text "pw")
join_room-member_of_example =
    (join_room-member_of calls secret 3 (text "pw") (rooms_agree calls_reach)).0

delete_room-member_of_example : member_of (delete_room cpp 7 9 calls).1.rooms general 7 ≡ true
unfolding apply init new_room create_room join_room leave_current add_member drop_member lookup
    insert add remove contains text text_beq member_of
delete_room-member_of_example =
    (delete_room-member_of calls cpp 7 9 (rooms_agree calls_reach)).1 general 7

list_rooms_lem_example : IsSorted (list_rooms calls)
list_rooms_lem_example = (list_rooms_lem calls_reach).0
