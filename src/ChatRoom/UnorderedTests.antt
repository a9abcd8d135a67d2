-- ===== src/ChatRoom/UnorderedTests.antt =====
-- chat_room.cpp on two states that hold the same rooms in another order.
use mathlib.Core.Quot
use multi_threaded_tcp_chat.Base.{[], ◌∷◌, ◌≡◌, refl, text_eq, nat_eq, arith}
use multi_threaded_tcp_chat.Base.Text.{Text, text}
use multi_threaded_tcp_chat.Base.Eq.{text_beq}
use multi_threaded_tcp_chat.Base.Map.{Map, lookup, insert, Distinct}
use multi_threaded_tcp_chat.ChatRoom.{Room, ChatRoomManager, new_room, general}
use multi_threaded_tcp_chat.ChatRoom.Listing.{list_rooms}
use multi_threaded_tcp_chat.ChatRoom.Reach.{join, delete}
use multi_threaded_tcp_chat.ChatRoom.Unordered.Tables.{SameRooms-swap}
use multi_threaded_tcp_chat.ChatRoom.Unordered.Results.{State, SameState, after_all, order_unseen}
use multi_threaded_tcp_chat.ChatRoom.Unordered.Quotient.{call, joins_commute}

abbrev base : Map Text Room
base = (general, new_room general 0 0) ∷ []

abbrev cpp : Text
cpp = text "cpp"

abbrev rust : Text
rust = text "rust"

abbrev one : ChatRoomManager
one = record {
  rooms = insert cpp (new_room cpp 7 1) (insert rust (new_room rust 8 2) base);
  client_rooms = [];
}

abbrev other : ChatRoomManager
other = record {
  rooms = insert rust (new_room rust 8 2) (insert cpp (new_room cpp 7 1) base);
  client_rooms = [];
}

one-Distinct : Distinct one.rooms
unfolding insert lookup text text_beq new_room
one-Distinct = (refl, (refl, (refl, tt)))

other-Distinct : Distinct other.rooms
unfolding insert lookup text text_beq new_room
other-Distinct = (refl, (refl, (refl, tt)))

abbrev one_state : State
one_state = (one, one-Distinct)

abbrev other_state : State
other_state = (other, other-Distinct)

same : SameState one_state other_state
unfolding text text_beq
same = record {
  rooms = SameRooms-swap cpp rust (new_room cpp 7 1) (new_room rust 8 2) base refl;
  filed = λ c. refl;
}

order_unseen_example :
    list_rooms (after_all (join cpp 3 [] ∷ delete rust 8 4 ∷ []) one_state).0
    ≡ list_rooms (after_all (join cpp 3 [] ∷ delete rust 8 4 ∷ []) other_state).0
order_unseen_example =
    (order_unseen (join cpp 3 [] ∷ delete rust 8 4 ∷ []) one_state other_state same).1

joins_commute_example :
    call (join cpp 3 []) (call (join rust 4 []) (Quot.mk one_state))
    ≡ call (join rust 4 []) (call (join cpp 3 []) (Quot.mk one_state))
joins_commute_example = (joins_commute cpp rust 3 4 [] [] (Quot.mk one_state) (ground arith)).2
