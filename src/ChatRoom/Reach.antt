-- ===== src/ChatRoom/Reach.antt =====
-- Any number of threads call the methods of one ChatRoomManager. Since a method holds the lock
-- throughout, what they can do is a sequence of whole calls, in any order and with any arguments.
use multi_threaded_tcp_chat.Base.{ℕ, Bool, true, ◌≡◌, arith, text_eq}
use multi_threaded_tcp_chat.Base.Eq.{text_beq_iff}
use multi_threaded_tcp_chat.Base.Text.{Text}
use multi_threaded_tcp_chat.ChatRoom.{
  ChatRoomManager, init, create_room, delete_room, join_room, leave_room, set_topic,
}
use multi_threaded_tcp_chat.ChatRoom.Members.{member_of}
use multi_threaded_tcp_chat.ChatRoom.Invariant.{
  IsConsistent, init-IsConsistent, create_room-IsConsistent, join_room-IsConsistent,
  leave_room-IsConsistent, set_topic-IsConsistent,
}
use multi_threaded_tcp_chat.ChatRoom.Deletion.{delete_room-IsConsistent, filed_under_once}

-- The calls that change the state.
pub data Call : Type 0 where
  create : Text → ℕ → Bool → Text → ℕ → Call
  delete : Text → ℕ → ℕ → Call
  join : Text → ℕ → Text → Call
  leave : ℕ → Call
  topic : Text → Text → ℕ → Call

unfoldable pub apply : Call → ChatRoomManager → ChatRoomManager
apply (create name owner is_private password now) m =
    (create_room name owner is_private password now m).1
apply (delete name requester now) m = (delete_room name requester now m).1
apply (join name client password) m = (join_room name client password m).1
apply (leave client) m = leave_room client m
apply (topic name t requester) m = (set_topic name t requester m).1

pub data Reach : ChatRoomManager → Type 0 where
  start : (now : ℕ) → Reach (init now)
  next : (c : Call) (m : ChatRoomManager) → Reach m → Reach (apply c m)

apply-IsConsistent : (c : Call) (m : ChatRoomManager) → IsConsistent m → IsConsistent (apply c m)
unfolding apply
apply-IsConsistent (create name owner is_private password now) m v =
    create_room-IsConsistent m v name owner is_private password now
apply-IsConsistent (delete name requester now) m v = delete_room-IsConsistent m v name requester now
apply-IsConsistent (join name client password) m v = join_room-IsConsistent m v name client password
apply-IsConsistent (leave client) m v = leave_room-IsConsistent m v client
apply-IsConsistent (topic name t requester) m v = set_topic-IsConsistent m v name t requester

-- After any calls from the start, by whatever threads and in whatever order: a client is a member
-- of a room exactly when the client table files it there, the room "general" exists, and each room
-- is filed under its own name.
pub rooms_agree : {m : ChatRoomManager} → Reach m → IsConsistent m
rooms_agree (start now) = init-IsConsistent now
rooms_agree (next c m r) = apply-IsConsistent c m (rooms_agree r)

-- In every reachable state a client is a member of at most one room: of two rooms that have it as
-- a member, both are the same.
pub one_room :
    {m : ChatRoomManager} (a b : Text) (c : ℕ)
    → Reach m
    → member_of m.rooms a c ≡ true
    → member_of m.rooms b c ≡ true
    → a ≡ b
one_room {m} a b c r in_a in_b =
    let v = rooms_agree r in
    ground
      (arith, v.placed a c, v.placed b c, filed_under_once a b c m.client_rooms, text_beq_iff a b)
