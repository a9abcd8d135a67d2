-- ===== src/ChatRoom/Moves.antt =====
-- What each operation of chat_room.cpp does to who is where.
use multi_threaded_tcp_chat.Base.{
  ℕ, Bool, true, false, not, ◌&&◌, ◌||◌, none, some, ◌≡◌, ◌∙◌, arith, ap, sym, ◌==◌, nat_eq,
  text_eq, text_beq, if◌then◌else◌, Option-cases, inl, inr,
}
use multi_threaded_tcp_chat.Base.Eq.{text_beq_iff}
use multi_threaded_tcp_chat.Base.Text.{Text}
use multi_threaded_tcp_chat.Base.Map.{lookup, lookup-insert, lookup-erase}
use multi_threaded_tcp_chat.ChatRoom.{
  ChatRoomManager, general, join_room, leave_room, get_client_room, get_room_members, get_roommates,
}
use multi_threaded_tcp_chat.ChatRoom.Members.{member_of, filed_under}
use multi_threaded_tcp_chat.ChatRoom.Invariant.{
  IsConsistent, join_room-IsConsistent, leave_room-IsConsistent,
}

-- The guard of JoinRoom: the room exists, and if it is private the password is right.
abbrev pub admits : ChatRoomManager → Text → Text → Bool
admits m name password = elim (lookup name m.rooms) [
  | none ↦ false
  | some r ↦ not r.is_private || text_beq r.password password
]

filed_under-join :
    (m : ChatRoomManager) (name : Text) (c : ℕ) (password : Text) (n : Text) (d : ℕ)
    → filed_under (join_room name c password m).1.client_rooms d n ≡ (
        if admits m name password && c == d
        then text_beq name n
        else filed_under m.client_rooms d n)
unfolding join_room filed_under
filed_under-join m name c password n d = ground (arith, lookup-insert c d name m.client_rooms)

-- JoinRoom succeeds exactly when the room exists and is public or the password is right. Then the
-- client is a member of that room and of no other; if it fails, and for every other client in
-- either case, nothing changes.
pub join_room-member_of :
    (m : ChatRoomManager) (name : Text) (c : ℕ) (password : Text)
    → IsConsistent m
    → ((join_room name c password m).0 ≡ admits m name password)
      × ((n : Text) (d : ℕ)
          → member_of (join_room name c password m).1.rooms n d
            ≡ (if admits m name password && c == d then text_beq name n else member_of m.rooms n d))
join_room-member_of m name c password v = (
  unfold join_room in ground arith,
  λ n d.
      (join_room-IsConsistent m v name c password).placed n d
      ∙ filed_under-join m name c password n d
      ∙ ap (λ (b : Bool). if admits m name password && c == d then text_beq name n else b)
          (sym (v.placed n d)),
)

filed_under-leave :
    (m : ChatRoomManager) (c : ℕ) (n : Text) (d : ℕ)
    → filed_under (leave_room c m).client_rooms d n
      ≡ (not (c == d) && filed_under m.client_rooms d n)
unfolding leave_room filed_under
filed_under-leave m c n d = ground (arith, lookup-erase c d m.client_rooms)

-- After LeaveRoom the client is a member of no room, and every other client is where it was.
pub leave_room-member_of :
    (m : ChatRoomManager) (c : ℕ)
    → IsConsistent m
    → (n : Text) (d : ℕ)
    → member_of (leave_room c m).rooms n d ≡ (not (c == d) && member_of m.rooms n d)
leave_room-member_of m c v n d =
    (leave_room-IsConsistent m v c).placed n d
    ∙ filed_under-leave m c n d
    ∙ ap (λ (b : Bool). not (c == d) && b) (sym (v.placed n d))

-- What GetClientRoom answers: the room that has the client as a member, if there is one, and
-- otherwise "general". GetRoommates then lists the members of that same room.
pub get_client_room_lem :
    (m : ChatRoomManager) (c : ℕ)
    → IsConsistent m
    → ((n : Text) → member_of m.rooms n c ≡ true → get_client_room c m ≡ n)
      × (((n : Text) → member_of m.rooms n c ≡ false) → get_client_room c m ≡ general)
      × (get_roommates c m ≡ get_room_members (get_client_room c m) m)
unfolding get_client_room get_roommates filed_under
get_client_room_lem m c v = elim (Option-cases (lookup c m.client_rooms)) [
  | inl e ↦ (
    λ n h. absurd (ground (arith, v.placed n c, e, h)),
    λ _. ground (arith, e),
    ground (arith, e),
  )
  | inr (x, e) ↦ (
    λ n h. ground (arith, v.placed n c, e, h, text_beq_iff x n),
    λ h. absurd (ground (arith, v.placed x c, h x, e, text_beq_iff x x)),
    ground (arith, e),
  )
]
