-- ===== src/ChatRoom/Unordered/Operations.antt =====
-- Each method of chat_room.cpp does the same to two states that differ in the order of their tables.
use multi_threaded_tcp_chat.Base.{
  ℕ, ◌≡◌, refl, ap, sym, ◌∙◌, Bool, not, ◌&&◌, ◌==◌, nat_eq, text_eq, arith, Bool-cases,
  Option-cases, inl, inr,
}
use multi_threaded_tcp_chat.Base.Text.{Text}
use multi_threaded_tcp_chat.Base.Map.{Map, lookup, insert, erase, lookup-insert, lookup-erase}
use multi_threaded_tcp_chat.ChatRoom.{
  Room, ChatRoomManager, create_room, join_room, leave_room, set_topic, drop_member, add_member,
  leave_current,
}
use multi_threaded_tcp_chat.ChatRoom.Unordered.Tables.{
  SameItems-add, SameItems-remove, SameContents, SameContents-refl, with_members, SameEntry-cases,
  SameRooms, SameRooms-insert,
}

-- The same rooms, and the same room for each client.
pub record SameTables (m n : ChatRoomManager) : Type 0 where
  pub rooms : SameRooms m.rooms n.rooms
  pub filed : (c : ℕ) → lookup c m.client_rooms ≡ lookup c n.client_rooms

drop_member-SameRooms :
    (a : Text) (c : ℕ) (rooms others : Map Text Room)
    → SameRooms rooms others
    → SameRooms (drop_member a c rooms) (drop_member a c others)
unfolding drop_member
drop_member-SameRooms a c rooms others h =
    elim (SameEntry-cases (lookup a rooms) (lookup a others) (h a)) [
      | inl (e, f) ↦ rw (e, f, drop_member) h
      | inr (r, s, e, f, same) ↦
          rw (e, f, drop_member)
            (SameRooms-insert a _ _ rooms others
              (with_members r s _ _ same (SameItems-remove c r.members s.members same.members)) h)
    ]

pub add_member-SameRooms :
    (a : Text) (c : ℕ) (rooms others : Map Text Room)
    → SameRooms rooms others
    → SameRooms (add_member a c rooms) (add_member a c others)
unfolding add_member
add_member-SameRooms a c rooms others h =
    elim (SameEntry-cases (lookup a rooms) (lookup a others) (h a)) [
      | inl (e, f) ↦ rw (e, f, add_member) h
      | inr (r, s, e, f, same) ↦
          rw (e, f, add_member)
            (SameRooms-insert a _ _ rooms others
              (with_members r s _ _ same (SameItems-add c r.members s.members same.members)) h)
    ]

leave_current-SameRooms :
    (c : ℕ) (m n : ChatRoomManager)
    → SameTables m n
    → SameRooms (leave_current c m) (leave_current c n)
unfolding leave_current
leave_current-SameRooms c m n h = elim (Option-cases (lookup c n.client_rooms)) [
  | inl e ↦ rw (h.filed c, e, leave_current) h.rooms
  | inr (a, e) ↦
      rw (h.filed c, e, leave_current) (drop_member-SameRooms a c m.rooms n.rooms h.rooms)
]

insert-filed :
    (c : ℕ) (a : Text) (m n : Map ℕ Text)
    → ((d : ℕ) → lookup d m ≡ lookup d n)
    → (d : ℕ) → lookup d (insert c a m) ≡ lookup d (insert c a n)
insert-filed c a m n h d = ground (arith, lookup-insert c d a m, lookup-insert c d a n, h d)

erase-filed :
    (c : ℕ) (m n : Map ℕ Text)
    → ((d : ℕ) → lookup d m ≡ lookup d n)
    → (d : ℕ) → lookup d (erase c m) ≡ lookup d (erase c n)
erase-filed c m n h d = ground (arith, lookup-erase c d m, lookup-erase c d n, h d)

module _ (m n : ChatRoomManager) (h : SameTables m n) where
  pub create_room-SameTables :
      (name : Text) (owner_id : ℕ) (is_private : Bool) (password : Text) (now : ℕ)
      → ((create_room name owner_id is_private password now m).0
          ≡ (create_room name owner_id is_private password now n).0)
        × SameTables
            (create_room name owner_id is_private password now m).1
            (create_room name owner_id is_private password now n).1
  unfolding create_room
  create_room-SameTables name owner_id is_private password now =
      elim (SameEntry-cases (lookup name m.rooms) (lookup name n.rooms) (h.rooms name)) [
        | inl (e, f) ↦
            rw (e, f, create_room)
              (
                refl,
                record {
                  rooms = SameRooms-insert name _ _ m.rooms n.rooms (SameContents-refl _) h.rooms;
                  filed = h.filed;
                },
              )
        | inr (r, s, e, f, same) ↦ rw (e, f, create_room) (refl, h)
      ]

  pub join_room-SameTables :
      (name : Text) (client_id : ℕ) (password : Text)
      → ((join_room name client_id password m).0 ≡ (join_room name client_id password n).0)
        × SameTables (join_room name client_id password m).1 (join_room name client_id password n).1
  unfolding join_room
  join_room-SameTables name client_id password =
      elim (SameEntry-cases (lookup name m.rooms) (lookup name n.rooms) (h.rooms name)) [
        | inl (e, f) ↦ rw (e, f, join_room) (refl, h)
        | inr (r, s, e, f, same) ↦
            rw (e, f, same.is_private, same.password, join_room)
              (elim (Bool-cases (s.is_private && not (s.password == password))) [
                | inl away ↦ rw away (refl, h)
                | inr here ↦ rw here (
                  refl,
                  record {
                    rooms =
                        add_member-SameRooms name client_id _ _
                          (leave_current-SameRooms client_id m n h);
                    filed = insert-filed client_id name m.client_rooms n.client_rooms h.filed;
                  },
                )
              ])
      ]

  pub leave_room-SameTables :
      (client_id : ℕ) → SameTables (leave_room client_id m) (leave_room client_id n)
  unfolding leave_room
  leave_room-SameTables client_id = elim (Option-cases (lookup client_id n.client_rooms)) [
    | inl e ↦ rw (h.filed client_id, e, leave_room) h
    | inr (a, e) ↦
        rw (h.filed client_id, e, leave_room)
          (record {
            rooms = drop_member-SameRooms a client_id m.rooms n.rooms h.rooms;
            filed = erase-filed client_id m.client_rooms n.client_rooms h.filed;
          })
  ]

  pub set_topic-SameTables :
      (room_name topic : Text) (requester_id : ℕ)
      → ((set_topic room_name topic requester_id m).0
          ≡ (set_topic room_name topic requester_id n).0)
        × SameTables
            (set_topic room_name topic requester_id m).1
            (set_topic room_name topic requester_id n).1
  unfolding set_topic
  set_topic-SameTables room_name topic requester_id =
      elim (SameEntry-cases (lookup room_name m.rooms) (lookup room_name n.rooms)
        (h.rooms room_name)) [
          | inl (e, f) ↦ rw (e, f, set_topic) (refl, h)
          | inr (r, s, e, f, same) ↦
              let agrees =
                ap (λ (o : ℕ). not (o == requester_id) && not (requester_id == 0))
                  (sym same.owner_id) in
              rw (e, f, set_topic)
                (elim (Bool-cases (not (r.owner_id == requester_id) && not (requester_id == 0))) [
                  | inl away ↦ rw (away, agrees ∙ away) (refl, h)
                  | inr here ↦
                      rw (here, agrees ∙ here)
                        (
                          refl,
                          record {
                            rooms =
                                SameRooms-insert room_name _ _ m.rooms n.rooms
                                  (with_topic r s topic same) h.rooms;
                            filed = h.filed;
                          },
                        )
                ])
        ]
    where
      with_topic :
          (r s : Room) (t : Text)
          → SameContents r s
          → SameContents (record r { topic = t }) (record s { topic = t })
      with_topic r s t same = record {
        name = same.name;
        topic = refl;
        members = same.members;
        owner_id = same.owner_id;
        created_at = same.created_at;
        is_private = same.is_private;
        password = same.password;
      }
