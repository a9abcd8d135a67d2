-- ===== src/ChatRoom/Invariant.antt =====
-- The two tables of chat_room.cpp agree: a client is a member of a room exactly when it is filed
-- under that room, "general" is always there, and a room is filed under its own name.
use multi_threaded_tcp_chat.Base.{
  ℕ, Bool, true, not, ◌&&◌, Option, none, some, ◌≡◌, refl, ◌∙◌, arith, ap, ◌==◌, nat_eq, text_eq,
  text_beq, is_some, Option-cases, Bool-cases, inl, inr,
}
use multi_threaded_tcp_chat.Base.Eq.{text_beq_iff}
use multi_threaded_tcp_chat.Base.Text.{Text}
use multi_threaded_tcp_chat.Base.Map.{lookup, insert, lookup-insert, lookup-erase}
use multi_threaded_tcp_chat.Base.Set.{contains}
use multi_threaded_tcp_chat.ChatRoom.{
  Room, ChatRoomManager, general, init, new_room, drop_member, add_member, leave_current, join_room,
  leave_room, create_room, set_topic, room_exists,
}
use multi_threaded_tcp_chat.ChatRoom.Members.{
  member_of, filed_under, member_of-drop_member, member_of-add_member, SameRooms,
  drop_member-SameRoom, add_member-SameRoom, SameRooms-trans, leave_current-SameRooms,
  SameRooms-general, SameRooms-named,
}

pub record IsConsistent (m : ChatRoomManager) : Type 0 where
  pub placed : (n : Text) (c : ℕ) → member_of m.rooms n c ≡ filed_under m.client_rooms c n
  pub has_general : room_exists general m ≡ true
  pub named : (n : Text) (r : Room) → lookup n m.rooms ≡ some r → r.name ≡ n

pub is_some-witness {ℓ} : {A : Type ℓ} (o : Option A) → is_some o ≡ true → (a : A) × (o ≡ some a)
is_some-witness none h = cc
is_some-witness (some a) h = (a, refl)

module _ (m : ChatRoomManager) (v : IsConsistent m) where
  -- After the client has left its room it is in none, and everybody else is where they were.
  member_of-leave_current :
      (c : ℕ) (n : Text) (d : ℕ)
      → member_of (leave_current c m) n d ≡ (not (c == d) && filed_under m.client_rooms d n)
  unfolding leave_current filed_under
  member_of-leave_current c n d = elim (Option-cases (lookup c m.client_rooms)) [
    | inl e ↦ rw (e, leave_current) (ground (arith, v.placed n d, e))
    | inr (a, e) ↦
        rw (e, leave_current)
          (ground (arith, member_of-drop_member a n c d m.rooms, v.placed n d, e, text_beq_iff a n))
  ]

  pub leave_room-IsConsistent : (c : ℕ) → IsConsistent (leave_room c m)
  unfolding leave_room filed_under room_exists
  leave_room-IsConsistent c = elim (Option-cases (lookup c m.client_rooms)) [
    | inl e ↦ rw (e, leave_room) v
    | inr (a, e) ↦
        rw (e, leave_room)
          (let same : SameRooms (drop_member a c m.rooms) m.rooms =
              λ n. drop_member-SameRoom a n c m.rooms in
            record {
              placed = λ n d. ground (
                arith,
                member_of-drop_member a n c d m.rooms,
                lookup-erase c d m.client_rooms,
                v.placed n d,
                text_beq_iff a n,
                e,
              );
              has_general = SameRooms-general _ m.rooms same v.has_general;
              named = SameRooms-named _ m.rooms same v.named;
            })
  ]

  join_rooms-IsConsistent :
      (a : Text) (c : ℕ) (r : Room)
      → lookup a m.rooms ≡ some r
      → IsConsistent (record {
        rooms = add_member a c (leave_current c m);
        client_rooms = insert c a m.client_rooms;
      })
  unfolding filed_under room_exists
  join_rooms-IsConsistent a c r e =
      let left = leave_current c m in
      let same : SameRooms (add_member a c left) m.rooms =
        SameRooms-trans _ left m.rooms (λ n. add_member-SameRoom a n c left)
          (leave_current-SameRooms c m) in
      record {
        placed = λ n d.
            let (s, f) : (s : Room) × (lookup a left ≡ some s) =
              is_some-witness _ ((leave_current-SameRooms c m a).0 ∙ ap is_some e) in
            ground (
              arith,
              member_of-add_member a n c d left s f,
              member_of-leave_current c n d,
              lookup-insert c d a m.client_rooms,
            );
        has_general = SameRooms-general _ m.rooms same v.has_general;
        named = SameRooms-named _ m.rooms same v.named;
      }

  pub join_room-IsConsistent :
      (a : Text) (c : ℕ) (password : Text) → IsConsistent (join_room a c password m).1
  unfolding join_room
  join_room-IsConsistent a c password = elim (Option-cases (lookup a m.rooms)) [
    | inl e ↦ rw (e, join_room) v
    | inr (r, e) ↦
        rw (e, join_room)
          (elim (Bool-cases (r.is_private && not (text_beq r.password password))) [
            | inl f ↦ rw f v
            | inr f ↦ rw f (join_rooms-IsConsistent a c r e)
          ])
  ]

  pub create_room-IsConsistent :
      (name : Text) (owner : ℕ) (is_private : Bool) (password : Text) (now : ℕ)
      → IsConsistent (create_room name owner is_private password now m).1
  unfolding create_room filed_under room_exists member_of contains
  create_room-IsConsistent name owner is_private password now =
      elim (Option-cases (lookup name m.rooms)) [
        | inr (r, e) ↦ rw (e, create_room) v
        | inl e ↦
            let room : Room = record (new_room name owner now) {
              is_private = is_private;
              password = password;
            } in
            rw (e, create_room)
              (record {
                placed = λ n d. ground (
                  arith,
                  lookup-insert name n room m.rooms,
                  v.placed n d,
                  e,
                  text_beq_iff name n,
                );
                has_general =
                    ground (arith, lookup-insert name general room m.rooms, v.has_general);
                named = λ n s h.
                    ground (
                      arith,
                      lookup-insert name n room m.rooms,
                      v.named n s,
                      h,
                      text_beq_iff name n,
                    );
              })
      ]

  titled-IsConsistent :
      (name topic : Text) (r : Room)
      → lookup name m.rooms ≡ some r
      → IsConsistent (record m { rooms = insert name (record r { topic = topic }) m.rooms })
  unfolding room_exists member_of
  titled-IsConsistent name topic r e =
      let room : Room = record r { topic = topic } in
      record {
        placed = λ n d.
            ground (arith, lookup-insert name n room m.rooms, v.placed n d, e, text_beq_iff name n);
        has_general = ground (arith, lookup-insert name general room m.rooms, v.has_general);
        named = λ n s h. ground (
          arith,
          lookup-insert name n room m.rooms,
          v.named n s,
          v.named name r e,
          h,
          text_beq_iff name n,
        );
      }

  pub set_topic-IsConsistent :
      (name topic : Text) (requester : ℕ) → IsConsistent (set_topic name topic requester m).1
  unfolding set_topic
  set_topic-IsConsistent name topic requester = elim (Option-cases (lookup name m.rooms)) [
    | inl e ↦ rw (e, set_topic) v
    | inr (r, e) ↦
        rw (e, set_topic)
          (elim (Bool-cases (not (r.owner_id == requester) && not (requester == 0))) [
            | inl f ↦ rw f v
            | inr f ↦ rw f (titled-IsConsistent name topic r e)
          ])
  ]

pub init-IsConsistent : (now : ℕ) → IsConsistent (init now)
unfolding init filed_under room_exists member_of contains lookup
init-IsConsistent now = record {
  placed = λ n d. ground arith;
  has_general = ground (arith, text_beq_iff general general);
  named = λ n r h. ground (arith, text_beq_iff general n, h);
}
