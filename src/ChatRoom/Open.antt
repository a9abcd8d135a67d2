-- ===== src/ChatRoom/Open.antt =====
-- The room "general" stays open to everybody, whatever is called.
use multi_threaded_tcp_chat.Base.{
  ℕ, ◌≡◌, refl, ◌∙◌, Bool, true, false, not, ◌&&◌, Option, none, some, List, [], ◌∷◌, arith, nat_eq,
  text_eq, Option-cases, Bool-cases, inl, inr,
}
use multi_threaded_tcp_chat.Base.Eq.{text_beq, text_beq_iff}
use multi_threaded_tcp_chat.Base.Text.{Text, text}
use multi_threaded_tcp_chat.Base.Map.{lookup, lookup-insert, lookup-erase}
use multi_threaded_tcp_chat.Base.Set.{add, remove}
use multi_threaded_tcp_chat.ChatRoom.{
  Room, ChatRoomManager, general, new_room, init, add_member, leave_current, create_room,
  delete_room, join_room, leave_room, set_topic, move_to_general, move_all_to_general,
}
use multi_threaded_tcp_chat.ChatRoom.Edits.{edit, lookup-edit_at, drop_member-edit, lookup-drop-add}
use multi_threaded_tcp_chat.ChatRoom.Moves.{admits}
use multi_threaded_tcp_chat.ChatRoom.Reach.{
  Call, create, delete, join, leave, topic, apply, Reach, start, next,
}

-- There is a room, and it asks for no password.
abbrev is_open : Option Room → Bool
is_open none = false
is_open (some r) = not r.is_private

open-edit : (f : List ℕ → List ℕ) (o : Option Room) → is_open (edit f o) ≡ is_open o
open-edit f none = refl
open-edit f (some r) = refl

-- "general" is open.
abbrev IsOpen : ChatRoomManager → Type 0
IsOpen m = is_open (lookup general m.rooms) ≡ true

module _ (m : ChatRoomManager) (v : IsOpen m) where
  create_room-IsOpen :
      (name : Text) (owner : ℕ) (is_private : Bool) (password : Text) (now : ℕ)
      → IsOpen (create_room name owner is_private password now m).1
  unfolding create_room
  create_room-IsOpen name owner is_private password now =
      elim (Option-cases (lookup name m.rooms)) [
        | inr (r, e) ↦ rw (e, create_room) v
        | inl e ↦
            let room = record (new_room name owner now) {
              is_private = is_private;
              password = password;
            } in
            rw (e, create_room)
              (ground
                (arith, lookup-insert name general room m.rooms, text_beq_iff name general, v, e))
      ]

  join_room-IsOpen :
      (name : Text) (c : ℕ) (password : Text) → IsOpen (join_room name c password m).1
  unfolding join_room
  join_room-IsOpen name c password =
      let joined : is_open (lookup general (add_member name c (leave_current c m))) ≡ true =
        rw (lookup-drop-add m name general c) (open-edit _ (lookup general m.rooms) ∙ v) in
      elim (Option-cases (lookup name m.rooms)) [
        | inl e ↦ rw (e, join_room) v
        | inr (r, e) ↦
            rw (e, join_room)
              (elim (Bool-cases (r.is_private && not (text_beq r.password password))) [
                | inl f ↦ rw f v
                | inr f ↦ rw f joined
              ])
      ]

  leave_room-IsOpen : (c : ℕ) → IsOpen (leave_room c m)
  unfolding leave_room
  leave_room-IsOpen c = elim (Option-cases (lookup c m.client_rooms)) [
    | inl e ↦ rw (e, leave_room) v
    | inr (a, e) ↦
        rw
          (e, leave_room, drop_member-edit a c m.rooms, lookup-edit_at a general (remove c) m.rooms)
          (ground (arith, open-edit (remove c) (lookup general m.rooms), v))
  ]

  set_topic-IsOpen : (name t : Text) (requester : ℕ) → IsOpen (set_topic name t requester m).1
  unfolding set_topic
  set_topic-IsOpen name t requester = elim (Option-cases (lookup name m.rooms)) [
    | inl e ↦ rw (e, set_topic) v
    | inr (r, e) ↦ ground (
      arith,
      lookup-insert name general (record r { topic = t }) m.rooms,
      text_beq_iff name general,
      v,
      e,
    )
  ]

move_to_general-IsOpen :
    (now c : ℕ) (m : ChatRoomManager) → IsOpen m → IsOpen (move_to_general now c m)
unfolding move_to_general
move_to_general-IsOpen now c m v = elim (Option-cases (lookup general m.rooms)) [
  | inl e ↦ ground (arith, v, e)
  | inr (r, e) ↦ ground (
    arith,
    lookup-insert general general (record r { members = add c r.members }) m.rooms,
    text_beq_iff general general,
    v,
    e,
  )
]

move_all-IsOpen :
    (now : ℕ) (cs : List ℕ) (m : ChatRoomManager) → IsOpen m → IsOpen (move_all_to_general now cs m)
unfolding move_all_to_general
move_all-IsOpen now [] m v = v
move_all-IsOpen now (c ∷ cs) m v = move_all-IsOpen now cs _ (move_to_general-IsOpen now c m v)

delete_room-IsOpen :
    (m : ChatRoomManager)
    → IsOpen m
    → (name : Text) (requester now : ℕ) → IsOpen (delete_room name requester now m).1
unfolding delete_room
delete_room-IsOpen m v name requester now = elim (Option-cases (lookup name m.rooms)) [
  | inl e ↦ ground (arith, v, e)
  | inr (r, e) ↦ ground (
    arith,
    v,
    e,
    move_all-IsOpen now r.members m v,
    lookup-erase name general (move_all_to_general now r.members m).rooms,
  )
]

apply-IsOpen : (k : Call) (m : ChatRoomManager) → IsOpen m → IsOpen (apply k m)
unfolding apply
apply-IsOpen (create name owner is_private password now) m v =
    create_room-IsOpen m v name owner is_private password now
apply-IsOpen (delete name requester now) m v = delete_room-IsOpen m v name requester now
apply-IsOpen (join name client password) m v = join_room-IsOpen m v name client password
apply-IsOpen (leave client) m v = leave_room-IsOpen m v client
apply-IsOpen (topic name t requester) m v = set_topic-IsOpen m v name t requester

stays-IsOpen : {m : ChatRoomManager} → Reach m → IsOpen m
unfolding init new_room lookup text text_beq
stays-IsOpen (start now) = refl
stays-IsOpen (next c m r) = apply-IsOpen c m (stays-IsOpen r)

-- In every reachable state "general" takes whoever joins it, with any password.
pub general-admits :
    {m : ChatRoomManager} (password : Text) → Reach m → admits m general password ≡ true
general-admits {m} password r = elim (Option-cases (lookup general m.rooms)) [
  | inl e ↦ ground (arith, stays-IsOpen r, e)
  | inr (g, e) ↦ ground (arith, stays-IsOpen r, e)
]
