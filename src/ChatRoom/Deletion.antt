-- ===== src/ChatRoom/Deletion.antt =====
-- DeleteRoom: the loop that moves the members to "general", and the invariant after it.
use multi_threaded_tcp_chat.Base.{
  ℕ, Bool, true, false, not, ◌&&◌, ◌||◌, none, some, List, [], ◌∷◌, ◌≡◌, ◌∙◌, arith, ap, ◌==◌,
  nat_eq, text_eq, text_beq, if◌then◌else◌, is_some, Option-cases, Bool-cases, inl, inr,
}
use multi_threaded_tcp_chat.Base.Eq.{text_beq_iff}
use multi_threaded_tcp_chat.Base.Text.{Text}
use multi_threaded_tcp_chat.Base.Map.{Map, lookup, erase, lookup-insert, lookup-erase}
use multi_threaded_tcp_chat.Base.Set.{contains}
use multi_threaded_tcp_chat.ChatRoom.{
  Room, ChatRoomManager, general, add_member, move_to_general, move_all_to_general, delete_room,
  room_exists,
}
use multi_threaded_tcp_chat.ChatRoom.Members.{
  member_of, filed_under, member_of-add_member, SameRooms, add_member-SameRoom, SameRooms-trans,
  SameRooms-refl, SameRooms-general, SameRooms-named,
}
use multi_threaded_tcp_chat.ChatRoom.Invariant.{IsConsistent, is_some-witness}

abbrev HasGeneral : ChatRoomManager → Type 0
HasGeneral m = is_some (lookup general m.rooms) ≡ true

-- While "general" is there, one round of the loop is an `add_member` and a new entry.
move_to_general-rooms :
    (now c : ℕ) (m : ChatRoomManager)
    → HasGeneral m
    → (move_to_general now c m).rooms ≡ add_member general c m.rooms
unfolding move_to_general add_member
move_to_general-rooms now c m h =
    let (g, e) = is_some-witness (lookup general m.rooms) h in
    rw (e, add_member, move_to_general) (ground arith)

move_to_general-HasGeneral :
    (now c : ℕ) (m : ChatRoomManager) → HasGeneral m → HasGeneral (move_to_general now c m)
move_to_general-HasGeneral now c m h =
    rw (move_to_general-rooms now c m h) ((add_member-SameRoom general general c m.rooms).0 ∙ h)

-- The loop adds its clients to "general" and leaves all other members alone.
member_of-move_all :
    (now : ℕ) (cs : List ℕ) (m : ChatRoomManager)
    → HasGeneral m
    → (n : Text) (d : ℕ)
    → member_of (move_all_to_general now cs m).rooms n d
      ≡ ((text_beq general n && contains d cs) || member_of m.rooms n d)
unfolding move_all_to_general contains
member_of-move_all now [] m h n d = ground arith
member_of-move_all now (c ∷ cs) m h n d =
    let (g, e) = is_some-witness (lookup general m.rooms) h in
    ground (
      arith,
      member_of-move_all now cs (move_to_general now c m) (move_to_general-HasGeneral now c m h) n
          d,
      ap (λ (t : Map Text Room). member_of t n d) (move_to_general-rooms now c m h),
      member_of-add_member general n c d m.rooms g e,
    )

filed_under-move_all :
    (now : ℕ) (cs : List ℕ) (m : ChatRoomManager)
    → (n : Text) (d : ℕ)
    → filed_under (move_all_to_general now cs m).client_rooms d n
      ≡ (if contains d cs then text_beq general n else filed_under m.client_rooms d n)
unfolding move_all_to_general move_to_general contains filed_under
filed_under-move_all now [] m n d = ground arith
filed_under-move_all now (c ∷ cs) m n d = ground (
  arith,
  filed_under-move_all now cs (move_to_general now c m) n d,
  lookup-insert c d general m.client_rooms,
)

SameRooms-move_all :
    (now : ℕ) (cs : List ℕ) (m : ChatRoomManager)
    → HasGeneral m
    → SameRooms (move_all_to_general now cs m).rooms m.rooms
unfolding move_all_to_general
SameRooms-move_all now [] m h = SameRooms-refl m.rooms
SameRooms-move_all now (c ∷ cs) m h =
    let next = move_to_general now c m in
    SameRooms-trans _ next.rooms m.rooms
      (SameRooms-move_all now cs next (move_to_general-HasGeneral now c m h))
      (rw (move_to_general-rooms now c m h) (λ n. add_member-SameRoom general n c m.rooms))

member_of-erase :
    (a n : Text) (d : ℕ) (rooms : Map Text Room)
    → member_of (erase a rooms) n d ≡ (not (text_beq a n) && member_of rooms n d)
unfolding member_of
member_of-erase a n d rooms = ground (arith, lookup-erase a n rooms)

member_of_lem :
    (n : Text) (d : ℕ) (rooms : Map Text Room) (r : Room)
    → lookup n rooms ≡ some r
    → member_of rooms n d ≡ contains d r.members
unfolding member_of
member_of_lem n d rooms r e = ground (arith, e)

pub filed_under_once :
    (a n : Text) (d : ℕ) (cr : Map ℕ Text)
    → filed_under cr d a ≡ true
    → filed_under cr d n ≡ text_beq a n
unfolding filed_under
filed_under_once a n d cr h = elim (Option-cases (lookup d cr)) [
  | inl e ↦ absurd (ground (arith, e, h))
  | inr (x, e) ↦ ground (arith, e, h, text_beq_iff x a)
]

module _ (m : ChatRoomManager) (v : IsConsistent m) where
  HasGeneral-IsConsistent : HasGeneral m
  unfolding room_exists
  HasGeneral-IsConsistent = v.has_general

  deleted-placed :
      (now : ℕ) (name : Text) (r : Room)
      → lookup name m.rooms ≡ some r
      → text_beq name general ≡ false
      → (n : Text) (d : ℕ)
      → let moved = move_all_to_general now r.members m in
        member_of (erase name moved.rooms) n d ≡ filed_under moved.client_rooms d n
  deleted-placed now name r e ne n d =
      let moved = move_all_to_general now r.members m in
      rw (member_of-erase name n d moved.rooms) (
        ground (
          arith,
          member_of-move_all now r.members m HasGeneral-IsConsistent n d,
          filed_under-move_all now r.members m n d,
          v.placed n d,
          v.placed name d,
          member_of_lem name d m.rooms r e,
          filed_under_once name n d m.client_rooms,
          text_beq_iff name n,
          text_beq_iff name general,
          text_beq_iff general n,
        ))

  deleted-IsConsistent :
      (now : ℕ) (name : Text) (r : Room)
      → lookup name m.rooms ≡ some r
      → text_beq name general ≡ false
      → let moved = move_all_to_general now r.members m in
        IsConsistent (record moved { rooms = erase name moved.rooms })
  unfolding room_exists
  deleted-IsConsistent now name r e ne =
      let moved = move_all_to_general now r.members m in
      let same : SameRooms moved.rooms m.rooms =
        SameRooms-move_all now r.members m HasGeneral-IsConsistent in
      record {
        placed = deleted-placed now name r e ne;
        has_general =
            rw (lookup-erase name general moved.rooms, ne)
              (SameRooms-general moved.rooms m.rooms same v.has_general);
        named = λ n s h.
            SameRooms-named moved.rooms m.rooms same v.named n s
              (ground (arith, lookup-erase name n moved.rooms, h));
      }

  pub delete_room-IsConsistent :
      (name : Text) (requester now : ℕ) → IsConsistent (delete_room name requester now m).1
  unfolding delete_room
  delete_room-IsConsistent name requester now = elim (Bool-cases (text_beq name general)) [
    | inl f ↦ rw f v
    | inr f ↦ rw f (elim (Option-cases (lookup name m.rooms)) [
      | inl e ↦ rw e v
      | inr (r, e) ↦
          rw e (elim (Bool-cases (not (r.owner_id == requester) && not (requester == 0))) [
            | inl g ↦ rw g v
            | inr g ↦ rw g (deleted-IsConsistent now name r e f)
          ])
    ])
  ]

-- The guard of DeleteRoom: not "general", the room exists, and the requester owns it or has id 0.
abbrev pub may_delete : ChatRoomManager → Text → ℕ → Bool
may_delete m name requester = not (text_beq name general) && elim (lookup name m.rooms) [
  | none ↦ false
  | some r ↦ r.owner_id == requester || requester == 0
]

member_of-deleted :
    (m : ChatRoomManager) (name : Text) (requester now : ℕ)
    → HasGeneral m
    → (n : Text) (d : ℕ)
    → member_of (delete_room name requester now m).1.rooms n d ≡ (
        if may_delete m name requester
        then not (text_beq name n)
          && (text_beq general n && member_of m.rooms name d || member_of m.rooms n d)
        else member_of m.rooms n d)
unfolding delete_room
member_of-deleted m name requester now h n d = elim (Option-cases (lookup name m.rooms)) [
  | inl e ↦ rw e (ground arith)
  | inr (r, e) ↦ rw e (
      ground (
        arith,
        member_of-erase name n d (move_all_to_general now r.members m).rooms,
        member_of-move_all now r.members m h n d,
        member_of_lem name d m.rooms r e,
      ))
]

-- DeleteRoom succeeds exactly when the room is not "general", exists, and is asked for by its owner
-- or by id 0. Then the room has no members, each client that was in it is in "general", and every
-- other membership stays; if it fails, every membership stays.
pub delete_room-member_of :
    (m : ChatRoomManager) (name : Text) (requester now : ℕ)
    → IsConsistent m
    → ((delete_room name requester now m).0 ≡ may_delete m name requester)
      × ((n : Text) (d : ℕ)
          → member_of (delete_room name requester now m).1.rooms n d ≡ (
              if may_delete m name requester
              then not (text_beq name n)
                && (text_beq general n && member_of m.rooms name d || member_of m.rooms n d)
              else member_of m.rooms n d))
delete_room-member_of m name requester now v = (
  unfold delete_room in ground arith,
  member_of-deleted m name requester now (HasGeneral-IsConsistent m v),
)
