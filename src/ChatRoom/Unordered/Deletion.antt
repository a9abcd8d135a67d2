-- ===== src/ChatRoom/Unordered/Deletion.antt =====
-- DeleteRoom empties a room in the order of its members, which does not show in the result.
use multi_threaded_tcp_chat.Base.{
  ℕ, ◌≡◌, refl, ap, sym, ◌∙◌, not, ◌&&◌, Option, none, some, List, [], ◌∷◌, if◌then◌else◌, ltb,
  ◌==◌, nat_eq, text_eq, arith, Bool-cases, inl, inr,
}
use multi_threaded_tcp_chat.Base.Text.{Text}
use multi_threaded_tcp_chat.Base.Counting.{SameItems, count}
use multi_threaded_tcp_chat.Base.Map.{lookup, lookup_or, lookup-insert, lookup-insert_self}
use multi_threaded_tcp_chat.Base.Set.{add}
use multi_threaded_tcp_chat.ChatRoom.{
  Room, ChatRoomManager, new_room, general, move_to_general, move_all_to_general, delete_room,
}
use multi_threaded_tcp_chat.ChatRoom.Unordered.Tables.{
  count-add, SameContents, SameContents-refl, with_members, SameEntry, SameEntry-cases,
  SameEntry-if, SameRooms-erase,
}
use multi_threaded_tcp_chat.ChatRoom.Unordered.Operations.{SameTables}

-- The members that the loop has put into "general".
add_all : List ℕ → List ℕ → List ℕ
add_all [] xs = xs
add_all (c ∷ cs) xs = add_all cs (add c xs)

count-add_all :
    (b : ℕ) (cs xs : List ℕ)
    → count b (add_all cs xs)
      ≡ (if ltb 0 (count b xs) then count b xs else if ltb 0 (count b cs) then 1 else 0)
unfolding add_all
count-add_all b [] xs = ground arith
count-add_all b (c ∷ cs) xs = ground (arith, count-add_all b cs (add c xs), count-add c b xs)

-- The room that the loop changes.
abbrev target : ℕ → ChatRoomManager → Room
target now m = lookup_or (new_room [] 0 now) general m.rooms

moved_rooms :
    (now c : ℕ) (cs : List ℕ) (m : ChatRoomManager) (k : Text)
    → lookup k (move_all_to_general now (c ∷ cs) m).rooms ≡ (
        if general == k
        then some (record (target now m) { members = add_all (c ∷ cs) (target now m).members })
        else lookup k m.rooms)
unfolding move_all_to_general move_to_general add_all
moved_rooms now c [] m k =
    lookup-insert general k (record (target now m) { members = add c (target now m).members })
      m.rooms
moved_rooms now c (d ∷ cs) m k =
    let once = move_to_general now c m in
    let first = record (target now m) { members = add c (target now m).members } in
    let same : target now once ≡ first =
      ap (λ (o : Option Room). elim o [ none ↦ new_room [] 0 now | some r ↦ r ])
        (lookup-insert_self general first m.rooms) in
    elim (Bool-cases (general == k)) [
      | inl here ↦ moved_rooms now d cs once k ∙ rw (here, same) refl
      | inr there ↦
          moved_rooms now d cs once k
          ∙ rw there (lookup-insert general k first m.rooms ∙ rw there refl)
    ]

moved_clients :
    (now : ℕ) (cs : List ℕ) (m : ChatRoomManager) (d : ℕ)
    → lookup d (move_all_to_general now cs m).client_rooms
      ≡ (if ltb 0 (count d cs) then some general else lookup d m.client_rooms)
unfolding move_all_to_general move_to_general
moved_clients now [] m d = refl
moved_clients now (c ∷ cs) m d = ground (
  arith,
  moved_clients now cs (move_to_general now c m) d,
  lookup-insert c d general m.client_rooms,
)

or_new-SameContents :
    (d : Room) (o p : Option Room)
    → SameEntry o p
    → SameContents (elim o [ none ↦ d | some r ↦ r ]) (elim p [ none ↦ d | some s ↦ s ])
or_new-SameContents d none none h = SameContents-refl d
or_new-SameContents d none (some s) h = absurd h
or_new-SameContents d (some r) none h = absurd h
or_new-SameContents d (some r) (some s) h = h

module _ (m n : ChatRoomManager) (h : SameTables m n) where
  target-SameContents : (now : ℕ) → SameContents (target now m) (target now n)
  target-SameContents now =
      or_new-SameContents (new_room [] 0 now) (lookup general m.rooms) (lookup general n.rooms)
        (h.rooms general)

  moved-SameTables :
      (now : ℕ) (cs ds : List ℕ)
      → SameItems cs ds
      → SameTables (move_all_to_general now cs m) (move_all_to_general now ds n)
  moved-SameTables now [] [] same =
      unfold move_all_to_general in record { rooms = h.rooms; filed = h.filed }
  moved-SameTables now [] (d ∷ ds) same = absurd (ground (arith, same d))
  moved-SameTables now (c ∷ cs) [] same = absurd (ground (arith, same c))
  moved-SameTables now (c ∷ cs) (d ∷ ds) same = record {
    rooms = λ k.
        rw (moved_rooms now c cs m k, moved_rooms now d ds n k)
          (SameEntry-if (general == k) _ _ (lookup k m.rooms) (lookup k n.rooms)
            (with_members (target now m) (target now n) _ _ (target-SameContents now) grown)
            (h.rooms k));
    filed = λ e.
        ground (
          arith,
          moved_clients now (c ∷ cs) m e,
          moved_clients now (d ∷ ds) n e,
          same e,
          h.filed e,
        );
  }
    where
      grown :
          SameItems
            (add_all (c ∷ cs) (target now m).members)
            (add_all (d ∷ ds) (target now n).members)
      grown b = ground (
        arith,
        count-add_all b (c ∷ cs) (target now m).members,
        count-add_all b (d ∷ ds) (target now n).members,
        (target-SameContents now).members b,
        same b,
      )

  pub delete_room-SameTables :
      (name : Text) (requester_id now : ℕ)
      → ((delete_room name requester_id now m).0 ≡ (delete_room name requester_id now n).0)
        × SameTables (delete_room name requester_id now m).1 (delete_room name requester_id now n).1
  unfolding delete_room
  delete_room-SameTables name requester_id now = elim (Bool-cases (name == general)) [
    | inl kept ↦ rw kept (refl, h)
    | inr other ↦
        rw other
          (elim (SameEntry-cases (lookup name m.rooms) (lookup name n.rooms) (h.rooms name)) [
            | inl (e, f) ↦ rw (e, f) (refl, h)
            | inr (r, s, e, f, same) ↦
                let agrees =
                  ap (λ (o : ℕ). not (o == requester_id) && not (requester_id == 0))
                    (sym same.owner_id) in
                rw (e, f)
                  (elim (Bool-cases (not (r.owner_id == requester_id) && not (requester_id == 0))) [
                    | inl away ↦ rw (away, agrees ∙ away) (refl, h)
                    | inr here ↦
                        let moved = moved-SameTables now r.members s.members same.members in
                        rw (here, agrees ∙ here)
                          (
                            refl,
                            record {
                              rooms = SameRooms-erase name _ _ moved.rooms;
                              filed = moved.filed;
                            },
                          )
                  ])
          ])
  ]
