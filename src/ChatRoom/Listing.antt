-- ===== src/ChatRoom/Listing.antt =====
-- ListRooms and GetRoomInfo of chat_room.cpp. std::sort orders std::string by its bytes.
use multi_threaded_tcp_chat.Base.{
  ℕ, Bool, true, false, not, ◌&&◌, ◌||◌, none, some, List, [], ◌∷◌, ◌++◌, ◌≡◌, refl, ◌∙◌, arith,
  ◌==◌, nat_eq, text_eq, text_beq, if◌then◌else◌, ltb, length, Option-cases, inl, inr,
}
use multi_threaded_tcp_chat.Base.Eq.{text_beq_iff}
use multi_threaded_tcp_chat.Base.Text.{Text, text, to_string}
use multi_threaded_tcp_chat.Base.Map.{Map, lookup, Distinct, insert-Distinct, erase-Distinct}
use multi_threaded_tcp_chat.Base.Set.{contains}
use multi_threaded_tcp_chat.ChatRoom.{
  Room, ChatRoomManager, init, new_room, create_room, delete_room, join_room, leave_room, set_topic,
  move_to_general, move_all_to_general, drop_member, add_member, leave_current,
}
use multi_threaded_tcp_chat.ChatRoom.Reach.{
  Call, create, delete, join, leave, topic, apply, Reach, start, next,
}

-- operator< on std::string
unfoldable pub text_lt : Text → Text → Bool
text_lt xs [] = false
text_lt [] (y ∷ ys) = true
text_lt (x ∷ xs) (y ∷ ys) = ltb x y || x == y && text_lt xs ys

-- std::sort; which algorithm it runs cannot be seen in its result on strings.
unfoldable pub insert_sorted : Text → List Text → List Text
insert_sorted x [] = x ∷ []
insert_sorted x (y ∷ ys) = if text_lt y x then y ∷ insert_sorted x ys else x ∷ y ∷ ys

unfoldable pub sort : List Text → List Text
unfolding insert_sorted
sort [] = []
sort (x ∷ xs) = insert_sorted x (sort xs)

-- The loop that collects the names of the rooms that are not private.
unfoldable pub public_names : Map Text Room → List Text
public_names [] = []
public_names ((name, room) ∷ rooms) =
    let rest = public_names rooms in if not room.is_private then name ∷ rest else rest

unfoldable pub list_rooms : ChatRoomManager → List Text
list_rooms m = sort (public_names m.rooms)

unfoldable pub get_room_info : Text → ChatRoomManager → Text
get_room_info name m = elim (lookup name m.rooms) [
  | none ↦ text "Room not found"
  | some room ↦
      text "Room: #"
      ++ room.name
      ++ text "\n"
      ++ text "Topic: "
      ++ room.topic
      ++ text "\n"
      ++ text "Members: "
      ++ to_string (length room.members)
      ++ text "\n"
      ++ text "Private: "
      ++ (if room.is_private then text "Yes" else text "No")
      ++ text "\n"
]

-- Each name is not above the one after it.
abbrev pub IsSorted : List Text → Type 0
IsSorted [] = Unit
IsSorted (x ∷ []) = Unit
IsSorted (x ∷ y ∷ ys) = (text_lt y x ≡ false) × IsSorted (y ∷ ys)

text_lt_asym : (xs ys : Text) → text_lt xs ys ≡ true → text_lt ys xs ≡ false
unfolding text_lt
text_lt_asym [] (y ∷ ys) h = refl
text_lt_asym [] [] h = refl
text_lt_asym (x ∷ xs) [] h = cc
text_lt_asym (x ∷ xs) (y ∷ ys) h = ground (arith, text_lt_asym xs ys)

-- The head of what `insert_sorted` makes is one of the two.
insert_sorted-IsSorted : (x : Text) (ys : List Text) → IsSorted ys → IsSorted (insert_sorted x ys)
unfolding insert_sorted
insert_sorted-IsSorted x [] h = tt
insert_sorted-IsSorted x (y ∷ []) h = ground (arith, text_lt_asym y x)
insert_sorted-IsSorted x (y ∷ z ∷ ys) h =
    ground (arith, text_lt_asym y x, insert_sorted-IsSorted x (z ∷ ys) h.1, h.0, h.1)

pub sort-IsSorted : (xs : List Text) → IsSorted (sort xs)
unfolding sort
sort-IsSorted [] = tt
sort-IsSorted (x ∷ xs) = insert_sorted-IsSorted x (sort xs) (sort-IsSorted xs)

contains-insert_sorted :
    (a x : Text) (ys : List Text)
    → contains a (insert_sorted x ys) ≡ (text_beq x a || contains a ys)
unfolding insert_sorted contains
contains-insert_sorted a x [] = refl
contains-insert_sorted a x (y ∷ ys) = ground (arith, contains-insert_sorted a x ys)

contains-sort : (a : Text) (xs : List Text) → contains a (sort xs) ≡ contains a xs
unfolding sort contains
contains-sort a [] = refl
contains-sort a (x ∷ xs) = ground (arith, contains-insert_sorted a x (sort xs), contains-sort a xs)

contains-public_names :
    (a : Text) (rooms : Map Text Room)
    → Distinct rooms
    → contains a (public_names rooms)
      ≡ elim (lookup a rooms) [ none ↦ false | some r ↦ not r.is_private ]
unfolding contains public_names lookup
contains-public_names a [] d = refl
contains-public_names a ((name, room) ∷ rooms) d =
    ground (arith, text_beq_iff name a, contains-public_names a rooms d.1, d.0)

Distinct-fold :
    (now : ℕ) (cs : List ℕ) (m : ChatRoomManager)
    → Distinct m.rooms
    → Distinct (move_all_to_general now cs m).rooms
unfolding move_all_to_general move_to_general
Distinct-fold now [] m d = d
Distinct-fold now (c ∷ cs) m d =
    Distinct-fold now cs (move_to_general now c m) (insert-Distinct _ _ m.rooms d)

drop_member-Distinct :
    (a : Text) (c : ℕ) (rooms : Map Text Room) → Distinct rooms → Distinct (drop_member a c rooms)
unfolding drop_member
drop_member-Distinct a c rooms d = elim (Option-cases (lookup a rooms)) [
  | inl e ↦ rw (e, drop_member) d
  | inr (r, e) ↦ rw (e, drop_member) (insert-Distinct a _ rooms d)
]

add_member-Distinct :
    (a : Text) (c : ℕ) (rooms : Map Text Room) → Distinct rooms → Distinct (add_member a c rooms)
unfolding add_member
add_member-Distinct a c rooms d = elim (Option-cases (lookup a rooms)) [
  | inl e ↦ rw (e, add_member) d
  | inr (r, e) ↦ rw (e, add_member) (insert-Distinct a _ rooms d)
]

leave_current-Distinct :
    (c : ℕ) (m : ChatRoomManager) → Distinct m.rooms → Distinct (leave_current c m)
unfolding leave_current
leave_current-Distinct c m d = elim (Option-cases (lookup c m.client_rooms)) [
  | inl e ↦ rw (e, leave_current) d
  | inr (a, e) ↦ rw (e, leave_current) (drop_member-Distinct a c m.rooms d)
]

pub apply-Distinct :
    (k : Call) (m : ChatRoomManager) → Distinct m.rooms → Distinct (apply k m).rooms
unfolding apply create_room delete_room join_room leave_room set_topic
apply-Distinct (create name owner is_private password now) m d = ground (
  arith,
  insert-Distinct name
      (record (new_room name owner now) { is_private = is_private; password = password }) m.rooms d,
)
apply-Distinct (delete name requester now) m d = elim (Option-cases (lookup name m.rooms)) [
  | inl e ↦ ground (arith, e, d)
  | inr (r, e) ↦
      let moved = move_all_to_general now r.members m in
      ground (arith, e, d, erase-Distinct name moved.rooms (Distinct-fold now r.members m d))
]
apply-Distinct (join name client password) m d = ground (
  arith,
  d,
  add_member-Distinct name client (leave_current client m) (leave_current-Distinct client m d),
)
apply-Distinct (leave client) m d = elim (Option-cases (lookup client m.client_rooms)) [
  | inl e ↦ ground (arith, e, d)
  | inr (a, e) ↦ ground (arith, e, drop_member-Distinct a client m.rooms d)
]
apply-Distinct (topic name t requester) m d = elim (Option-cases (lookup name m.rooms)) [
  | inl e ↦ ground (arith, e, d)
  | inr (r, e) ↦ ground (arith, e, d, insert-Distinct name (record r { topic = t }) m.rooms d)
]

pub Reach-Distinct : {m : ChatRoomManager} → Reach m → Distinct m.rooms
unfolding init lookup
Reach-Distinct (start now) = (refl, tt)
Reach-Distinct (next k m r) = apply-Distinct k m (Reach-Distinct r)

-- In every reachable state ListRooms gives a sorted list of names, in which a name stands exactly
-- when it is the name of a room that is not private.
pub list_rooms_lem :
    {m : ChatRoomManager}
    → Reach m
    → IsSorted (list_rooms m)
      × ((a : Text)
          → contains a (list_rooms m)
            ≡ elim (lookup a m.rooms) [ none ↦ false | some r ↦ not r.is_private ])
unfolding list_rooms
list_rooms_lem {m} r = (
  sort-IsSorted (public_names m.rooms),
  λ a. contains-sort a (public_names m.rooms) ∙ contains-public_names a m.rooms (Reach-Distinct r),
)
