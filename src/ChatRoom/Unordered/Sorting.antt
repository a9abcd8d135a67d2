-- ===== src/ChatRoom/Unordered/Sorting.antt =====
-- A sorted list is determined by how often each text stands in it, so that ListRooms does not show
-- the order of the table.
use multi_threaded_tcp_chat.Base.{
  ℕ, ◌+◌, ◌<◌, ◌≡◌, refl, ap, sym, ◌∙◌, Bool, false, Option, none, some, List, [], ◌∷◌,
  if◌then◌else◌, nat_eq, text_eq, text_beq, arith, Bool-cases, inl, inr,
}
use multi_threaded_tcp_chat.Base.Eq.{text_beq_iff}
use multi_threaded_tcp_chat.Base.Text.{Text}
use multi_threaded_tcp_chat.Base.Map.{Map, lookup, Distinct}
use multi_threaded_tcp_chat.ChatRoom.{Room, ChatRoomManager}
use multi_threaded_tcp_chat.ChatRoom.Listing.{
  text_lt, insert_sorted, sort, public_names, list_rooms, IsSorted, sort-IsSorted,
}
use multi_threaded_tcp_chat.ChatRoom.Unordered.Tables.{SameEntry, SameRooms}

-- How often a text stands in a list.
abbrev times : Text → List Text → ℕ
times a [] = 0
times a (x ∷ xs) = (if text_beq x a then 1 else 0) + times a xs

times-insert_sorted :
    (a x : Text) (ys : List Text)
    → times a (insert_sorted x ys) ≡ (if text_beq x a then 1 else 0) + times a ys
unfolding insert_sorted
times-insert_sorted a x [] = refl
times-insert_sorted a x (y ∷ ys) = ground (arith, times-insert_sorted a x ys)

times-sort : (a : Text) (xs : List Text) → times a (sort xs) ≡ times a xs
unfolding sort
times-sort a [] = refl
times-sort a (x ∷ xs) = omega (arith, times-insert_sorted a x (sort xs), times-sort a xs)

text_lt_irrefl : (x : Text) → text_lt x x ≡ false
unfolding text_lt
text_lt_irrefl [] = refl
text_lt_irrefl (a ∷ x) = ground (arith, text_lt_irrefl x)

text_lt_total : (x y : Text) → text_lt x y ≡ false → text_lt y x ≡ false → x ≡ y
unfolding text_lt
text_lt_total [] [] h k = refl
text_lt_total [] (b ∷ y) h k = cc
text_lt_total (a ∷ x) [] h k = cc
text_lt_total (a ∷ x) (b ∷ y) h k = ground (arith, text_lt_total x y, h, k)

text_ge_trans : (x y z : Text) → text_lt y x ≡ false → text_lt z y ≡ false → text_lt z x ≡ false
unfolding text_lt
text_ge_trans [] y z h k = refl
text_ge_trans (a ∷ x) [] z h k = cc
text_ge_trans (a ∷ x) (b ∷ y) [] h k = cc
text_ge_trans (a ∷ x) (b ∷ y) (c ∷ z) h k = ground (arith, text_ge_trans x y z, h, k)

least :
    (z x : Text) (xs : List Text) → IsSorted (x ∷ xs) → 0 < times z (x ∷ xs) → text_lt z x ≡ false
least z x [] s h = ground (arith, text_beq_iff x z, text_lt_irrefl x, h)
least z x (y ∷ ys) s h = elim (Bool-cases (text_beq x z)) [
  | inl here ↦ ground (arith, text_beq_iff x z, text_lt_irrefl x)
  | inr there ↦ text_ge_trans x y z s.0 (least z y ys s.1 (ground (arith, there, h)))
]

tail-IsSorted : (x : Text) (xs : List Text) → IsSorted (x ∷ xs) → IsSorted xs
tail-IsSorted x [] s = tt
tail-IsSorted x (y ∷ ys) s = s.1

first_equal :
    (x y : Text) (xs ys : List Text)
    → IsSorted (x ∷ xs)
    → IsSorted (y ∷ ys)
    → ((a : Text) → times a (x ∷ xs) ≡ times a (y ∷ ys))
    → x ≡ y
first_equal x y xs ys s t h =
    text_lt_total x y (least x y ys t (omega (arith, h x, stands x xs)))
      (least y x xs s (omega (arith, h y, stands y ys)))
  where
    stands : (a : Text) (l : List Text) → 0 < times a (a ∷ l)
    stands a l = ground (arith, text_beq_iff a a)

pub sorted_unique :
    (xs ys : List Text)
    → IsSorted xs
    → IsSorted ys
    → ((a : Text) → times a xs ≡ times a ys)
    → xs ≡ ys
sorted_unique [] [] s t h = refl
sorted_unique [] (y ∷ ys) s t h = absurd (ground (arith, h y, text_beq_iff y y))
sorted_unique (x ∷ xs) [] s t h = absurd (ground (arith, h x, text_beq_iff x x))
sorted_unique (x ∷ xs) (y ∷ ys) s t h =
    let same = first_equal x y xs ys s t h in
    let rest =
      sorted_unique xs ys (tail-IsSorted x xs s) (tail-IsSorted y ys t)
        (λ a. omega (arith, h a, ap (λ (z : Text). times a (z ∷ [])) same)) in
    rw (same, rest) refl

times-public_names :
    (a : Text) (rooms : Map Text Room)
    → Distinct rooms
    → times a (public_names rooms)
      ≡ elim (lookup a rooms) [ none ↦ 0 | some r ↦ if r.is_private then 0 else 1 ]
unfolding public_names lookup
times-public_names a [] d = refl
times-public_names a ((name, room) ∷ rooms) d =
    ground (arith, text_beq_iff name a, times-public_names a rooms d.1, d.0)

pub list_rooms-same :
    (m n : ChatRoomManager)
    → SameRooms m.rooms n.rooms
    → Distinct m.rooms
    → Distinct n.rooms
    → list_rooms m ≡ list_rooms n
unfolding list_rooms
list_rooms-same m n h d e =
    sorted_unique _ _ (sort-IsSorted (public_names m.rooms)) (sort-IsSorted (public_names n.rooms))
      (λ a.
        times-sort a (public_names m.rooms)
        ∙ times-public_names a m.rooms d
        ∙ public (lookup a m.rooms) (lookup a n.rooms) (h a)
        ∙ sym (times-public_names a n.rooms e)
        ∙ sym (times-sort a (public_names n.rooms)))
  where
    public :
        (o p : Option Room)
        → SameEntry o p
        → ◌≡◌ {A = ℕ}
            (elim o [ none ↦ 0 | some r ↦ if r.is_private then 0 else 1 ])
            (elim p [ none ↦ 0 | some r ↦ if r.is_private then 0 else 1 ])
    public none none same = refl
    public none (some s) same = absurd same
    public (some r) none same = absurd same
    public (some r) (some s) same = ap (λ (b : Bool). if b then 0 else 1) same.is_private
