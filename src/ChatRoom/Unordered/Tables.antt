-- ===== src/ChatRoom/Unordered/Tables.antt =====
-- When two association lists stand for one table of rooms.
use multi_threaded_tcp_chat.Base.{
  ℕ, ◌+◌, ◌≡◌, refl, Bool, true, false, ◌&&◌, Option, none, some, List, [], ◌∷◌, if◌then◌else◌, ltb,
  ◌⊎◌, ◌==◌, nat_eq, text_eq, text_beq, arith, inl, inr,
}
use multi_threaded_tcp_chat.Base.Eq.{text_beq_iff}
use multi_threaded_tcp_chat.Base.Text.{Text}
use multi_threaded_tcp_chat.Base.Map.{Map, lookup, insert, erase, lookup-insert, lookup-erase}
use multi_threaded_tcp_chat.Base.Set.{contains, add, remove}
use multi_threaded_tcp_chat.Base.Counting.{SameItems, count, count-append}
use multi_threaded_tcp_chat.ChatRoom.{Room}

pub contains-count : (a : ℕ) (xs : List ℕ) → contains a xs ≡ ltb 0 (count a xs)
unfolding contains
contains-count a [] = refl
contains-count a (x ∷ xs) = ground (arith, contains-count a xs)

pub count-add :
    (a b : ℕ) (xs : List ℕ)
    → count b (add a xs)
      ≡ (if ltb 0 (count a xs) then count b xs else count b xs + (if a == b then 1 else 0))
unfolding add
count-add a b xs = ground (arith, contains-count a xs, count-append b xs (a ∷ []))

pub count-remove :
    (a b : ℕ) (xs : List ℕ) → count b (remove a xs) ≡ (if a == b then 0 else count b xs)
unfolding remove
count-remove a b [] = ground arith
count-remove a b (x ∷ xs) = ground (arith, count-remove a b xs)

pub SameItems-add : (a : ℕ) (xs ys : List ℕ) → SameItems xs ys → SameItems (add a xs) (add a ys)
SameItems-add a xs ys h b = ground (arith, count-add a b xs, count-add a b ys, h a, h b)

pub SameItems-remove :
    (a : ℕ) (xs ys : List ℕ) → SameItems xs ys → SameItems (remove a xs) (remove a ys)
SameItems-remove a xs ys h b = ground (arith, count-remove a b xs, count-remove a b ys, h b)

-- Two rooms that differ in the order of their members at most.
pub record SameContents (r s : Room) : Type 0 where
  pub name : r.name ≡ s.name
  pub topic : r.topic ≡ s.topic
  pub members : SameItems r.members s.members
  pub owner_id : r.owner_id ≡ s.owner_id
  pub created_at : r.created_at ≡ s.created_at
  pub is_private : r.is_private ≡ s.is_private
  pub password : r.password ≡ s.password

pub SameContents-refl : (r : Room) → SameContents r r
SameContents-refl r = record {
  name = refl;
  topic = refl;
  members = λ a. refl;
  owner_id = refl;
  created_at = refl;
  is_private = refl;
  password = refl;
}

pub with_members :
    (r s : Room) (xs ys : List ℕ)
    → SameContents r s
    → SameItems xs ys
    → SameContents (record r { members = xs }) (record s { members = ys })
with_members r s xs ys same h = record {
  name = same.name;
  topic = same.topic;
  members = h;
  owner_id = same.owner_id;
  created_at = same.created_at;
  is_private = same.is_private;
  password = same.password;
}

abbrev pub SameEntry : Option Room → Option Room → Type 0
SameEntry none none = Unit
SameEntry none (some s) = ⊥
SameEntry (some r) none = ⊥
SameEntry (some r) (some s) = SameContents r s

-- Under each name both have a room, or neither.
abbrev pub SameRooms : Map Text Room → Map Text Room → Type 0
SameRooms rooms others = (n : Text) → SameEntry (lookup n rooms) (lookup n others)

pub SameEntry-cases :
    (o p : Option Room)
    → SameEntry o p
    → ((o ≡ none) × (p ≡ none))
      ⊎ ((r : Room) × (s : Room) × (o ≡ some r) × (p ≡ some s) × SameContents r s)
SameEntry-cases none none h = inl (refl, refl)
SameEntry-cases none (some s) h = absurd h
SameEntry-cases (some r) none h = absurd h
SameEntry-cases (some r) (some s) h = inr (r, s, refl, refl, h)

pub SameEntry-if :
    (b : Bool) (o p o' p' : Option Room)
    → SameEntry o p
    → SameEntry o' p'
    → SameEntry (if b then o else o') (if b then p else p')
SameEntry-if true o p o' p' h k = h
SameEntry-if false o p o' p' h k = k

pub SameRooms-insert :
    (n : Text) (r s : Room) (rooms others : Map Text Room)
    → SameContents r s
    → SameRooms rooms others
    → SameRooms (insert n r rooms) (insert n s others)
SameRooms-insert n r s rooms others same h k =
    rw (lookup-insert n k r rooms, lookup-insert n k s others)
      (SameEntry-if (n == k) (some r) (some s) (lookup k rooms) (lookup k others) same (h k))

pub SameRooms-erase :
    (n : Text) (rooms others : Map Text Room)
    → SameRooms rooms others
    → SameRooms (erase n rooms) (erase n others)
SameRooms-erase n rooms others h k =
    rw (lookup-erase n k rooms, lookup-erase n k others)
      (SameEntry-if (n == k) none none (lookup k rooms) (lookup k others) tt (h k))

pub SameEntry-refl : (o : Option Room) → SameEntry o o
SameEntry-refl none = tt
SameEntry-refl (some r) = SameContents-refl r

swapped :
    (x y : Bool) (r s : Room) (o : Option Room)
    → ((x && y) ≡ false)
    → SameEntry
        (if x then some r else if y then some s else o)
        (if y then some s else if x then some r else o)
swapped true true r s o apart = ground arith
swapped true false r s o apart = SameContents-refl r
swapped false y r s o apart = SameEntry-refl (if y then some s else o)

-- Two rooms that are stored one after the other, in either order.
pub SameRooms-swap :
    (a b : Text) (r s : Room) (rooms : Map Text Room)
    → (text_beq a b ≡ false)
    → SameRooms (insert a r (insert b s rooms)) (insert b s (insert a r rooms))
SameRooms-swap a b r s rooms apart k =
    rw
      (
        lookup-insert a k r (insert b s rooms),
        lookup-insert b k s rooms,
        lookup-insert b k s (insert a r rooms),
        lookup-insert a k r rooms,
      )
      (swapped (text_beq a k) (text_beq b k) r s (lookup k rooms)
        (grind (arith, text_beq_iff a k, text_beq_iff b k, text_beq_iff a b)))
