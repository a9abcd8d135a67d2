-- ===== src/ChatRoom/Members.antt =====
-- What the steps of chat_room.cpp that touch the members of a room do to the table of rooms.
use multi_threaded_tcp_chat.Base.{
  ℕ, Bool, true, false, not, ◌&&◌, ◌||◌, Option, none, some, ◌≡◌, refl, ◌∙◌, arith, ◌==◌, nat_eq,
  text_eq, text_beq, is_some, Option-cases, inl, inr,
}
use multi_threaded_tcp_chat.Base.Eq.{text_beq_iff}
use multi_threaded_tcp_chat.Base.Text.{Text}
use multi_threaded_tcp_chat.Base.Map.{Map, lookup, lookup-insert}
use multi_threaded_tcp_chat.Base.Set.{contains, add, remove, contains-add, contains-remove}
use multi_threaded_tcp_chat.ChatRoom.{
  Room, ChatRoomManager, general, drop_member, add_member, leave_current,
}

-- Is client `c` a member of room `n`?
unfoldable pub member_of : Map Text Room → Text → ℕ → Bool
member_of rooms n c = elim (lookup n rooms) [ none ↦ false | some r ↦ contains c r.members ]

-- Is client `c` filed under room `n`?
unfoldable pub filed_under : Map ℕ Text → ℕ → Text → Bool
filed_under client_rooms c n = elim (lookup c client_rooms) [ none ↦ false | some x ↦ x == n ]

module _ (a n : Text) (c d : ℕ) (rooms : Map Text Room) where
  pub member_of-drop_member :
      member_of (drop_member a c rooms) n d ≡ (not (text_beq a n && c == d) && member_of rooms n d)
  unfolding member_of drop_member
  member_of-drop_member = elim (Option-cases (lookup a rooms)) [
    | inl e ↦ rw (e, drop_member) (ground (arith, text_beq_iff a n, e))
    | inr (r, e) ↦
        rw (e, drop_member)
          (ground (
            arith,
            text_beq_iff a n,
            e,
            lookup-insert a n (record r { members = remove c r.members }) rooms,
            contains-remove c d r.members,
          ))
  ]

  pub member_of-add_member :
      (r : Room)
      → lookup a rooms ≡ some r
      → member_of (add_member a c rooms) n d ≡ ((text_beq a n && c == d) || member_of rooms n d)
  unfolding member_of add_member
  member_of-add_member r e =
      rw (e, add_member)
        (ground (
          arith,
          text_beq_iff a n,
          e,
          lookup-insert a n (record r { members = add c r.members }) rooms,
          contains-add c d r.members,
        ))

-- What neither operation on members changes about a room.
abbrev pub SameRoom : Option Room → Option Room → Type 0
SameRoom o p =
    (is_some o ≡ is_some p)
    × ((r : Room) → o ≡ some r → (s : Room) × (p ≡ some s) × (r.name ≡ s.name))

module _ (a n : Text) (c : ℕ) (rooms : Map Text Room) where
  pub drop_member-SameRoom : SameRoom (lookup n (drop_member a c rooms)) (lookup n rooms)
  unfolding drop_member
  drop_member-SameRoom = elim (Option-cases (lookup a rooms)) [
    | inl e ↦ rw (e, drop_member) (refl, λ r h. (r, h, refl))
    | inr (r, e) ↦
        rw (e, drop_member)
          (rw (lookup-insert a n (record r { members = remove c r.members }) rooms)
            (elim (Option-cases (lookup n rooms)) [
              | inl f ↦ (
                ground (arith, text_beq_iff a n, e, f),
                λ s h. absurd (ground (arith, text_beq_iff a n, e, f, h)),
              )
              | inr (t, f) ↦ (
                ground (arith, text_beq_iff a n, e, f),
                λ s h. (t, f, ground (arith, text_beq_iff a n, e, f, h)),
              )
            ]))
  ]

  pub add_member-SameRoom : SameRoom (lookup n (add_member a c rooms)) (lookup n rooms)
  unfolding add_member
  add_member-SameRoom = elim (Option-cases (lookup a rooms)) [
    | inl e ↦ rw (e, add_member) (refl, λ r h. (r, h, refl))
    | inr (r, e) ↦
        rw (e, add_member)
          (rw (lookup-insert a n (record r { members = add c r.members }) rooms)
            (elim (Option-cases (lookup n rooms)) [
              | inl f ↦ (
                ground (arith, text_beq_iff a n, e, f),
                λ s h. absurd (ground (arith, text_beq_iff a n, e, f, h)),
              )
              | inr (t, f) ↦ (
                ground (arith, text_beq_iff a n, e, f),
                λ s h. (t, f, ground (arith, text_beq_iff a n, e, f, h)),
              )
            ]))
  ]

-- A room table whose rooms are those of another but for their members.
abbrev pub SameRooms : Map Text Room → Map Text Room → Type 0
SameRooms xs ys = (n : Text) → SameRoom (lookup n xs) (lookup n ys)

pub SameRooms-trans :
    (xs ys zs : Map Text Room) → SameRooms xs ys → SameRooms ys zs → SameRooms xs zs
SameRooms-trans xs ys zs p q n = (
  (p n).0 ∙ (q n).0,
  λ r h. let (s, hs, e) = (p n).1 r h in let (t, ht, e') = (q n).1 s hs in (t, ht, e ∙ e'),
)

pub SameRooms-refl : (xs : Map Text Room) → SameRooms xs xs
SameRooms-refl xs n = (refl, λ r h. (r, h, refl))

pub leave_current-SameRooms : (c : ℕ) (m : ChatRoomManager) → SameRooms (leave_current c m) m.rooms
unfolding leave_current
leave_current-SameRooms c m n = elim (Option-cases (lookup c m.client_rooms)) [
  | inl e ↦ rw (e, leave_current) (SameRooms-refl m.rooms n)
  | inr (a, e) ↦ rw (e, leave_current) (drop_member-SameRoom a n c m.rooms)
]

-- The fields of the invariant that depend on the rooms alone.
module _ (xs ys : Map Text Room) (same : SameRooms xs ys) where
  pub SameRooms-general : is_some (lookup general ys) ≡ true → is_some (lookup general xs) ≡ true
  SameRooms-general h = (same general).0 ∙ h

  pub SameRooms-named :
      ((n : Text) (r : Room) → lookup n ys ≡ some r → r.name ≡ n)
      → (n : Text) (r : Room) → lookup n xs ≡ some r
      → r.name ≡ n
  SameRooms-named h n r e = let (s, hs, same_name) = (same n).1 r e in same_name ∙ h n s hs
