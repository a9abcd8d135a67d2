-- ===== src/ChatRoom/Edits.antt =====
-- The changes that chat_room.cpp makes to the members of one room, and what they leave under each name.
use multi_threaded_tcp_chat.Base.{
  ℕ, ◌≡◌, refl, ap, ◌∙◌, Bool, true, false, Option, none, some, List, if◌then◌else◌, nat_eq,
  text_eq, text_beq, Option-cases, Bool-cases, inl, inr,
}
use multi_threaded_tcp_chat.Base.Eq.{text_beq_iff}
use multi_threaded_tcp_chat.Base.Text.{Text}
use multi_threaded_tcp_chat.Base.Map.{Map, lookup, insert, lookup-insert}
use multi_threaded_tcp_chat.Base.Set.{add, remove}
use multi_threaded_tcp_chat.ChatRoom.{Room, ChatRoomManager, drop_member, add_member, leave_current}

abbrev pub edit : (List ℕ → List ℕ) → Option Room → Option Room
edit f none = none
edit f (some r) = some (record r { members = f r.members })

-- The members of one room are changed, if it is there.
unfoldable pub edit_at : Text → (List ℕ → List ℕ) → Map Text Room → Map Text Room
edit_at a f rooms = elim (lookup a rooms) [
  | none ↦ rooms
  | some r ↦ insert a (record r { members = f r.members }) rooms
]

pub lookup-edit_at :
    (a n : Text) (f : List ℕ → List ℕ) (rooms : Map Text Room)
    → lookup n (edit_at a f rooms)
      ≡ (if text_beq a n then edit f (lookup n rooms) else lookup n rooms)
unfolding edit_at
lookup-edit_at a n f rooms = elim (Bool-cases (text_beq a n)) [
  | inr apart ↦ rw apart (elim (Option-cases (lookup a rooms)) [
    | inl e ↦ rw (e, edit_at) refl
    | inr (r, e) ↦
        rw (e, edit_at)
          (lookup-insert a n (record r { members = f r.members }) rooms ∙ rw apart refl)
  ])
  | inl here ↦
      let same = (text_beq_iff a n).0 here in
      rw (← same, (text_beq_iff a a).1 refl)
        (elim (Option-cases (lookup a rooms)) [
          | inl e ↦ rw (e, edit_at, e) refl
          | inr (r, e) ↦
              rw (e, edit_at)
                (lookup-insert a a (record r { members = f r.members }) rooms
                  ∙ rw ((text_beq_iff a a).1 refl) refl)
        ])
]

-- What JoinRoom of `name` does to the members of the room `n`, for a client that is in `current`.
abbrev pub shift : ℕ → Option Text → Text → Text → List ℕ → List ℕ
shift c none name n xs = if text_beq name n then add c xs else xs
shift c (some old) name n xs =
    let left = if text_beq old n then remove c xs else xs in
    if text_beq name n then add c left else left

pub drop_member-edit :
    (a : Text) (c : ℕ) (rooms : Map Text Room) → drop_member a c rooms ≡ edit_at a (remove c) rooms
unfolding drop_member edit_at
drop_member-edit a c rooms = refl

pub add_member-edit :
    (a : Text) (c : ℕ) (rooms : Map Text Room) → add_member a c rooms ≡ edit_at a (add c) rooms
unfolding add_member edit_at
add_member-edit a c rooms = refl

edit-if :
    (b : Bool) (f : List ℕ → List ℕ) (o : Option Room)
    → (if b then edit f o else o) ≡ edit (λ xs. if b then f xs else xs) o
edit-if true f o = refl
edit-if false f none = refl
edit-if false f (some r) = refl

edit-edit : (f g : List ℕ → List ℕ) (o : Option Room) → edit f (edit g o) ≡ edit (λ xs. f (g xs)) o
edit-edit f g none = refl
edit-edit f g (some r) = refl

pub lookup-drop-add :
    (m : ChatRoomManager) (a n : Text) (c : ℕ)
    → lookup n (add_member a c (leave_current c m))
      ≡ edit (shift c (lookup c m.client_rooms) a n) (lookup n m.rooms)
unfolding leave_current
lookup-drop-add m a n c = elim (Option-cases (lookup c m.client_rooms)) [
  | inl e ↦
      rw (e, leave_current, add_member-edit a c m.rooms, lookup-edit_at a n (add c) m.rooms)
        (edit-if (text_beq a n) (add c) (lookup n m.rooms))
  | inr (old, e) ↦
      rw
        (
          e,
          leave_current,
          drop_member-edit old c m.rooms,
          add_member-edit a c (edit_at old (remove c) m.rooms),
          lookup-edit_at a n (add c) (edit_at old (remove c) m.rooms),
          lookup-edit_at old n (remove c) m.rooms,
        )
        (edit-if (text_beq a n) (add c) _
          ∙ ap (edit (λ xs. if text_beq a n then add c xs else xs))
              (edit-if (text_beq old n) (remove c) (lookup n m.rooms))
          ∙ edit-edit _ _ (lookup n m.rooms))
]
