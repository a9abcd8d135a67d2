-- ===== src/ChatRoom/Unordered/Commuting.antt =====
-- JoinRoom for two different clients, in either order.
use multi_threaded_tcp_chat.Base.{
  ℕ, ◌≡◌, ◌≢◌, refl, sym, ◌∙◌, true, false, not, ◌||◌, Option, none, some, List, if◌then◌else◌,
  ◌==◌, nat_eq, text_eq, text_beq, arith, Bool-cases, inl, inr,
}
use multi_threaded_tcp_chat.Base.Text.{Text}
use multi_threaded_tcp_chat.Base.Counting.{SameItems, count}
use multi_threaded_tcp_chat.Base.Map.{lookup, insert, lookup-insert}
use multi_threaded_tcp_chat.Base.Set.{remove}
use multi_threaded_tcp_chat.ChatRoom.{Room, ChatRoomManager, add_member, leave_current, join_room}
use multi_threaded_tcp_chat.ChatRoom.Moves.{admits}
use multi_threaded_tcp_chat.ChatRoom.Edits.{edit, shift, lookup-drop-add}
use multi_threaded_tcp_chat.ChatRoom.Unordered.Tables.{
  count-add, count-remove, SameContents-refl, with_members, SameEntry, SameEntry-refl, SameRooms,
}
use multi_threaded_tcp_chat.ChatRoom.Unordered.Operations.{SameTables}

count-shift-other :
    (b c : ℕ) (o : Option Text) (name n : Text) (xs : List ℕ)
    → ((c == b) ≡ false)
    → count b (shift c o name n xs) ≡ count b xs
count-shift-other b c none name n xs apart = ground (arith, count-add c b xs)
count-shift-other b c (some old) name n xs apart =
    ground (arith, count-add c b xs, count-add c b (remove c xs), count-remove c b xs)

count-shift-same :
    (c : ℕ) (o : Option Text) (name n : Text) (xs ys : List ℕ)
    → (count c xs ≡ count c ys)
    → count c (shift c o name n xs) ≡ count c (shift c o name n ys)
count-shift-same c none name n xs ys h = ground (arith, count-add c c xs, count-add c c ys)
count-shift-same c (some old) name n xs ys h = ground (
  arith,
  count-add c c xs,
  count-add c c ys,
  count-add c c (remove c xs),
  count-add c c (remove c ys),
  count-remove c c xs,
  count-remove c c ys,
)

shift-commutes :
    (c d : ℕ) (o p : Option Text) (a e n : Text) (xs : List ℕ)
    → ((c == d) ≡ false)
    → SameItems (shift c o a n (shift d p e n xs)) (shift d p e n (shift c o a n xs))
shift-commutes c d o p a e n xs apart b = elim (Bool-cases (c == b)) [
  | inl here ↦
      let away : (d == b) ≡ false = grind arith in
      let same : c ≡ b = grind arith in
      let inner = count-shift-other b d p e n in
      count_of b c _ _ same
        (count-shift-same c o a n (shift d p e n xs) xs (rw same (inner xs away)))
      ∙ sym (inner (shift c o a n xs) away)
  | inr away ↦
      let outer = count-shift-other b c o a n in
      elim (Bool-cases (d == b)) [
        | inl here ↦
            let same : d ≡ b = grind arith in
            outer (shift d p e n xs) away
            ∙ sym (
                count_of b d _ _ same
                  (count-shift-same d p e n (shift c o a n xs) xs (rw same (outer xs away))))
        | inr there ↦
            outer (shift d p e n xs) away
            ∙ count-shift-other b d p e n xs there
            ∙ sym (outer xs away)
            ∙ sym (count-shift-other b d p e n (shift c o a n xs) there)
      ]
]
  where
    count_of :
        (b c : ℕ) (xs ys : List ℕ) → (c ≡ b) → (count c xs ≡ count c ys) → count b xs ≡ count b ys
    count_of b c xs ys same h = rw (← same) h

-- The state after JoinRoom, if it succeeds.
unfoldable entered : Text → ℕ → ChatRoomManager → ChatRoomManager
entered a c m = record {
  rooms = add_member a c (leave_current c m);
  client_rooms = insert c a m.client_rooms;
}

join_room-admits :
    (a : Text) (c : ℕ) (p : Text) (m : ChatRoomManager)
    → join_room a c p m ≡ (if admits m a p then (true, entered a c m) else (false, m))
unfolding join_room entered
join_room-admits a c p m = ground arith

admits-entered :
    (a e : Text) (d : ℕ) (p : Text) (m : ChatRoomManager)
    → admits (entered e d m) a p ≡ admits m a p
unfolding entered
admits-entered a e d p m =
    rw (admits, entered, lookup-drop-add m e a d) (unchanged (lookup a m.rooms))
  where
    unchanged :
        (o : Option Room)
        → (elim (edit (shift d (lookup d m.client_rooms) e a) o) [
          | none ↦ false
          | some r ↦ not r.is_private || text_beq r.password p
        ])
          ≡ (elim o [ none ↦ false | some r ↦ not r.is_private || text_beq r.password p ])
    unchanged none = refl
    unchanged (some r) = refl

module _ (a e : Text) (c d : ℕ) (apart : (c == d) ≡ false) (m : ChatRoomManager) where
  entered-rooms : SameRooms (entered a c (entered e d m)).rooms (entered e d (entered a c m)).rooms
  unfolding entered
  entered-rooms n =
      let still : lookup c (insert d e m.client_rooms) ≡ lookup c m.client_rooms =
        ground (arith, lookup-insert d c e m.client_rooms) in
      let also : lookup d (insert c a m.client_rooms) ≡ lookup d m.client_rooms =
        ground (arith, lookup-insert c d a m.client_rooms) in
      rw
        (
          entered,
          lookup-drop-add (entered e d m) a n c,
          lookup-drop-add (entered a c m) e n d,
          entered,
          lookup-drop-add m a n c,
          lookup-drop-add m e n d,
          still,
          also,
        )
        (both (lookup n m.rooms))
    where
      both :
          (o : Option Room)
          → SameEntry
              (edit
                (shift c (lookup c m.client_rooms) a n)
                (edit (shift d (lookup d m.client_rooms) e n) o))
              (edit
                (shift d (lookup d m.client_rooms) e n)
                (edit (shift c (lookup c m.client_rooms) a n) o))
      both none = tt
      both (some r) =
          with_members r r _ _ (SameContents-refl r) (shift-commutes c d _ _ a e n r.members apart)

  entered-SameTables : SameTables (entered a c (entered e d m)) (entered e d (entered a c m))
  unfolding entered
  entered-SameTables = record {
    rooms = entered-rooms;
    filed = λ k. ground (
      arith,
      lookup-insert d k e m.client_rooms,
      lookup-insert c k a m.client_rooms,
      lookup-insert d k e (insert c a m.client_rooms),
      lookup-insert c k a (insert d e m.client_rooms),
    );
  }

-- Each client is answered the same whichever comes first, and the tables are then the same.
pub join_room-commutes :
    (a e : Text) (c d : ℕ) (p q : Text) (m : ChatRoomManager)
    → c ≢ d
    → ((join_room a c p (join_room e d q m).1).0 ≡ (join_room a c p m).0)
      × ((join_room e d q (join_room a c p m).1).0 ≡ (join_room e d q m).0)
      × SameTables
          (join_room a c p (join_room e d q m).1).1
          (join_room e d q (join_room a c p m).1).1
join_room-commutes a e c d p q m differ =
    let apart : (c == d) ≡ false = ground arith in
    rw (join_room-admits a c p m, join_room-admits e d q m)
      (elim (Bool-cases (admits m a p)) [
        | inl first ↦ elim (Bool-cases (admits m e q)) [
          | inl second ↦
              rw
                (
                  first,
                  second,
                  join_room-admits a c p (entered e d m),
                  join_room-admits e d q (entered a c m),
                  admits-entered a e d p m,
                  admits-entered e a c q m,
                  first,
                  second,
                )
                (refl, refl, entered-SameTables a e c d apart m)
          | inr away ↦
              rw
                (
                  first,
                  away,
                  join_room-admits a c p m,
                  join_room-admits e d q (entered a c m),
                  admits-entered e a c q m,
                  first,
                  away,
                )
                (refl, refl, SameTables-refl (entered a c m))
        ]
        | inr away ↦ elim (Bool-cases (admits m e q)) [
          | inl second ↦
              rw
                (
                  away,
                  second,
                  join_room-admits a c p (entered e d m),
                  join_room-admits e d q m,
                  admits-entered a e d p m,
                  away,
                  second,
                )
                (refl, refl, SameTables-refl (entered e d m))
          | inr off ↦
              rw (away, off, join_room-admits a c p m, join_room-admits e d q m, away, off)
                (refl, refl, SameTables-refl m)
        ]
      ])
  where
    SameTables-refl : (n : ChatRoomManager) → SameTables n n
    SameTables-refl n = record { rooms = λ k. SameEntry-refl (lookup k n.rooms); filed = λ k. refl }
