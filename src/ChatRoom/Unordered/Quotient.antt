-- ===== src/ChatRoom/Unordered/Quotient.antt =====
-- The state of chat_room.cpp as a quotient, in which the order of the tables is forgotten.
use mathlib.Core.Quot
use mathlib.Core.Bool.{Bool-set}
use mathlib.Core.Quot.{Quot, Quot-set}
use multi_threaded_tcp_chat.Base.{ℕ, ◌≡◌, ◌≢◌, Bool, nat_eq, text_eq}
use multi_threaded_tcp_chat.Base.Text.{Text}
use multi_threaded_tcp_chat.ChatRoom.Reach.{Call, join, apply}
use multi_threaded_tcp_chat.ChatRoom.Unordered.Commuting.{join_room-commutes}
use multi_threaded_tcp_chat.ChatRoom.Unordered.Results.{
  SameState, after, succeeded, apply-SameTables,
}

abbrev pub RoomTables : Type 0
RoomTables = Quot SameState

-- A call on the tables themselves, and what it gives back.
unfoldable pub call : Call → RoomTables → RoomTables
call k =
    Quot.lift Quot-set (λ s. Quot.mk (after k s))
      (λ s t h. Quot.sound (apply-SameTables k s.0 t.0 h).1)

unfoldable pub answer : Call → RoomTables → Bool
answer k = Quot.lift Bool-set (λ s. succeeded k s.0) (λ s t h. (apply-SameTables k s.0 t.0 h).0)

tables-IsSet : IsSet RoomTables
tables-IsSet = Quot-set

-- The calls of two different clients to JoinRoom commute on the tables, with the order that the hash
-- tables give forgotten: whichever of the two threads takes the lock first, each client is answered
-- what it would be answered alone, and the same tables result.
pub joins_commute :
    (a e : Text) (c d : ℕ) (p q : Text) (t : RoomTables)
    → c ≢ d
    → (answer (join a c p) (call (join e d q) t) ≡ answer (join a c p) t)
      × (answer (join e d q) (call (join a c p) t) ≡ answer (join e d q) t)
      × (call (join a c p) (call (join e d q) t) ≡ call (join e d q) (call (join a c p) t))
unfolding call answer apply succeeded
joins_commute a e c d p q t differ =
    Quot.induction_on
      {β = λ u.
        (answer (join a c p) (call (join e d q) u) ≡ answer (join a c p) u)
        × (answer (join e d q) (call (join a c p) u) ≡ answer (join e d q) u)
        × (call (join a c p) (call (join e d q) u) ≡ call (join e d q) (call (join a c p) u))}
      (λ u. hlevel (Bool-set, tables-IsSet)) t
      (λ s.
        let (first, second, same) = join_room-commutes a e c d p q s.0 differ in
        (first, second, Quot.sound same))
