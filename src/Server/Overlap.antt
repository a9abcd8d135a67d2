-- ===== src/Server/Overlap.antt =====
-- Handlers that overlap: each is a program of which one step at a time is made, and between two of
-- its steps any steps of others may come.
use multi_threaded_tcp_chat.Base.{
  ℕ, refl, not, List, [], ◌∷◌, if_both, arith, leb, ◌==◌, nat_eq, text_eq,
}
use multi_threaded_tcp_chat.Base.Text.{Text}
use multi_threaded_tcp_chat.Base.Map.{lookup-erase}
use multi_threaded_tcp_chat.ChatRoom.{general, join_room, get_client_room}
use multi_threaded_tcp_chat.ConnectionManager.{is_banned, check_rate}
use multi_threaded_tcp_chat.IocpServer.{IocpServer, forget_client, enqueue}
use multi_threaded_tcp_chat.IocpServer
use multi_threaded_tcp_chat.IocpServer.Tables.{forgets, enqueues}
use multi_threaded_tcp_chat.IocpServer.Tables
use multi_threaded_tcp_chat.Server.{History, Server}
use multi_threaded_tcp_chat.Server.Invariant.{
  IsSound, IsSound-keep, send_to_client-IsSound, joined-Reach, left-Reach,
}
use multi_threaded_tcp_chat.Server.Program.{
  Program, done, step, say_all, say_others, cleanup, turn_away, let_in, connect_program,
  disconnect_program, broadcast_program,
}

-- Every step of the program keeps `P`, whatever the others have done before it.
abbrev pub Keeps : {S : Type 0} → (S → Type 0) → Program S → Type 0
Keeps P done = Unit {0}
Keeps P (step change more) = (s : _) → P s → P (change s) × Keeps P (more s)

-- A program all of whose steps keep the server sound.
abbrev pub IsSafe : {A : Type 0} → Program (Server A) → Type 0
IsSafe = Keeps IsSound

module _ {A : Type 0} where
  pub say_all-IsSafe :
      (ids : List ℕ) (message : Text) (more : Program (Server A))
      → IsSafe more
      → IsSafe (say_all ids message more)
  unfolding say_all
  say_all-IsSafe [] message more safe = safe
  say_all-IsSafe (id ∷ ids) message more safe =
      λ s v. (send_to_client-IsSound id message s v, say_all-IsSafe ids message more safe)

  pub say_others-IsSafe :
      (excluded : ℕ) (ids : List ℕ) (message : Text) (more : Program (Server A))
      → IsSafe more
      → IsSafe (say_others excluded ids message more)
  unfolding say_others
  say_others-IsSafe excluded [] message more safe = safe
  say_others-IsSafe excluded (id ∷ ids) message more safe =
      let rest = say_others-IsSafe excluded ids message more safe in
      if_both IsSafe (not (id == excluded)) (λ s v. (send_to_client-IsSound id message s v, rest))
        rest

  pub cleanup-IsSafe : (id : ℕ) (more : Program (Server A)) → IsSafe more → IsSafe (cleanup id more)
  unfolding cleanup Tables.apply
  cleanup-IsSafe id more safe = λ s v. (
    IsSound-keep s _ v v.rooms_reached (Tables.next (forgets id) s.network v.network_reached tt)
        refl,
    λ t w. (
      IsSound-keep t _ w w.rooms_reached
          (Tables.next (enqueues (IocpServer.on_disconnect id)) t.network w.network_reached tt)
          refl,
      safe,
    ),
  )

  -- A change of the rooms, with what comes after it.
  pub joined-IsSafe :
      (room : Text) (id : ℕ) (s : Server A)
      → IsSound s
      → IsSound (record s { chat_rooms = (join_room room id [] s.chat_rooms).1 })
  joined-IsSafe room id s v =
      IsSound-keep s _ v (joined-Reach room id s.chat_rooms v.rooms_reached) v.network_reached refl

module _ (A : Type 0) where
  turn_away-IsSafe : (id : ℕ) → IsSafe {A = A} (turn_away id)
  unfolding turn_away
  turn_away-IsSafe id = cleanup-IsSafe id done tt

  let_in-IsSafe : (id : ℕ) → IsSafe {A = A} (let_in id)
  unfolding let_in
  let_in-IsSafe id = λ s v. (
    IsSound-keep s _ v v.rooms_reached v.network_reached refl,
    λ t w. (joined-IsSafe general id t w, λ u x. (send_to_client-IsSound id _ u x, tt)),
  )

  pub connect_program-IsSafe :
      (id : ℕ) (ip : Text) (now : ℕ) → IsSafe {A = A} (connect_program id ip now)
  unfolding connect_program
  connect_program-IsSafe id ip now = λ s v. (
    v,
    if_both IsSafe (is_banned ip s.connection_manager) (turn_away-IsSafe id) (λ t w. (
      w,
      if_both IsSafe
          (leb t.connection_manager.max_total_connections t.connection_manager.current_connections)
          (turn_away-IsSafe id)
          (λ u x. (
            IsSound-keep u _ x x.rooms_reached x.network_reached refl,
            if_both IsSafe (check_rate now u.connection_manager).0 (let_in-IsSafe id)
                (turn_away-IsSafe id),
          )),
    )),
  )

  pub disconnect_program-IsSafe : (id : ℕ) → IsSafe {A = A} (disconnect_program id)
  unfolding disconnect_program
  disconnect_program-IsSafe id = λ s v. (
    v,
    λ t w. (
      w,
      λ a va. (
        IsSound-keep a _ va (left-Reach id a.chat_rooms va.rooms_reached) va.network_reached refl,
        λ b vb. (
          IsSound-keep b _ vb vb.rooms_reached vb.network_reached refl,
          λ c vc. (
            record {
              rooms_reached = vc.rooms_reached;
              network_reached = vc.network_reached;
              named = λ other name e.
                  vc.named other name (ground (arith, lookup-erase id other c.client_names, e));
            },
            if_both IsSafe (not (get_client_room id t.chat_rooms == []))
                (λ d vd. (vd, say_all-IsSafe _ _ done tt)) tt,
          ),
        ),
      ),
    ),
  )

module _ {A : Type 0} where
  pub broadcast_program-IsSafe :
      (h : History A) (id : ℕ) (message : Text) (now : ℕ)
      → IsSafe (broadcast_program h id message now)
  unfolding broadcast_program
  broadcast_program-IsSafe h id message now = λ s v. (
    v,
    λ t w. (
      w,
      λ a va. (
        IsSound-keep a _ va va.rooms_reached va.network_reached refl,
        λ b vb. (vb, say_others-IsSafe id _ _ done tt),
      ),
    ),
  )
