-- ===== src/Server/Interleaving.antt =====
-- The server with its handlers on the threads of the pool, which interleave as they will.
use multi_threaded_tcp_chat.Base.{
  ℕ, ◌≡◌, refl, ◌∙◌, List, [], ◌∷◌, ◌++◌, All, some, nat_eq, text_eq,
}
use multi_threaded_tcp_chat.Base.Text.{Text}
use multi_threaded_tcp_chat.Base.Map.{lookup}
use multi_threaded_tcp_chat.ChatRoom.Invariant
use multi_threaded_tcp_chat.ChatRoom.Reach.{rooms_agree}
use multi_threaded_tcp_chat.ConnectionManager.{Config}
use multi_threaded_tcp_chat.MessageStore.{ChatMessage}
use multi_threaded_tcp_chat.IocpServer.{disconnect_client}
use multi_threaded_tcp_chat.IocpServer.Consistency
use multi_threaded_tcp_chat.IocpServer.Tables
use multi_threaded_tcp_chat.IocpServer.Tables.{Event, IsPossible, tables_agree}
use multi_threaded_tcp_chat.Server.{History, Server, handle_connect, handle_disconnect}
use multi_threaded_tcp_chat.Server.Message.{
  Clock, ids, disconnect_all, handle_message, disconnect_timed_out,
}
use multi_threaded_tcp_chat.Server.Invariant.{IsSound, IsName, IsSound-keep}
use multi_threaded_tcp_chat.Server.Reach.{new_server, ServerReach-IsSound, begin}
use multi_threaded_tcp_chat.Server.Program.{
  Program, done, step, finish, connect_program, disconnect_program,
}
use multi_threaded_tcp_chat.Server.MessageProgram.{message_program, watch_program, cleanup_all}
use multi_threaded_tcp_chat.Server.Alone.{finish-cleanup, connect_alone, disconnect_alone}
use multi_threaded_tcp_chat.Server.CommandAlone.{message_alone}
use multi_threaded_tcp_chat.Server.Overlap.{
  IsSafe, cleanup-IsSafe, connect_program-IsSafe, disconnect_program-IsSafe,
}
use multi_threaded_tcp_chat.Server.MessageOverlap.{message_program-IsSafe}

module _ {A : Type 0} where
  cleanup_all-IsSafe :
      (ids : List ℕ) (more : Program (Server A)) → IsSafe more → IsSafe (cleanup_all ids more)
  unfolding cleanup_all
  cleanup_all-IsSafe [] more safe = safe
  cleanup_all-IsSafe (id ∷ ids) more safe = cleanup-IsSafe id _ (cleanup_all-IsSafe ids more safe)

  finish-cleanup_all :
      (ids : List ℕ) (more : Program (Server A)) (s : Server A)
      → finish (cleanup_all ids more) s
        ≡ finish more (record s { network = disconnect_all ids s.network })
  unfolding cleanup_all disconnect_all
  finish-cleanup_all [] more s = refl
  finish-cleanup_all (id ∷ ids) more s =
      finish-cleanup id _ s
      ∙ finish-cleanup_all ids more (record s { network = disconnect_client id s.network })

  watch_alone : (now : ℕ) (s : Server A) → finish (watch_program now) s ≡ disconnect_timed_out now s
  unfolding finish watch_program disconnect_timed_out
  watch_alone now s = finish-cleanup_all _ done s

  -- What the threads run: the handlers, and the round of the main loop.
  pub data Handler (h : History A) (show_message : ChatMessage → Text)
      : Program (Server A) → Type 0 where
    connect : (id : ℕ) (ip : Text) (now : ℕ) → Handler h show_message (connect_program id ip now)
    disconnect : (id : ℕ) → Handler h show_message (disconnect_program id)
    message :
        (id : ℕ) (bytes : Text) (clock : Clock)
        → Handler h show_message (message_program h show_message id bytes clock)
    watch : (now : ℕ) → Handler h show_message (watch_program now)

  -- A handler whose steps are made with no step of others between them does what the definition of the
  -- handler says: this holds for HandleConnect, HandleDisconnect, HandleMessage with every command, and
  -- the round of the main loop.
  pub handlers_alone :
      (h : History A) (show_message : ChatMessage → Text) (id : ℕ) (s : Server A)
      → ((ip : Text) (now : ℕ) → finish (connect_program id ip now) s ≡ handle_connect id ip now s)
        × (finish (disconnect_program id) s ≡ handle_disconnect id s)
        × ((bytes : Text) (clock : Clock)
            → finish (message_program h show_message id bytes clock) s
              ≡ handle_message h show_message id bytes clock s)
        × ((now : ℕ) → finish (watch_program now) s ≡ disconnect_timed_out now s)
  handlers_alone h show_message id s = (
    λ ip now. connect_alone id ip now s,
    disconnect_alone id s,
    λ bytes clock. message_alone h show_message id bytes clock s,
    λ now. watch_alone now s,
  )

  Handler-IsSafe :
      {h : History A} {show_message : ChatMessage → Text} {p : Program (Server A)}
      → Handler h show_message p
      → IsSafe p
  unfolding watch_program
  Handler-IsSafe (connect id ip now) = connect_program-IsSafe A id ip now
  Handler-IsSafe (disconnect id) = disconnect_program-IsSafe A id
  Handler-IsSafe {h} {show_message} (message id bytes clock) =
      message_program-IsSafe h show_message id bytes clock
  Handler-IsSafe (watch now) = λ s v. (v, λ t w. (w, cleanup_all-IsSafe _ done tt))

-- The server, and what is left to do of the handlers that have begun.
pub record World (A : Type 0) : Type 0 where
  pub server : Server A
  pub begun : List (Program (Server A))

module _ {A : Type 0} where
  -- One step of one thread.
  pub data Turn (h : History A) (show_message : ChatMessage → Text)
      : World A → World A → Type 0 where
    at_network :
        (e : Event) (w : World A)
        → IsPossible e w.server.network
        → Turn h show_message w
            (record w { server = record w.server { network = Tables.apply e w.server.network } })
    begins :
        (p : Program (Server A)) (w : World A)
        → Handler h show_message p
        → Turn h show_message w (record w { begun = p ∷ w.begun })
    goes_on :
        (w : World A) (xs ys : List (Program (Server A))) (change : Server A → Server A)
        (more : Server A → Program (Server A))
        → w.begun ≡ xs ++ step change more ∷ ys
        → Turn h show_message w
            (record { server = change w.server; begun = xs ++ more w.server ∷ ys })

  pub data Interleaved (h : History A) (show_message : ChatMessage → Text) : World A → Type 0 where
    start :
        (cfg : Config) (now : ℕ) (store : A)
        → Interleaved h show_message (record { server = new_server cfg now store; begun = [] })
    after :
        {v w : World A}
        → Interleaved h show_message v
        → Turn h show_message v w
        → Interleaved h show_message w

  record IsQuiet (w : World A) : Type 0 where
    sound : IsSound w.server
    safe : All IsSafe w.begun

  All-middle :
      (p q : Program (Server A)) (xs ys : List (Program (Server A)))
      → All IsSafe (xs ++ p ∷ ys)
      → IsSafe p × (IsSafe q → All IsSafe (xs ++ q ∷ ys))
  All-middle p q [] ys (safe, rest) = (safe, λ new. (new, rest))
  All-middle p q (x ∷ xs) ys (first, rest) =
      let (safe, put) = All-middle p q xs ys rest in (safe, λ new. (first, put new))

  Turn-IsQuiet :
      {h : History A} {show_message : ChatMessage → Text} {v w : World A}
      → Turn h show_message v w
      → IsQuiet v
      → IsQuiet w
  Turn-IsQuiet (at_network e w possible) quiet = record {
    sound =
        let v = quiet.sound in
        IsSound-keep w.server _ v v.rooms_reached
          (Tables.next e w.server.network v.network_reached possible) refl;
    safe = quiet.safe;
  }
  Turn-IsQuiet (begins p w handler) quiet = record {
    sound = quiet.sound;
    safe = (Handler-IsSafe handler, quiet.safe);
  }
  Turn-IsQuiet (goes_on w xs ys change more e) quiet =
      let (safe, put) = All-middle (step change more) (more w.server) xs ys (rw e at quiet.safe) in
      let (sound, rest) = safe w.server quiet.sound in record { sound = sound; safe = put rest }

  Interleaved-IsQuiet :
      {h : History A} {show_message : ChatMessage → Text} {w : World A}
      → Interleaved h show_message w
      → IsQuiet w
  Interleaved-IsQuiet {h} {show_message} (start cfg now store) = record {
    sound = ServerReach-IsSound {h = h} {show_message = show_message} (begin cfg now store);
    safe = tt;
  }
  Interleaved-IsQuiet (after r turn) = Turn-IsQuiet turn (Interleaved-IsQuiet r)

  -- However the handlers overlap, step by step, with one another, with the main loop and with what the
  -- network does: the member sets of the rooms agree with the table of the clients' rooms, the tables of
  -- clients and of sockets agree, and a registered name is not empty and does not start with '#'.
  pub overlapping_agrees :
      {h : History A} {show_message : ChatMessage → Text} {w : World A}
      → Interleaved h show_message w
      → Invariant.IsConsistent w.server.chat_rooms
        × Consistency.IsConsistent w.server.network
        × ((id : ℕ) (name : Text) → lookup id w.server.client_names ≡ some name → IsName name)
  overlapping_agrees r =
      let v = (Interleaved-IsQuiet r).sound in
      (rooms_agree v.rooms_reached, tables_agree v.network_reached, v.named)
