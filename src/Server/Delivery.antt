-- ===== src/Server/Delivery.antt =====
-- Who gets what: the lines that a broadcast and a private message put on the network.
use mathlib.Core.List.{append_assoc, append-nil}
use multi_threaded_tcp_chat.Base.{
  ℕ, ◌≡◌, ◌≢◌, refl, ap, sym, ◌∙◌, false, not, none, some, List, [], ◌∷◌, ◌++◌, map, arith, length,
  take, min, keep, ◌==◌, nat_eq, text_eq, Option-cases, Bool-cases, inl, inr,
}
use multi_threaded_tcp_chat.Base.Eq.{text_beq, text_beq_iff}
use multi_threaded_tcp_chat.Base.Text.{Text, text}
use multi_threaded_tcp_chat.Base.Map.{Map, lookup, Distinct}
use multi_threaded_tcp_chat.ChatRoom.{get_client_room, get_room_members}
use multi_threaded_tcp_chat.IocpServer.{
  ClientInfo, IocpServer, SendRequest, max_len, post_write, send,
}
use multi_threaded_tcp_chat.Server.{
  History, Server, as_line, deliver, deliver_others, send_to_client, get_client_name,
  broadcast_to_room,
}
use multi_threaded_tcp_chat.Server.Process.{find_client, run_whisper}

-- The call of WSASend that carries a line: its length, and its first 2048 bytes.
abbrev pub request : ℕ → ClientInfo → Text → SendRequest
request id c line = record {
  client_id = id;
  socket = c.socket;
  copied = take (min (length line) max_len) line;
  len = length line;
}

-- The calls of WSASend for a list of lines with their addressees, of which those that are not in the
-- table of clients get nothing.
abbrev pub requests : Map ℕ ClientInfo → List (ℕ × Text) → List SendRequest
requests clients [] = []
requests clients ((id, line) ∷ rest) = elim (lookup id clients) [
  | none ↦ requests clients rest
  | some c ↦ request id c line ∷ requests clients rest
]

abbrev pub sent : IocpServer → List (ℕ × Text) → IocpServer
sent n lines = record n { sends = n.sends ++ requests n.clients lines }

abbrev pub to_each : List ℕ → Text → List (ℕ × Text)
to_each ids message = map (λ (id : ℕ). (id, as_line message)) ids

requests-append :
    (clients : Map ℕ ClientInfo) (a b : List (ℕ × Text))
    → requests clients (a ++ b) ≡ requests clients a ++ requests clients b
requests-append clients [] b = refl
requests-append clients ((id, line) ∷ a) b = ground (arith, requests-append clients a b)

pub sent-append : (n : IocpServer) (a b : List (ℕ × Text)) → sent (sent n a) b ≡ sent n (a ++ b)
sent-append n a b =
    ap (λ (l : List SendRequest). record n { sends = l })
      (append_assoc n.sends (requests n.clients a) (requests n.clients b)
        ∙ ap (λ (l : List SendRequest). n.sends ++ l) (sym (requests-append n.clients a b)))

sent-nil : (n : IocpServer) → sent n [] ≡ n
sent-nil n = ap (λ (l : List SendRequest). record n { sends = l }) (append-nil n.sends)

pub deliver-sent :
    (id : ℕ) (message : Text) (n : IocpServer)
    → (message == []) ≡ false
    → deliver id message n ≡ sent n ((id, as_line message) ∷ [])
unfolding deliver send post_write
deliver-sent id message n some_text = elim (Option-cases (lookup id n.clients)) [
  | inl e ↦ ground (arith, some_text, e, sent-nil n)
  | inr (c, e) ↦ ground (arith, some_text, e)
]

deliver_others-sent :
    (excluded : ℕ) (ids : List ℕ) (message : Text) (n : IocpServer)
    → (message == []) ≡ false
    → deliver_others excluded ids message n
      ≡ sent n (to_each (keep (λ id. not (id == excluded)) ids) message)
unfolding deliver_others
deliver_others-sent excluded [] message n some_text = sym (sent-nil n)
deliver_others-sent excluded (id ∷ ids) message n some_text = elim (Bool-cases (id == excluded)) [
  | inl own ↦ rw own (deliver_others-sent excluded ids message n some_text)
  | inr other ↦ rw other (
      ap (deliver_others excluded ids message) (deliver-sent id message n some_text)
      ∙ deliver_others-sent excluded ids message _ some_text
      ∙ sent-append n ((id, as_line message) ∷ [])
          (to_each (keep (λ d. not (d == excluded)) ids) message))
]

pub literal_first : (b c : Text) → (b == []) ≡ false → ((b ++ c) == []) ≡ false
unfolding text_beq
literal_first [] c h = absurd (cc)
literal_first (x ∷ b) c h = refl

literal_second : (a b c : Text) → (b == []) ≡ false → ((a ++ b ++ c) == []) ≡ false
unfolding text_beq
literal_second [] b c h = literal_first b c h
literal_second (x ∷ a) b c h = refl

text_beq-not : (a : Text) → a ≢ [] → (a == []) ≡ false
text_beq-not a h = ground (arith, text_beq_iff a [], h)

find_client-lookup :
    (target_name : Text) (m : Map ℕ Text) (id : ℕ)
    → Distinct m
    → find_client target_name m ≡ some id
    → lookup id m ≡ some target_name
unfolding find_client lookup
find_client-lookup target_name [] id d h = absurd (cc)
find_client-lookup target_name ((i, name) ∷ m) id d h =
    ground (arith, text_beq_iff name target_name, d.0, find_client-lookup target_name m id d.1, h)

deliver_two :
    (first second : ℕ) (a b : Text) (n : IocpServer)
    → (a == []) ≡ false
    → (b == []) ≡ false
    → deliver second b (deliver first a n) ≡ sent n ((first, as_line a) ∷ (second, as_line b) ∷ [])
deliver_two first second a b n some_a some_b =
    ap (deliver second b) (deliver-sent first a n some_a)
    ∙ deliver-sent second b _ some_b
    ∙ sent-append n ((first, as_line a) ∷ []) ((second, as_line b) ∷ [])

module _ (clients : Map ℕ ClientInfo) (first second : ℕ) (a b : Text) where
  requests_both :
      (c d : ClientInfo)
      → lookup first clients ≡ some c
      → lookup second clients ≡ some d
      → requests clients ((first, a) ∷ (second, b) ∷ [])
        ≡ request first c a ∷ request second d b ∷ []
  requests_both c d e f = ground (arith, e, f)

  requests-second :
      (d : ClientInfo)
      → lookup first clients ≡ none
      → lookup second clients ≡ some d
      → requests clients ((first, a) ∷ (second, b) ∷ []) ≡ request second d b ∷ []
  requests-second d e f = ground (arith, e, f)

module _ {A : Type 0} where
  -- A chat message is stored once, in the room that the sender is in, under the sender's name, and its
  -- line goes to the members of that room other than the sender, once to each and in their order, as
  -- far as the server has them in its table. Nothing else of the server changes.
  pub broadcast_to_room-sent :
      (h : History A) (sender : ℕ) (message : Text) (now : ℕ) (s : Server A)
      → let name = get_client_name sender s in
        let room = get_client_room sender s.chat_rooms in
        broadcast_to_room h sender message now s ≡ record s {
          message_store =
              h.store now
                (record {
                  sender_id = sender;
                  sender_name = name;
                  room = room;
                  content = message;
                  timestamp = now;
                })
                s.message_store;
          network = sent s.network (
              to_each
                (keep (λ id. not (id == sender)) (get_room_members room s.chat_rooms))
                (name ++ text ": " ++ message));
        }
  unfolding broadcast_to_room text text_beq
  broadcast_to_room-sent h sender message now s =
      let name = get_client_name sender s in
      let room = get_client_room sender s.chat_rooms in
      ap
        (λ (n : IocpServer). record s {
          message_store =
              h.store now
                (record {
                  sender_id = sender;
                  sender_name = name;
                  room = room;
                  content = message;
                  timestamp = now;
                })
                s.message_store;
          network = n;
        })
        (deliver_others-sent sender (get_room_members room s.chat_rooms)
          (name ++ text ": " ++ message) s.network (literal_second name (text ": ") message refl))

  whisper-sent :
      (sender target : ℕ) (target_name private_msg : Text) (s : Server A)
      → Distinct s.client_names
      → target_name ≢ []
      → private_msg ≢ []
      → find_client target_name s.client_names ≡ some target
      → (lookup target s.client_names ≡ some target_name)
        × (run_whisper sender target_name private_msg s ≡ record s {
          network = sent s.network (
              (
                target,
                as_line
                    (text "[Whisper from " ++ get_client_name sender s ++ text "]:" ++ private_msg),
              )
              ∷ (sender, as_line (text "[Whisper to " ++ target_name ++ text "]:" ++ private_msg))
              ∷ []);
        })
  unfolding run_whisper send_to_client text text_beq
  whisper-sent sender target target_name private_msg s d named said found = (
    find_client-lookup target_name s.client_names target d found,
    rw (text_beq-not target_name named, text_beq-not private_msg said, found)
        (ap (λ (n : IocpServer). record s { network = n })
          (deliver_two target sender
            (text "[Whisper from " ++ get_client_name sender s ++ text "]:" ++ private_msg)
            (text "[Whisper to " ++ target_name ++ text "]:" ++ private_msg) s.network refl refl)),
  )

  -- A private message to a name that is registered is for one client that has that name, and changes
  -- nothing but what is sent: it is not stored. If that client and the sender are in the table of
  -- clients, there are two calls of WSASend more, the line to the one and then the line to the other,
  -- each with the first 2048 bytes of its line; of the two, one who is not in the table gets none.
  pub run_whisper-sent :
      (sender target : ℕ) (target_name private_msg : Text) (s : Server A)
      → Distinct s.client_names
      → target_name ≢ []
      → private_msg ≢ []
      → find_client target_name s.client_names ≡ some target
      → let name = get_client_name sender s in
        let to_target = as_line (text "[Whisper from " ++ name ++ text "]:" ++ private_msg) in
        let to_sender = as_line (text "[Whisper to " ++ target_name ++ text "]:" ++ private_msg) in
        let after = run_whisper sender target_name private_msg s in
        (lookup target s.client_names ≡ some target_name)
        × (after ≡ record s {
          network = sent s.network ((target, to_target) ∷ (sender, to_sender) ∷ []);
        })
        × ((c d : ClientInfo)
            → lookup target s.network.clients ≡ some c
            → lookup sender s.network.clients ≡ some d
            → after.network.sends
              ≡ s.network.sends ++ request target c to_target ∷ request sender d to_sender ∷ [])
        × (lookup target s.network.clients ≡ none
            → (d : ClientInfo) → lookup sender s.network.clients ≡ some d
            → after.network.sends ≡ s.network.sends ++ request sender d to_sender ∷ [])
  run_whisper-sent sender target target_name private_msg s d named said found =
      let name = get_client_name sender s in
      let to_target = as_line (text "[Whisper from " ++ name ++ text "]:" ++ private_msg) in
      let to_sender = as_line (text "[Whisper to " ++ target_name ++ text "]:" ++ private_msg) in
      let whole = whisper-sent sender target target_name private_msg s d named said found in
      let lines = ap (λ (t : Server A). t.network.sends) whole.1 in
      (
        whole.0,
        whole.1,
        λ c e at_target at_sender.
            lines
            ∙ ap (λ (l : List SendRequest). s.network.sends ++ l)
                (requests_both s.network.clients target sender to_target to_sender c e at_target
                  at_sender),
        λ gone e at_sender.
            lines
            ∙ ap (λ (l : List SendRequest). s.network.sends ++ l)
                (requests-second s.network.clients target sender to_target to_sender e gone
                  at_sender),
      )
