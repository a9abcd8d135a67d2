-- ===== src/Server/CommandRooms.antt =====
-- What a command of server.cpp does to the members of the rooms.
use multi_threaded_tcp_chat.Base.{
  ℕ, ◌≡◌, refl, ap, Bool, true, false, not, Option, none, some, [], if◌then◌else◌, arith, ◌==◌,
  nat_eq, text_eq, text_beq, Option-cases, Bool-cases, inl, inr,
}
use multi_threaded_tcp_chat.Base.Int.{ℤ}
use multi_threaded_tcp_chat.Base.Eq.{text_beq_iff}
use multi_threaded_tcp_chat.Base.Text.{Text}
use multi_threaded_tcp_chat.Base.Map.{Map, lookup, lookup-insert}
use multi_threaded_tcp_chat.Base.Set.{contains}
use multi_threaded_tcp_chat.ChatRoom.{
  Room, ChatRoomManager, general, new_room, create_room, join_room, get_client_room, room_exists,
}
use multi_threaded_tcp_chat.ChatRoom.Members.{member_of}
use multi_threaded_tcp_chat.ChatRoom.Invariant.{IsConsistent, create_room-IsConsistent}
use multi_threaded_tcp_chat.ChatRoom.Reach.{Reach, rooms_agree}
use multi_threaded_tcp_chat.ChatRoom.Moves.{admits, join_room-member_of}
use multi_threaded_tcp_chat.ChatRoom.Open.{general-admits}
use multi_threaded_tcp_chat.MessageStore.{ChatMessage}
use multi_threaded_tcp_chat.IocpServer.{get_client}
use multi_threaded_tcp_chat.Commands.{
  Command, exit_command, help_command, rooms_command, leave_command, online_command,
  unknown_command, join_command, create_command, kick_command, ban_command, whisper_command,
  history_command, mute_command,
}
use multi_threaded_tcp_chat.Server.{History, Server, send_to_client}
use multi_threaded_tcp_chat.Server.Process.{
  find_client, run_join, run_create, run_leave, run_online, run_whisper, run_history, run_kick,
  run_ban, run_mute, run_command,
}

create_room-member_of :
    (m : ChatRoomManager) (name : Text) (owner now : ℕ) (n : Text) (d : ℕ)
    → member_of (create_room name owner false [] now m).1.rooms n d ≡ member_of m.rooms n d
unfolding create_room member_of contains new_room
create_room-member_of m name owner now n d = elim (Option-cases (lookup name m.rooms)) [
  | inr (r, e) ↦ rw (e, create_room) refl
  | inl e ↦
      rw (e, create_room)
        (ground (
          arith,
          lookup-insert name n
              (record (new_room name owner now) { is_private = false; password = [] }) m.rooms,
          text_beq_iff name n,
          e,
        ))
]

-- CreateRoom succeeds when there is no room of that name; the new one, without a password, takes
-- everybody.
create_room-admits :
    (m : ChatRoomManager) (name : Text) (owner now : ℕ)
    → ((create_room name owner false [] now m).0 ≡ not (room_exists name m))
      × ((room_exists name m ≡ false)
          → (admits (create_room name owner false [] now m).1 name [] ≡ true))
unfolding create_room room_exists
create_room-admits m name owner now = elim (Option-cases (lookup name m.rooms)) [
  | inr (r, e) ↦ rw (e, create_room) (refl, λ missing. ground (arith, missing))
  | inl e ↦
      rw (e, create_room)
        (
          refl,
          λ missing. ground (
            arith,
            lookup-insert name name
                (record (new_room name owner now) { is_private = false; password = [] }) m.rooms,
            text_beq_iff name name,
          ),
        )
]

-- The client `id` is in `room` and in no other, and the others are where they were.
abbrev placed_in : Option Text → ℕ → Map Text Room → Text → ℕ → Bool
placed_in none id rooms n d = member_of rooms n d
placed_in (some room) id rooms n d = if id == d then text_beq room n else member_of rooms n d

moved :
    (id : ℕ) (name : Text) (m : ChatRoomManager) (n : Text) (d : ℕ)
    → IsConsistent m
    → admits m name [] ≡ true
    → member_of (join_room name id [] m).1.rooms n d ≡ placed_in (some name) id m.rooms n d
moved id name m n d v let_in = ground (arith, (join_room-member_of m name id [] v).1 n d, let_in)

module _ {A : Type 0} where
  -- The room that a command takes its caller to, if it takes it anywhere.
  unfoldable pub destination : ℕ → Command → Server A → Option Text
  destination id exit_command s = none
  destination id help_command s = none
  destination id rooms_command s = none
  destination id (join_command name) s =
      if name == []
      then none
      else if get_client_room id s.chat_rooms == name
      then none
      else if admits s.chat_rooms name []
      then some name
      else none
  destination id (create_command name) s =
      if name == [] then none else if room_exists name s.chat_rooms then none else some name
  destination id leave_command s =
      if get_client_room id s.chat_rooms == general then none else some general
  destination id online_command s = none
  destination id (whisper_command target msg) s = none
  destination id (history_command number) s = none
  destination id (kick_command target) s = none
  destination id (ban_command target) s = none
  destination id (mute_command target duration) s = none
  destination id unknown_command s = none

  run_join-rooms :
      (id : ℕ) (name : Text) (s : Server A) (n : Text) (d : ℕ)
      → IsConsistent s.chat_rooms
      → member_of (run_join id name s).chat_rooms.rooms n d
        ≡ placed_in (destination id (join_command name) s) id s.chat_rooms.rooms n d
  unfolding run_join destination send_to_client
  run_join-rooms id name s n d v =
      let (joined, effect) = join_room-member_of s.chat_rooms name id [] v in
      ground (arith, joined, effect n d)

  run_create-rooms :
      (id : ℕ) (name : Text) (now : ℕ) (s : Server A) (n : Text) (d : ℕ)
      → IsConsistent s.chat_rooms
      → member_of (run_create id name now s).chat_rooms.rooms n d
        ≡ placed_in (destination id (create_command name) s) id s.chat_rooms.rooms n d
  unfolding run_create destination send_to_client
  run_create-rooms id name now s n d v =
      let (made, let_in) = create_room-admits s.chat_rooms name id now in
      let with_room = (create_room name id false [] now s.chat_rooms).1 in
      let same = create_room-member_of s.chat_rooms name id now n d in
      let sound = create_room-IsConsistent s.chat_rooms v name id false [] now in
      elim (Bool-cases (room_exists name s.chat_rooms)) [
        | inl e ↦ ground (arith, made, same, e)
        | inr e ↦ ground (arith, made, same, e, moved id name with_room n d sound (let_in e))
      ]

  run_leave-rooms :
      (id : ℕ) (s : Server A) (n : Text) (d : ℕ)
      → Reach s.chat_rooms
      → member_of (run_leave id s).chat_rooms.rooms n d
        ≡ placed_in (destination id leave_command s) id s.chat_rooms.rooms n d
  unfolding run_leave destination send_to_client
  run_leave-rooms id s n d r =
      ground (arith, moved id general s.chat_rooms n d (rooms_agree r) (general-admits [] r))

  run_kick-rooms :
      (id : ℕ) (target : Text) (s : Server A) → (run_kick id target s).chat_rooms ≡ s.chat_rooms
  unfolding run_kick send_to_client
  run_kick-rooms id target s = elim (Option-cases (find_client target s.client_names)) [
    | inl e ↦ rw (e, run_kick) refl
    | inr (t, e) ↦ rw (e, run_kick) refl
  ]

  run_ban-rooms :
      (id : ℕ) (target : Text) (s : Server A) → (run_ban id target s).chat_rooms ≡ s.chat_rooms
  unfolding run_ban send_to_client
  run_ban-rooms id target s = elim (Option-cases (find_client target s.client_names)) [
    | inl e ↦ rw (e, run_ban) refl
    | inr (t, e) ↦
        rw (e, run_ban)
          (elim (Option-cases (get_client t s.network)) [
            | inl f ↦ rw f refl
            | inr (c, f) ↦ rw f refl
          ])
  ]

  run_mute-rooms :
      (id : ℕ) (target : Text) (duration : ℤ) (now : ℕ) (s : Server A)
      → (run_mute id target duration now s).chat_rooms ≡ s.chat_rooms
  unfolding run_mute send_to_client
  run_mute-rooms id target duration now s =
      elim (Option-cases (find_client target s.client_names)) [
        | inl e ↦ rw (e, run_mute) refl
        | inr (t, e) ↦ rw (e, run_mute) refl
      ]

  run_whisper-rooms :
      (id : ℕ) (target msg : Text) (s : Server A)
      → (run_whisper id target msg s).chat_rooms ≡ s.chat_rooms
  unfolding run_whisper send_to_client
  run_whisper-rooms id target msg s = elim (Option-cases (find_client target s.client_names)) [
    | inl e ↦ ground (arith, e)
    | inr (t, e) ↦ ground (arith, e)
  ]

  -- What a command does to the members of the rooms. #join takes its caller to a room that is not the one
  -- it is in, exists, and has no password; #create to the room it makes, which must not be there
  -- yet; #leave to "general", if the caller is elsewhere, and always gets it there. The caller is then in that
  -- room and in no other, and everybody else stays. Every other command, also #kick, #ban and
  -- #exit, and each of the three where it fails, leaves all members where they are (somebody who is
  -- thrown out leaves its room when HandleDisconnect runs).
  pub command_moves :
      (h : History A) (show_message : ChatMessage → Text) (id : ℕ) (c : Command) (now : ℕ)
      (s : Server A)
      → Reach s.chat_rooms
      → (n : Text) (d : ℕ)
      → member_of (run_command h show_message id c now s).chat_rooms.rooms n d
        ≡ placed_in (destination id c s) id s.chat_rooms.rooms n d
  unfolding run_command destination send_to_client
  command_moves h show_message id exit_command now s r n d = refl
  command_moves h show_message id help_command now s r n d = refl
  command_moves h show_message id rooms_command now s r n d = refl
  command_moves h show_message id (join_command name) now s r n d =
      run_join-rooms id name s n d (rooms_agree r)
  command_moves h show_message id (create_command name) now s r n d =
      run_create-rooms id name now s n d (rooms_agree r)
  command_moves h show_message id leave_command now s r n d = run_leave-rooms id s n d r
  command_moves h show_message id online_command now s r n d = unfold run_online in refl
  command_moves h show_message id (whisper_command target msg) now s r n d =
      ap (λ (m : ChatRoomManager). member_of m.rooms n d) (run_whisper-rooms id target msg s)
  command_moves h show_message id (history_command number) now s r n d = unfold run_history in refl
  command_moves h show_message id (kick_command target) now s r n d =
      ap (λ (m : ChatRoomManager). member_of m.rooms n d) (run_kick-rooms id target s)
  command_moves h show_message id (ban_command target) now s r n d =
      ap (λ (m : ChatRoomManager). member_of m.rooms n d) (run_ban-rooms id target s)
  command_moves h show_message id (mute_command target duration) now s r n d =
      ap (λ (m : ChatRoomManager). member_of m.rooms n d) (run_mute-rooms id target duration now s)
  command_moves h show_message id unknown_command now s r n d = refl
