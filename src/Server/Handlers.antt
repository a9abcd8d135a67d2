-- ===== src/Server/Handlers.antt =====
-- Each command, and HandleMessage as a whole, keeps the invariant of the server.
use multi_threaded_tcp_chat.Base.{
  ℕ, ◌≡◌, ◌≢◌, refl, Bool, true, false, not, ◌&&◌, [], if_both, arith, ◌==◌, nat_eq, text_eq,
  Option-cases, Bool-cases, inl, inr,
}
use multi_threaded_tcp_chat.Base.Eq.{text_beq_iff}
use multi_threaded_tcp_chat.Base.Int.{ℤ}
use multi_threaded_tcp_chat.Base.Text.{Text, text}
use multi_threaded_tcp_chat.Base.Map.{lookup-insert}
use multi_threaded_tcp_chat.ConnectionManager.{Config, is_muted, allow_message, record_message}
use multi_threaded_tcp_chat.ConnectionManager
use multi_threaded_tcp_chat.MessageStore.{ChatMessage}
use multi_threaded_tcp_chat.IocpServer.{get_client, disconnect_client}
use multi_threaded_tcp_chat.Commands.{
  trim_end, Command, parse_command, exit_command, help_command, rooms_command, leave_command,
  online_command, unknown_command, join_command, create_command, kick_command, ban_command,
  whisper_command, history_command, mute_command,
}
use multi_threaded_tcp_chat.Server.{History, Server, default_name, send_to_client, get_client_name}
use multi_threaded_tcp_chat.Server.Process.{
  find_client, run_online, run_history, run_kick, run_ban, run_mute, run_command,
}
use multi_threaded_tcp_chat.Server.Message.{
  Clock, starts_with_hash, process_command, register, accept_message, handle_message,
}
use multi_threaded_tcp_chat.Server.Invariant.{
  IsSound, IsName, IsSound-keep, deliver_others-Reach, disconnect-Reach, send_to_client-IsSound,
  broadcast_to_room-IsSound, run_join-IsSound, run_create-IsSound, run_leave-IsSound,
  run_whisper-IsSound,
}

module _ {A : Type 0} where
  -- Somebody is told, thrown out, and the caller is told.
  thrown_out-IsSound :
      (id target : ℕ) (first last : Text) (s : Server A)
      → IsSound s
      → IsSound (
          let told = send_to_client target first s in
          send_to_client id last (record told { network = disconnect_client target told.network }))
  thrown_out-IsSound id target first last s v =
      let told = send_to_client-IsSound target first s v in
      send_to_client-IsSound id last _ (
        IsSound-keep (send_to_client target first s) _ told told.rooms_reached
          (disconnect-Reach target _ told.network_reached) refl)

  run_kick-IsSound :
      (id : ℕ) (target : Text) (s : Server A) → IsSound s → IsSound (run_kick id target s)
  unfolding run_kick
  run_kick-IsSound id target s v = elim (Option-cases (find_client target s.client_names)) [
    | inl e ↦ rw (e, run_kick) (send_to_client-IsSound id _ s v)
    | inr (t, e) ↦ rw (e, run_kick) (thrown_out-IsSound id t _ _ s v)
  ]

  run_ban-IsSound :
      (id : ℕ) (target : Text) (s : Server A) → IsSound s → IsSound (run_ban id target s)
  unfolding run_ban
  run_ban-IsSound id target s v = elim (Option-cases (find_client target s.client_names)) [
    | inl e ↦ rw (e, run_ban) (send_to_client-IsSound id _ s v)
    | inr (t, e) ↦
        rw (e, run_ban)
          (elim (Option-cases (get_client t s.network)) [
            | inl f ↦ rw f v
            | inr (c, f) ↦ rw f (
                thrown_out-IsSound id t _ _ _
                  (IsSound-keep s _ v v.rooms_reached v.network_reached refl))
          ])
  ]

  run_mute-IsSound :
      (id : ℕ) (target : Text) (duration : ℤ) (now : ℕ) (s : Server A)
      → IsSound s
      → IsSound (run_mute id target duration now s)
  unfolding run_mute
  run_mute-IsSound id target duration now s v =
      elim (Option-cases (find_client target s.client_names)) [
        | inl e ↦ rw (e, run_mute) (send_to_client-IsSound id _ s v)
        | inr (t, e) ↦
            rw (e, run_mute)
              (send_to_client-IsSound id _ _ (
                send_to_client-IsSound t _ _
                  (IsSound-keep s _ v v.rooms_reached v.network_reached refl)))
      ]

  run_command-IsSound :
      (h : History A) (show_message : ChatMessage → Text) (id : ℕ) (c : Command) (now : ℕ)
      (s : Server A)
      → IsSound s
      → IsSound (run_command h show_message id c now s)
  unfolding run_command
  run_command-IsSound h show_message id exit_command now s v =
      IsSound-keep s _ v v.rooms_reached (disconnect-Reach id s.network v.network_reached) refl
  run_command-IsSound h show_message id help_command now s v = send_to_client-IsSound id _ s v
  run_command-IsSound h show_message id rooms_command now s v = send_to_client-IsSound id _ s v
  run_command-IsSound h show_message id (join_command room) now s v = run_join-IsSound id room s v
  run_command-IsSound h show_message id (create_command room) now s v =
      run_create-IsSound id room now s v
  run_command-IsSound h show_message id leave_command now s v = run_leave-IsSound id s v
  run_command-IsSound h show_message id online_command now s v =
      unfold run_online in send_to_client-IsSound id _ s v
  run_command-IsSound h show_message id (whisper_command target msg) now s v =
      run_whisper-IsSound id target msg s v
  run_command-IsSound h show_message id (history_command n) now s v =
      unfold run_history in send_to_client-IsSound id _ s v
  run_command-IsSound h show_message id (kick_command target) now s v =
      run_kick-IsSound id target s v
  run_command-IsSound h show_message id (ban_command target) now s v = run_ban-IsSound id target s v
  run_command-IsSound h show_message id (mute_command target d) now s v =
      run_mute-IsSound id target d now s v
  run_command-IsSound h show_message id unknown_command now s v = send_to_client-IsSound id _ s v

  register-IsSound :
      (id : ℕ) (name : Text) (s : Server A) → IsName name → IsSound s → IsSound (register id name s)
  unfolding register
  register-IsSound id name s good v = record {
    rooms_reached = v.rooms_reached;
    network_reached = deliver_others-Reach id _ _ s.network v.network_reached;
    named = λ other n e. elim (Bool-cases (id == other)) [
      | inl same ↦ ground (arith, lookup-insert id other name s.client_names, same, e, good)
      | inr different ↦
          v.named other n (ground (arith, lookup-insert id other name s.client_names, different, e))
    ];
  }

  accept_message-IsSound :
      (h : History A) (show_message : ChatMessage → Text) (id : ℕ) (msg : Text) (now : ℕ)
      (s : Server A)
      → msg ≢ []
      → IsSound s
      → IsSound (accept_message h show_message id msg now s)
  unfolding accept_message
  accept_message-IsSound h show_message id msg now s some_text v =
      elim (Bool-cases (starts_with_hash msg)) [
        | inl command ↦
            rw (command, and-false (get_client_name id s == default_name id))
              (unfold process_command in
                run_command-IsSound h show_message id (parse_command msg) now s v)
        | inr plain ↦ rw plain (
            if_both IsSound ((get_client_name id s == default_name id) && true)
              (register-IsSound id msg s (some_text, plain) v)
              (broadcast_to_room-IsSound h id msg now s v))
      ]
    where
      and-false : (b : Bool) → (b && false) ≡ false
      and-false b = ground arith

  pub handle_message-IsSound :
      (h : History A) (show_message : ChatMessage → Text) (id : ℕ) (message : Text) (clock : Clock)
      (s : Server A)
      → IsSound s
      → IsSound (handle_message h show_message id message clock s)
  unfolding handle_message
  handle_message-IsSound h show_message id message clock s v =
      let kept = λ (m : ConnectionManager.ConnectionManager).
        IsSound-keep s (record s { connection_manager = m }) v v.rooms_reached v.network_reached
          refl in
      let asked = allow_message id clock.check.asked_mute clock.check.asked s.connection_manager in
      let checked =
        is_muted id clock.mute_check
          (record_message id clock.check.recorded clock.check.active asked.1) in
      elim (Bool-cases (trim_end message == [])) [
        | inl blank ↦ rw blank v
        | inr some_text ↦ rw some_text (
            if_both IsSound (not asked.0)
              (send_to_client-IsSound id
                (text "You are sending too many messages. Please slow down.") _ (kept asked.1))
              (if_both IsSound checked.0
                (send_to_client-IsSound id (text "You are muted.") _ (kept checked.1))
                (accept_message-IsSound h show_message id (trim_end message) clock.action _
                  (ground (arith, some_text, text_beq_iff (trim_end message) []))
                  (kept checked.1))))
      ]
