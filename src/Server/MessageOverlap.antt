-- ===== src/Server/MessageOverlap.antt =====
-- The program of HandleMessage keeps the server sound at each step.
use multi_threaded_tcp_chat.Base.{
  ℕ, ◌≡◌, ◌≢◌, refl, Bool, true, false, not, ◌&&◌, [], if_both, arith, ◌==◌, nat_eq, text_eq,
  Bool-cases, inl, inr,
}
use multi_threaded_tcp_chat.Base.Eq.{text_beq_iff}
use multi_threaded_tcp_chat.Base.Text.{Text}
use multi_threaded_tcp_chat.Base.Map.{lookup-insert}
use multi_threaded_tcp_chat.ConnectionManager.{is_muted, check_messages}
use multi_threaded_tcp_chat.MessageStore.{ChatMessage}
use multi_threaded_tcp_chat.Commands.{trim_end, parse_command}
use multi_threaded_tcp_chat.Server.{History, default_name, get_client_name, set_client_name}
use multi_threaded_tcp_chat.Server.Message.{Clock, starts_with_hash}
use multi_threaded_tcp_chat.Server.Invariant.{IsName, IsSound-keep}
use multi_threaded_tcp_chat.Server.Program.{done}
use multi_threaded_tcp_chat.Server.MessageProgram.{
  register_program, accept_program, refuse, message_program,
}
use multi_threaded_tcp_chat.Server.Overlap.{IsSafe, say_others-IsSafe, broadcast_program-IsSafe}
use multi_threaded_tcp_chat.Server.CommandOverlap.{say_done-IsSafe, command_program-IsSafe}

module _ (A : Type 0) where
  register_program-IsSafe :
      (id : ℕ) (name : Text) → IsName name → IsSafe {A = A} (register_program id name)
  unfolding register_program set_client_name
  register_program-IsSafe id name good = λ s v. (
    record {
      rooms_reached = v.rooms_reached;
      network_reached = v.network_reached;
      named = λ other n e. elim (Bool-cases (id == other)) [
        | inl same ↦ ground (arith, lookup-insert id other name s.client_names, same, e, good)
        | inr different ↦
            v.named other n
              (ground (arith, lookup-insert id other name s.client_names, different, e))
      ];
    },
    λ t w. (w, λ u x. (x, say_others-IsSafe id _ _ done tt)),
  )

module _ {A : Type 0} where
  accept_program-IsSafe :
      (h : History A) (show_message : ChatMessage → Text) (id : ℕ) (msg : Text) (now : ℕ)
      → msg ≢ []
      → IsSafe (accept_program h show_message id msg now)
  unfolding accept_program
  accept_program-IsSafe h show_message id msg now some_text =
      elim (Bool-cases (starts_with_hash msg)) [
        | inl command ↦ λ s v. (
          v,
          rw (command, and-false (get_client_name id s == default_name id))
              (command_program-IsSafe h show_message id (parse_command msg) now),
        )
        | inr plain ↦ λ s v. (
          v,
          rw plain (
              if_both IsSafe ((get_client_name id s == default_name id) && true)
                (register_program-IsSafe A id msg (some_text, plain))
                (broadcast_program-IsSafe h id msg now)),
        )
      ]
    where
      and-false : (b : Bool) → (b && false) ≡ false
      and-false b = ground arith

  pub message_program-IsSafe :
      (h : History A) (show_message : ChatMessage → Text) (id : ℕ) (message : Text) (clock : Clock)
      → IsSafe (message_program h show_message id message clock)
  unfolding message_program refuse
  message_program-IsSafe h show_message id message clock =
      elim (Bool-cases (trim_end message == [])) [
        | inl blank ↦ rw blank tt
        | inr some_text ↦ rw some_text (λ s v. (
          IsSound-keep s _ v v.rooms_reached v.network_reached refl,
          if_both IsSafe (is_muted id clock.check.asked_mute s.connection_manager).0
              (say_done-IsSafe A id _)
              (λ t w. (
                IsSound-keep t _ w w.rooms_reached w.network_reached refl,
                if_both IsSafe (not (check_messages id clock.check.asked t.connection_manager).0)
                    (say_done-IsSafe A id _)
                    (λ a va. (
                      IsSound-keep a _ va va.rooms_reached va.network_reached refl,
                      λ b vb. (
                        IsSound-keep b _ vb vb.rooms_reached vb.network_reached refl,
                        if_both IsSafe (is_muted id clock.mute_check b.connection_manager).0
                            (say_done-IsSafe A id _)
                            (accept_program-IsSafe h show_message id (trim_end message) clock.action
                              (ground (arith, some_text, text_beq_iff (trim_end message) []))),
                      ),
                    )),
              )),
        ))
      ]
