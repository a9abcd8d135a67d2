-- ===== src/Server/Silence.antt =====
-- What a client that is muted or too fast can do: nothing that others see.
use multi_threaded_tcp_chat.Base.{
  ℕ, ◌-◌, ◌≡◌, refl, ap, ◌∙◌, true, false, List, [], ◌∷◌, ◌++◌, if◌then◌else◌, arith, ◌==◌, nat_eq,
  text_eq, Bool-cases, inl, inr,
}
use multi_threaded_tcp_chat.Base.Eq.{text_beq}
use multi_threaded_tcp_chat.Base.Text.{Text, text}
use multi_threaded_tcp_chat.ConnectionManager.{
  ConnectionManager, is_muted, allow_message, check_rate, on_disconnect, allow_connection,
}
use multi_threaded_tcp_chat.IocpServer.{
  IocpServer, Task, disconnect_client, cleanup_client, enqueue,
}
use multi_threaded_tcp_chat.IocpServer
use multi_threaded_tcp_chat.IocpServer.Writes.{tasks-forget_client}
use multi_threaded_tcp_chat.MessageStore.{ChatMessage}
use multi_threaded_tcp_chat.Commands.{trim_end}
use multi_threaded_tcp_chat.Server.{
  History, Server, as_line, send_to_client, handle_connect, handle_disconnect,
}
use multi_threaded_tcp_chat.Server.Message.{Clock, handle_message}
use multi_threaded_tcp_chat.Server.Delivery.{sent, deliver-sent}

allow_message-muted :
    (c t u : ℕ) (m : ConnectionManager)
    → (is_muted c t m).0 ≡ true
    → allow_message c t u m ≡ (false, m)
unfolding allow_message is_muted
allow_message-muted c t u m h = ground (arith, h)

pub current_connections-allow_connection :
    (ip : Text) (now : ℕ) (m : ConnectionManager)
    → (allow_connection ip now m).1.current_connections ≡ m.current_connections
unfolding allow_connection check_rate
current_connections-allow_connection ip now m = ground arith

pub current_connections-on_disconnect :
    (m : ConnectionManager) → (on_disconnect m).current_connections ≡ m.current_connections - 1
unfolding on_disconnect
current_connections-on_disconnect m = ground arith

tasks-disconnect_client :
    (id : ℕ) (n : IocpServer)
    → (disconnect_client id n).tasks ≡ n.tasks ++ IocpServer.on_disconnect id ∷ []
unfolding disconnect_client cleanup_client enqueue
tasks-disconnect_client id n =
    ap (λ (ts : List Task). ts ++ IocpServer.on_disconnect id ∷ []) (tasks-forget_client id n)

module _ {A : Type 0} where
  -- Whatever a muted client sends, the server stays as it was but for one line to that client, which
  -- asks it to slow down; a message of nothing but line ends does not even get that.
  pub muted_silenced :
      (h : History A) (show_message : ChatMessage → Text) (id : ℕ) (message : Text) (clock : Clock)
      (s : Server A)
      → (is_muted id clock.check.asked_mute s.connection_manager).0 ≡ true
      → handle_message h show_message id message clock s ≡ record s {
        network =
            if trim_end message == []
            then s.network
            else sent s.network
                ((id, as_line (text "You are sending too many messages. Please slow down.")) ∷ []);
      }
  unfolding handle_message send_to_client text text_beq
  muted_silenced h show_message id message clock s muted =
      elim (Bool-cases (trim_end message == [])) [
        | inl blank ↦ rw (blank, handle_message) refl
        | inr some_text ↦
            rw
              (
                some_text,
                allow_message-muted id clock.check.asked_mute clock.check.asked s.connection_manager
                    muted,
                handle_message,
              )
              (ap (λ (n : IocpServer). record s { network = n })
                (deliver-sent id (text "You are sending too many messages. Please slow down.")
                  s.network refl))
      ]

  -- A connection that AllowConnection turns away is thrown out, which puts a disconnection among the tasks.
  -- Once that task has run, the connection counter is one below its value before (if it was not 0),
  -- although this connection was never counted.
  pub refused_connection :
      (id : ℕ) (ip : Text) (now : ℕ) (s : Server A)
      → (allow_connection ip now s.connection_manager).0 ≡ false
      → let turned_away = handle_connect id ip now s in
        (turned_away.network.tasks ≡ s.network.tasks ++ IocpServer.on_disconnect id ∷ [])
        × ((handle_disconnect id turned_away).connection_manager.current_connections
            ≡ s.connection_manager.current_connections - 1)
  unfolding handle_connect handle_disconnect
  refused_connection id ip now s away =
      rw (away, handle_connect)
        (
          tasks-disconnect_client id s.network,
          current_connections-on_disconnect (allow_connection ip now s.connection_manager).1
              ∙ ap (λ (k : ℕ). k - 1)
                  (current_connections-allow_connection ip now s.connection_manager),
        )
