-- ===== src/Sockets/Address.antt =====
-- What a ban of the text that GetSocketAddress gives comes to.
use mathlib.Core.List.{append_cancel_left}
use multi_threaded_tcp_chat.Base.{ℕ, ◌≡◌, ap, sym, ◌∙◌, ◌||◌, some, arith, ◌==◌, nat_eq, text_eq}
use multi_threaded_tcp_chat.Base.Eq.{text_beq_iff}
use multi_threaded_tcp_chat.Base.Set.{contains-add}
use multi_threaded_tcp_chat.Base.Text.{Text, text, to_string}
use multi_threaded_tcp_chat.Commands.{read_digits}
use multi_threaded_tcp_chat.Commands.Numbers.{read_digits-to_string}
use multi_threaded_tcp_chat.ConnectionManager.{ConnectionManager, is_banned, ban}
use multi_threaded_tcp_chat.Sockets.{get_socket_address}

to_string_inj : (m n : ℕ) → to_string m ≡ to_string n → m ≡ n
to_string_inj m n e = sym (read_digits-to_string m) ∙ ap (read_digits 0) e ∙ read_digits-to_string n

same_port :
    (ip : Text) (p q : ℕ)
    → get_socket_address (some (ip, p)) ≡ get_socket_address (some (ip, q))
    → p ≡ q
unfolding get_socket_address
same_port ip p q e =
    to_string_inj p q (append_cancel_left (text ":") _ _ (append_cancel_left ip _ _ e))

-- After a ban of what GetSocketAddress says of a peer, which has the port in it, what it says of a
-- peer on the same machine is banned if the port is the same, or if it was banned before.
pub ban_address :
    (ip : Text) (p q : ℕ) (m : ConnectionManager)
    → is_banned (get_socket_address (some (ip, q))) (ban (get_socket_address (some (ip, p))) m)
      ≡ (p == q || is_banned (get_socket_address (some (ip, q))) m)
unfolding is_banned ban
ban_address ip p q m =
    let here = get_socket_address (some (ip, p)) in
    let there = get_socket_address (some (ip, q)) in
    ground (
      arith,
      contains-add here there m.banned_ips,
      text_beq_iff here there,
      same_port ip p q,
      λ (e : p ≡ q). ap (λ (k : ℕ). get_socket_address (some (ip, k))) e,
    )
