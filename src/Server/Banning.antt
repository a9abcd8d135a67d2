-- ===== src/Server/Banning.antt =====
-- What #ban of server.cpp comes to, from the address of the client to the next connection.
use multi_threaded_tcp_chat.Base.{
  ℕ, ◌≡◌, refl, ap, ◌∙◌, true, false, ◌||◌, some, arith, ◌==◌, nat_eq, text_eq,
}
use multi_threaded_tcp_chat.Base.Text.{Text}
use multi_threaded_tcp_chat.Base.Map.{lookup-insert_self}
use multi_threaded_tcp_chat.ConnectionManager.{ConnectionManager, ban, is_banned, allow_connection}
use multi_threaded_tcp_chat.Sockets.{get_socket_address}
use multi_threaded_tcp_chat.Sockets.Address.{ban_address}
use multi_threaded_tcp_chat.IocpServer.{ClientInfo, IocpServer, get_client, post_read, enqueue}
use multi_threaded_tcp_chat.IocpServer.Completions.{Accepted, handle_accept}
use multi_threaded_tcp_chat.Server.{Server, send_to_client}
use multi_threaded_tcp_chat.Server.Process.{find_client, run_ban}

-- HandleAccept files the client under the address that it is told.
address-handle_accept :
    (a : Accepted) (n : IocpServer)
    → a.associated ≡ true
    → a.read_started ≡ true
    → (c : ClientInfo) × (get_client n.next_client_id (handle_accept a n) ≡ some c)
      × (c.ip_address ≡ a.address)
unfolding handle_accept post_read enqueue get_client
address-handle_accept a n joined reads =
    rw (joined, reads, handle_accept) (_, lookup-insert_self n.next_client_id _ n.clients, refl)

refuses-banned :
    (ip : Text) (now : ℕ) (m : ConnectionManager)
    → is_banned ip m ≡ true
    → (allow_connection ip now m).0 ≡ false
unfolding allow_connection
refuses-banned ip now m h = ground (arith, h)

module _ {A : Type 0} where
  banned-run_ban :
      (id target : ℕ) (name : Text) (s : Server A) (c : ClientInfo)
      → find_client name s.client_names ≡ some target
      → get_client target s.network ≡ some c
      → (run_ban id name s).connection_manager ≡ ban c.ip_address s.connection_manager
  unfolding run_ban send_to_client
  banned-run_ban id target name s c found there = ground (arith, found, there)

  -- HandleAccept files a connection under what GetSocketAddress says of its socket, which has the port in
  -- it; that is also what #ban bans, when it is used on a client with such an address. After it,
  -- AllowConnection refuses that address; but an address of the same machine with another port is banned
  -- only if it was before.
  pub ban_one_port :
      (ip : Text) (p : ℕ)
      → ((a : Accepted) (n : IocpServer)
          → a.associated ≡ true
          → a.read_started ≡ true
          → a.address ≡ get_socket_address (some (ip, p))
          → (c : ClientInfo) × (get_client n.next_client_id (handle_accept a n) ≡ some c)
            × (c.ip_address ≡ get_socket_address (some (ip, p))))
        × ((id target : ℕ) (name : Text) (s : Server A) (c : ClientInfo)
            → find_client name s.client_names ≡ some target
            → get_client target s.network ≡ some c
            → c.ip_address ≡ get_socket_address (some (ip, p))
            → let after = (run_ban id name s).connection_manager in
              ((now : ℕ)
                → (allow_connection (get_socket_address (some (ip, p))) now after).0 ≡ false)
              × ((q : ℕ)
                  → is_banned (get_socket_address (some (ip, q))) after ≡ (
                      p == q
                      || is_banned (get_socket_address (some (ip, q))) s.connection_manager)))
  ban_one_port ip p = (
    λ a n joined reads at.
        let (c, there, address) = address-handle_accept a n joined reads in
        (c, there, address ∙ at),
    λ id target name s c found there at.
        let here = get_socket_address (some (ip, p)) in
        let banned : (run_ban id name s).connection_manager ≡ ban here s.connection_manager =
          banned-run_ban id target name s c found there
          ∙ ap (λ (address : Text). ban address s.connection_manager) at in
        let each = λ (q : ℕ).
          ap (is_banned (get_socket_address (some (ip, q)))) banned
          ∙ ban_address ip p q s.connection_manager in
        (λ now. refuses-banned here now _ (ground (arith, each p)), each),
  )
