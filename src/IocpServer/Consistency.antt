-- ===== src/IocpServer/Consistency.antt =====
-- That the table of clients and the table of sockets agree, through each operation of IOCPServer.
use multi_threaded_tcp_chat.Base.{
  ℕ, ◌+◌, ◌<◌, ◌≡◌, refl, Bool, true, false, none, some, if_both, length, ltb, ◌==◌, nat_eq, arith,
  Option-cases, Bool-cases, inl, inr,
}
use multi_threaded_tcp_chat.Base.Text.{Text, text}
use multi_threaded_tcp_chat.Base.Map.{lookup, insert, lookup-insert, lookup-erase}
use multi_threaded_tcp_chat.IocpServer.{
  ClientInfo, IocpServer, ReadRequest, init, forget_client, cleanup_client, post_read, connected,
}
use multi_threaded_tcp_chat.IocpServer.Completions.{
  Accepted, Completion, timed_out, failed, failed_without_data, wake_up, read_done, write_done,
  handle_accept, touch, handle_read, handle_completion,
}

pub record IsConsistent (s : IocpServer) : Type 0 where
  pub known :
      (id : ℕ) (c : ClientInfo)
      → lookup id s.clients ≡ some c
      → (c.id ≡ id) × (id < s.next_client_id) × (lookup c.socket s.socket_to_id ≡ some id)
  pub mapped :
      (socket id : ℕ)
      → lookup socket s.socket_to_id ≡ some id
      → (c : ClientInfo) × (lookup id s.clients ≡ some c) × (c.socket ≡ socket)

pub init-IsConsistent : IsConsistent init
unfolding init lookup
init-IsConsistent = record { known = λ id c h. cc; mapped = λ socket id h. absurd (cc) }

pub forget_client-IsConsistent :
    (id : ℕ) (s : IocpServer) → IsConsistent s → IsConsistent (forget_client id s)
unfolding forget_client
forget_client-IsConsistent id s v = elim (Option-cases (lookup id s.clients)) [
  | inl e ↦ rw (e, forget_client) v
  | inr (c, e) ↦
      rw (e, forget_client)
        (record {
          known = λ j d h. ground (
            arith,
            lookup-erase id j s.clients,
            h,
            v.known j d,
            v.known id c e,
            lookup-erase c.socket d.socket s.socket_to_id,
          );
          mapped = λ socket j h.
              let (d, f, g) =
                v.mapped socket j
                  (ground (arith, h, lookup-erase c.socket socket s.socket_to_id)) in
              (
                d,
                ground (
                  arith,
                  lookup-erase id j s.clients,
                  h,
                  e,
                  f,
                  g,
                  lookup-erase c.socket socket s.socket_to_id,
                ),
                g,
              );
        })
]

entered-IsConsistent :
    (c : ClientInfo) (s : IocpServer)
    → c.id ≡ s.next_client_id
    → lookup c.socket s.socket_to_id ≡ none
    → IsConsistent s
    → IsConsistent (record s {
      next_client_id = c.id + 1;
      clients = insert c.id c s.clients;
      socket_to_id = insert c.socket c.id s.socket_to_id;
    })
entered-IsConsistent c s e fresh v = record {
  known = λ j d h. ground (
    arith,
    lookup-insert c.id j c s.clients,
    v.known j d,
    h,
    e,
    fresh,
    lookup-insert c.socket d.socket c.id s.socket_to_id,
  );
  mapped = λ socket j h. elim (Bool-cases (c.socket == socket)) [
    | inl own ↦ (
      c,
      ground (
        arith,
        own,
        h,
        lookup-insert c.socket socket c.id s.socket_to_id,
        lookup-insert c.id j c s.clients,
      ),
      ground (arith, own),
    )
    | inr other ↦
        let (d, f, g) =
          v.mapped socket j
            (ground (arith, other, h, lookup-insert c.socket socket c.id s.socket_to_id)) in
        (d, ground (arith, f, v.known j d f, e, lookup-insert c.id j c s.clients), g)
  ];
}

pub cleanup_client-IsConsistent :
    (id : ℕ) (s : IocpServer) → IsConsistent s → IsConsistent (cleanup_client id s)
unfolding cleanup_client
cleanup_client-IsConsistent id s v =
    let w = forget_client-IsConsistent id s v in record { known = w.known; mapped = w.mapped }

post_read-IsConsistent :
    (started : Bool) (io : ReadRequest) (s : IocpServer)
    → IsConsistent s
    → IsConsistent (post_read started io s)
unfolding post_read
post_read-IsConsistent true io s v = record { known = v.known; mapped = v.mapped }
post_read-IsConsistent false io s v =
    cleanup_client-IsConsistent io.client_id _ (record { known = v.known; mapped = v.mapped })

pub handle_accept-IsConsistent :
    (a : Accepted) (s : IocpServer)
    → lookup a.socket s.socket_to_id ≡ none
    → IsConsistent s
    → IsConsistent (handle_accept a s)
unfolding handle_accept
handle_accept-IsConsistent a s fresh v = elim (Bool-cases a.associated) [
  | inr refused ↦ rw refused (record { known = v.known; mapped = v.mapped })
  | inl joined ↦ rw joined (
      let w =
        entered-IsConsistent
          (record {
            id = s.next_client_id;
            socket = a.socket;
            name = text "anonymous";
            ip_address = a.address;
            state = connected;
            connected_at = a.now;
            last_activity = a.now;
            message_count = 0;
            current_room = text "general";
          })
          s refl fresh v in
      post_read-IsConsistent a.read_started _ _ (record { known = w.known; mapped = w.mapped }))
]

touch-IsConsistent : (id now : ℕ) (s : IocpServer) → IsConsistent s → IsConsistent (touch id now s)
unfolding touch
touch-IsConsistent id now s v = elim (Option-cases (lookup id s.clients)) [
  | inl e ↦ rw (e, touch) v
  | inr (c, e) ↦
      let c' = record c { last_activity = now; message_count = c.message_count + 1 } in
      rw (e, touch)
        (record {
          known = λ j d h.
              ground (arith, lookup-insert id j c' s.clients, h, v.known j d, v.known id c e);
          mapped = λ socket j h.
              let (d, f, g) = v.mapped socket j h in
              elim (Bool-cases (id == j)) [
                | inl same ↦ (
                  c',
                  ground (arith, same, lookup-insert id j c' s.clients),
                  ground (arith, same, e, f, g),
                )
                | inr other ↦ (d, ground (arith, other, f, lookup-insert id j c' s.clients), g)
              ];
        })
]

handle_read-IsConsistent :
    (io : ReadRequest) (received : Text) (now : ℕ) (started : Bool) (s : IocpServer)
    → IsConsistent s
    → IsConsistent (handle_read io received now started s)
unfolding handle_read
handle_read-IsConsistent io received now started s v =
    let w = touch-IsConsistent io.client_id now s v in
    post_read-IsConsistent started io _ (elim (Bool-cases (ltb 0 (length received))) [
      | inl some_bytes ↦ rw some_bytes (record { known = w.known; mapped = w.mapped })
      | inr nothing ↦ rw nothing w
    ])

pub handle_completion-IsConsistent :
    (c : Completion) (now : ℕ) (started : Bool) (s : IocpServer)
    → IsConsistent s
    → IsConsistent (handle_completion c now started s).1
unfolding handle_completion
handle_completion-IsConsistent timed_out now started s v = v
handle_completion-IsConsistent (failed id) now started s v = cleanup_client-IsConsistent id s v
handle_completion-IsConsistent failed_without_data now started s v = v
handle_completion-IsConsistent wake_up now started s v = v
handle_completion-IsConsistent (read_done io received) now started s v =
    if_both IsConsistent (length received == 0) (cleanup_client-IsConsistent io.client_id s v)
      (handle_read-IsConsistent io received now started s v)
handle_completion-IsConsistent (write_done id bytes) now started s v =
    if_both IsConsistent (bytes == 0) (cleanup_client-IsConsistent id s v) v

-- The tables are not touched.
pub keeps :
    (s t : IocpServer)
    → s.clients ≡ t.clients
    → s.socket_to_id ≡ t.socket_to_id
    → s.next_client_id ≡ t.next_client_id
    → IsConsistent t
    → IsConsistent s
keeps s t e f g v = record {
  known = λ id c h. ground (arith, e, f, g, h, v.known id c);
  mapped = λ socket id h.
      let (c, p, q) = v.mapped socket id (ground (arith, f, h)) in (c, ground (arith, e, p), q);
}
