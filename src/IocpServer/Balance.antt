-- ===== src/IocpServer/Balance.antt =====
-- What each operation of a client does to the account of the sockets.
use multi_threaded_tcp_chat.Base.{
  ℕ, ◌+◌, ◌≡◌, Bool, true, false, none, List, [], ◌∷◌, ◌++◌, if◌then◌else◌, if_both, length, ltb,
  ◌==◌, nat_eq, is_some, to_list, arith, Option-cases, Bool-cases, inl, inr,
}
use multi_threaded_tcp_chat.Base.Text.{Text, text}
use multi_threaded_tcp_chat.Base.Map.{lookup, insert, Distinct, insert-Distinct, erase-Distinct}
use multi_threaded_tcp_chat.IocpServer.{
  ClientInfo, IocpServer, ReadRequest, enqueue, forget_client, cleanup_client, post_read, connected,
}
use multi_threaded_tcp_chat.IocpServer.Lifecycle.{sockets, socket_of}
use multi_threaded_tcp_chat.IocpServer.Completions.{
  Accepted, Completion, timed_out, failed, failed_without_data, wake_up, read_done, write_done,
  handle_accept, touch, handle_read, handle_completion,
}
use multi_threaded_tcp_chat.IocpServer.Consistency.{IsConsistent}
use multi_threaded_tcp_chat.Base.Counting.{
  count, count-append, count-erase, count-insert_new, count-insert_old,
}

-- The socket that a running server listens on.
abbrev pub held : IocpServer → List ℕ
held s = if s.running then to_list s.listen_socket else []

pub record IsBalanced (s : IocpServer) : Type 0 where
  pub balance :
      (k : ℕ) → count k s.opened ≡ count k s.closed + count k (sockets s.clients) + count k (held s)
  pub distinct : Distinct s.clients
  pub listening : s.running ≡ true → is_some s.listen_socket ≡ true

pub forget_client-IsBalanced :
    (id : ℕ) (s : IocpServer) → IsBalanced s → IsBalanced (forget_client id s)
unfolding forget_client
forget_client-IsBalanced id s v = elim (Option-cases (lookup id s.clients)) [
  | inl e ↦ rw (e, forget_client) v
  | inr (c, e) ↦
      rw (e, forget_client)
        (record {
          balance = λ k. omega (
            arith,
            v.balance k,
            count-append k s.closed (c.socket ∷ []),
            count-erase socket_of k id c s.clients v.distinct e,
          );
          distinct = erase-Distinct id s.clients v.distinct;
          listening = v.listening;
        })
]

pub cleanup_client-IsBalanced :
    (id : ℕ) (s : IocpServer) → IsBalanced s → IsBalanced (cleanup_client id s)
unfolding cleanup_client enqueue
cleanup_client-IsBalanced id s v =
    let w = forget_client-IsBalanced id s v in
    record { balance = w.balance; distinct = w.distinct; listening = w.listening }

post_read-IsBalanced :
    (started : Bool) (io : ReadRequest) (s : IocpServer)
    → IsBalanced s
    → IsBalanced (post_read started io s)
unfolding post_read
post_read-IsBalanced true io s v = record {
  balance = v.balance;
  distinct = v.distinct;
  listening = v.listening;
}
post_read-IsBalanced false io s v =
    cleanup_client-IsBalanced io.client_id _
      (record { balance = v.balance; distinct = v.distinct; listening = v.listening })

touch-IsBalanced : (id now : ℕ) (s : IocpServer) → IsBalanced s → IsBalanced (touch id now s)
unfolding touch
touch-IsBalanced id now s v = elim (Option-cases (lookup id s.clients)) [
  | inl e ↦ rw (e, touch) v
  | inr (c, e) ↦
      let c' = record c { last_activity = now; message_count = c.message_count + 1 } in
      rw (e, touch)
        (record {
          balance =
              λ k. omega (arith, v.balance k, count-insert_old socket_of k id c c' s.clients e);
          distinct = insert-Distinct id c' s.clients v.distinct;
          listening = v.listening;
        })
]

-- A new client comes into the table, under an id that is not there.
entered-IsBalanced :
    (c : ClientInfo) (s : IocpServer)
    → lookup c.id s.clients ≡ none
    → IsBalanced s
    → IsBalanced (record s {
      next_client_id = c.id + 1;
      opened = s.opened ++ c.socket ∷ [];
      clients = insert c.id c s.clients;
      socket_to_id = insert c.socket c.id s.socket_to_id;
    })
entered-IsBalanced c s fresh v = record {
  balance = λ k. omega (
    arith,
    v.balance k,
    count-append k s.opened (c.socket ∷ []),
    count-insert_new socket_of k c.id c s.clients fresh,
  );
  distinct = insert-Distinct c.id c s.clients v.distinct;
  listening = v.listening;
}

new_id-free : (s : IocpServer) → IsConsistent s → lookup s.next_client_id s.clients ≡ none
new_id-free s v = elim (Option-cases (lookup s.next_client_id s.clients)) [
  | inl e ↦ e
  | inr (c, e) ↦ absurd (omega (arith, (v.known s.next_client_id c e).1))
]

pub handle_accept-IsBalanced :
    (a : Accepted) (s : IocpServer) → IsConsistent s → IsBalanced s → IsBalanced (handle_accept a s)
unfolding handle_accept enqueue
handle_accept-IsBalanced a s ids v = elim (Bool-cases a.associated) [
  | inr refused ↦ rw refused (record {
    balance = λ k. omega (
      arith,
      v.balance k,
      count-append k s.opened (a.socket ∷ []),
      count-append k s.closed (a.socket ∷ []),
    );
    distinct = v.distinct;
    listening = v.listening;
  })
  | inl joined ↦ rw joined (
      let c : ClientInfo = record {
        id = s.next_client_id;
        socket = a.socket;
        name = text "anonymous";
        ip_address = a.address;
        state = connected;
        connected_at = a.now;
        last_activity = a.now;
        message_count = 0;
        current_room = text "general";
      } in
      let w = entered-IsBalanced c s (new_id-free s ids) v in
      post_read-IsBalanced a.read_started _ _
        (record { balance = w.balance; distinct = w.distinct; listening = w.listening }))
]

handle_read-IsBalanced :
    (io : ReadRequest) (received : Text) (now : ℕ) (started : Bool) (s : IocpServer)
    → IsBalanced s
    → IsBalanced (handle_read io received now started s)
unfolding handle_read enqueue
handle_read-IsBalanced io received now started s v =
    let w = touch-IsBalanced io.client_id now s v in
    post_read-IsBalanced started io _ (
      if_both IsBalanced (ltb 0 (length received))
        (record { balance = w.balance; distinct = w.distinct; listening = w.listening }) w)

pub handle_completion-IsBalanced :
    (c : Completion) (now : ℕ) (started : Bool) (s : IocpServer)
    → IsBalanced s
    → IsBalanced (handle_completion c now started s).1
unfolding handle_completion
handle_completion-IsBalanced timed_out now started s v = v
handle_completion-IsBalanced (failed id) now started s v = cleanup_client-IsBalanced id s v
handle_completion-IsBalanced failed_without_data now started s v = v
handle_completion-IsBalanced wake_up now started s v = v
handle_completion-IsBalanced (read_done io received) now started s v =
    if_both IsBalanced (length received == 0) (cleanup_client-IsBalanced io.client_id s v)
      (handle_read-IsBalanced io received now started s v)
handle_completion-IsBalanced (write_done id bytes) now started s v =
    if_both IsBalanced (bytes == 0) (cleanup_client-IsBalanced id s v) v
