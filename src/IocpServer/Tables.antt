-- ===== src/IocpServer/Tables.antt =====
-- The two tables of IOCPServer through everything that can happen to it: ids are never used twice.
use multi_threaded_tcp_chat.Base.{ℕ, ◌≡◌, refl, Bool, not, none, if_both, nat_eq, arith}
use multi_threaded_tcp_chat.Base.Text.{Text}
use multi_threaded_tcp_chat.Base.Map.{lookup}
use multi_threaded_tcp_chat.IocpServer.{
  IocpServer, Task, enqueue, forget_client, init, post_write, send, disconnect_client,
}
use multi_threaded_tcp_chat.IocpServer.Lifecycle.{StartAnswers, start, stop}
use multi_threaded_tcp_chat.IocpServer.Completions.{
  Accepted, Completion, handle_accept, worker_round,
}
use multi_threaded_tcp_chat.IocpServer.Consistency.{
  IsConsistent, init-IsConsistent, forget_client-IsConsistent, cleanup_client-IsConsistent,
  handle_accept-IsConsistent, handle_completion-IsConsistent, keeps,
}

-- What happens to a server: a connection is accepted, a completion arrives at a worker (with the
-- clock and the answer of WSARecv), a thread of the pool sends or disconnects, or it is told to
-- start or stop. The two parts of a disconnection, under different locks, may also come apart.
pub data Event : Type 0 where
  accept : Accepted → Event
  complete : Completion → ℕ → Bool → Event
  sends_to : ℕ → Text → Event
  disconnects : ℕ → Event
  forgets : ℕ → Event
  enqueues : Task → Event
  starts : StartAnswers → Event
  stops : Event

unfoldable pub apply : Event → IocpServer → IocpServer
apply (accept a) s = handle_accept a s
apply (complete c now read_started) s = (worker_round c now read_started s).1
apply (sends_to id message) s = (send id message s).1
apply (disconnects id) s = disconnect_client id s
apply (forgets id) s = forget_client id s
apply (enqueues task) s = enqueue task s
apply (starts answers) s = (start answers s).1
apply stops s = stop s

-- Windows gives a new connection no handle that is in use, and `main` starts a server that does not
-- listen yet.
abbrev pub IsPossible : Event → IocpServer → Type 0
IsPossible (accept a) s = lookup a.socket s.socket_to_id ≡ none
IsPossible (starts answers) s = s.listen_socket ≡ none
IsPossible _ s = Unit {0}

pub data Reach : IocpServer → Type 0 where
  begin : Reach init
  next : (e : Event) (s : IocpServer) → Reach s → IsPossible e s → Reach (apply e s)

apply-IsConsistent :
    (e : Event) (s : IocpServer) → IsPossible e s → IsConsistent s → IsConsistent (apply e s)
unfolding apply
apply-IsConsistent (accept a) s possible v = handle_accept-IsConsistent a s possible v
apply-IsConsistent (complete c now started) s possible v =
    unfold worker_round in
    if_both (λ (r : Bool × IocpServer). IsConsistent r.1) (not s.running) v
      (handle_completion-IsConsistent c now started s v)
apply-IsConsistent (sends_to id message) s possible v =
    unfold send post_write in keeps _ s (ground arith) (ground arith) (ground arith) v
apply-IsConsistent (disconnects id) s possible v =
    unfold disconnect_client in cleanup_client-IsConsistent id s v
apply-IsConsistent (forgets id) s possible v = forget_client-IsConsistent id s v
apply-IsConsistent (enqueues task) s possible v = unfold enqueue in keeps _ s refl refl refl v
apply-IsConsistent (starts answers) s possible v =
    unfold start in keeps _ s (ground arith) (ground arith) (ground arith) v
apply-IsConsistent stops s possible v =
    unfold stop lookup in
    if_both IsConsistent (not s.running) v
      (record { known = λ id c h. cc; mapped = λ socket id h. absurd (cc) })

-- Whatever happens to the server, in any order: each client of the table stands under its own id, that
-- id is below the next one to be given, its socket is filed under its id, and each socket that is
-- filed belongs to the client of that id.
pub tables_agree : {s : IocpServer} → Reach s → IsConsistent s
tables_agree begin = init-IsConsistent
tables_agree (next e s r possible) = apply-IsConsistent e s possible (tables_agree r)
