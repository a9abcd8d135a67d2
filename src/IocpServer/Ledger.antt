-- ===== src/IocpServer/Ledger.antt =====
-- The sockets that the server has opened and closed.
use multi_threaded_tcp_chat.Base.{
  ℕ, ◌+◌, ◌≡◌, refl, Bool, true, not, none, ◌++◌, if_both, nat_eq, to_list, arith, Bool-cases, inl,
  inr,
}
use multi_threaded_tcp_chat.Sockets.{create_listen_socket}
use multi_threaded_tcp_chat.IocpServer.{
  IocpServer, init, enqueue, post_write, disconnect_client, send,
}
use multi_threaded_tcp_chat.IocpServer.Lifecycle.{StartAnswers, start, stop, sockets}
use multi_threaded_tcp_chat.IocpServer.Completions.{worker_round}
use multi_threaded_tcp_chat.IocpServer.Consistency.{IsConsistent}
use multi_threaded_tcp_chat.Base.Counting.{count, count-append}
use multi_threaded_tcp_chat.IocpServer.Tables.{
  Event, accept, complete, sends_to, disconnects, forgets, enqueues, starts, stops, apply,
  IsPossible, Reach, begin, next, tables_agree,
}
use multi_threaded_tcp_chat.IocpServer.Balance.{
  held, IsBalanced, forget_client-IsBalanced, cleanup_client-IsBalanced, handle_accept-IsBalanced,
  handle_completion-IsBalanced,
}

stop-IsBalanced : (s : IocpServer) → IsBalanced s → IsBalanced (stop s)
unfolding stop
stop-IsBalanced s v = elim (Bool-cases s.running) [
  | inr idle ↦ simp (idle, stop) v
  | inl busy ↦
      rw (busy, stop)
        (record {
          balance = λ k. ground (
            arith,
            busy,
            v.balance k,
            count-append k (s.closed ++ to_list s.listen_socket) (sockets s.clients),
            count-append k s.closed (to_list s.listen_socket),
          );
          distinct = tt;
          listening = λ h. absurd (cc);
        })
]

start-IsBalanced :
    (a : StartAnswers) (s : IocpServer)
    → s.listen_socket ≡ none
    → IsBalanced s
    → IsBalanced (start a s).1
unfolding start create_listen_socket
start-IsBalanced a s silent v = record {
  balance = λ k. grind (arith, v.balance k, v.listening, silent, count-append k);
  distinct = ground (arith, v.distinct);
  listening = ground (arith, v.listening, silent);
}

apply-IsBalanced :
    (e : Event) (s : IocpServer)
    → IsPossible e s
    → IsConsistent s
    → IsBalanced s
    → IsBalanced (apply e s)
unfolding apply
apply-IsBalanced (accept a) s possible ids v = handle_accept-IsBalanced a s ids v
apply-IsBalanced (complete c now started) s possible ids v =
    unfold worker_round in
    if_both (λ (r : Bool × IocpServer). IsBalanced r.1) (not s.running) v
      (handle_completion-IsBalanced c now started s v)
apply-IsBalanced (sends_to id message) s possible ids v =
    unfold send post_write in
    record {
      balance = λ k. ground (arith, v.balance k);
      distinct = ground (arith, v.distinct);
      listening = ground (arith, v.listening);
    }
apply-IsBalanced (disconnects id) s possible ids v =
    unfold disconnect_client in cleanup_client-IsBalanced id s v
apply-IsBalanced (forgets id) s possible ids v = forget_client-IsBalanced id s v
apply-IsBalanced (enqueues task) s possible ids v =
    unfold enqueue in record { balance = v.balance; distinct = v.distinct; listening = v.listening }
apply-IsBalanced (starts answers) s possible ids v = start-IsBalanced answers s possible v
apply-IsBalanced stops s possible ids v = stop-IsBalanced s v

init-IsBalanced : IsBalanced init
unfolding init
init-IsBalanced = record { balance = λ k. refl; distinct = tt; listening = λ h. absurd (cc) }

pub Reach-IsBalanced : {s : IocpServer} → Reach s → IsBalanced s
Reach-IsBalanced begin = init-IsBalanced
Reach-IsBalanced (next e s r possible) =
    apply-IsBalanced e s possible (tables_agree r) (Reach-IsBalanced r)

stopped-balance :
    (k : ℕ) (s : IocpServer)
    → s.running ≡ true
    → IsBalanced (stop s)
    → count k (stop s).opened ≡ count k (stop s).closed
unfolding stop
stopped-balance k s busy w = ground (arith, busy, w.balance k)

-- Whatever happens to the server, in any order, every socket has been opened just as often as it has
-- been closed, stands with a client of the table, or is the one that a running server listens on; it
-- is never closed more often than opened. A running server that is stopped has then closed each
-- socket as often as it has opened it.
pub sockets_closed_once :
    {s : IocpServer}
    → Reach s
    → (k : ℕ)
    → (count k s.opened ≡ count k s.closed + count k (sockets s.clients) + count k (held s))
      × (s.running ≡ true → count k (stop s).opened ≡ count k (stop s).closed)
sockets_closed_once {s} r k =
    let v = Reach-IsBalanced r in
    (v.balance k, λ busy. stopped-balance k s busy (stop-IsBalanced s v))
