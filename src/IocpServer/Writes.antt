-- ===== src/IocpServer/Writes.antt =====
-- What PostWrite gives to WSASend, and what CleanupClient reports.
use mathlib.Core.List.{append_assoc, append-nil}
use multi_threaded_tcp_chat.Base.{
  ℕ, zero, suc, ◌<◌, ◌≤◌, ◌≡◌, ◌↔◌, refl, ap, ◌∙◌, true, false, none, some, List, [], ◌∷◌, ◌++◌,
  length, take, length-take, min, nat_eq, arith,
}
use multi_threaded_tcp_chat.Base.Text.{Text}
use multi_threaded_tcp_chat.Base.Map.{lookup, lookup-erase_self}
use multi_threaded_tcp_chat.IocpServer.{
  ClientInfo, IocpServer, SendRequest, Task, on_disconnect, forget_client, cleanup_client,
  post_write, send, max_len,
}

pub take_whole {ℓ} : {A : Type ℓ} (n : ℕ) (xs : List A) → length xs ≤ n → take n xs ≡ xs
take_whole zero [] h = refl
take_whole zero (x ∷ xs) h = absurd (omega arith)
take_whole (suc n) [] h = refl
take_whole (suc n) (x ∷ xs) h = ap (◌∷◌ x) (take_whole n xs (omega arith))

-- A request that reads no byte behind its buffer.
abbrev pub InBounds : SendRequest → Type 0
InBounds r = r.len ≤ max_len

-- Send to a client of the table makes one call of WSASend, on the client's socket. The call stays
-- inside the buffer exactly when the message has at most 2048 bytes, and then the buffer holds the
-- whole message; a longer message makes it read that many bytes all the same, of which the buffer
-- holds 2048. To any other id nothing is sent.
pub send_bounds :
    (id : ℕ) (message : Text) (s : IocpServer)
    → ((c : ClientInfo)
        → lookup id s.clients ≡ some c
        → (r : SendRequest) × (send id message s ≡ (true, record s { sends = s.sends ++ r ∷ [] }))
          × (r.socket ≡ c.socket)
          × (InBounds r ↔ (length message ≤ max_len))
          × (length message ≤ max_len → r.copied ≡ message)
          × (max_len < length message → (r.len ≡ length message) × (length r.copied ≡ max_len)))
      × (lookup id s.clients ≡ none → send id message s ≡ (false, s))
unfolding send post_write
send_bounds id message s = (
  λ c e. (
    record {
      client_id = id;
      socket = c.socket;
      copied = take (min (length message) max_len) message;
      len = length message;
    },
    ground (arith, e),
    refl,
    (λ h. h, λ h. h),
    λ h. take_whole (min (length message) max_len) message (omega arith),
    λ h. (refl, omega (arith, length-take (min (length message) max_len) message)),
  ),
  λ e. ground (arith, e),
)

lookup-forget_client : (id : ℕ) (s : IocpServer) → lookup id (forget_client id s).clients ≡ none
unfolding forget_client
lookup-forget_client id s = ground (arith, lookup-erase_self id s.clients)

closed-forget_client :
    (id : ℕ) (s : IocpServer)
    → (forget_client id s).closed
      ≡ s.closed ++ elim (lookup id s.clients) [ none ↦ [] | some c ↦ c.socket ∷ [] ]
unfolding forget_client
closed-forget_client id s = ground (arith, append-nil s.closed)

pub tasks-forget_client : (id : ℕ) (s : IocpServer) → (forget_client id s).tasks ≡ s.tasks
unfolding forget_client
tasks-forget_client id s = ground arith

forget_client_unknown :
    (id : ℕ) (s : IocpServer) → lookup id s.clients ≡ none → forget_client id s ≡ s
unfolding forget_client
forget_client_unknown id s e = ground (arith, e)

-- CleanupClient takes a client off the table and closes its socket if it is there, and in any case
-- reports a disconnect. So a second call for the same client closes nothing more and changes no table,
-- but reports a second disconnect.
pub cleanup_client_twice :
    (id : ℕ) (s : IocpServer)
    → let once = cleanup_client id s in
      (lookup id once.clients ≡ none)
      × (once.closed
          ≡ s.closed ++ elim (lookup id s.clients) [ none ↦ [] | some c ↦ c.socket ∷ [] ])
      × (cleanup_client id once
          ≡ record once { tasks = s.tasks ++ on_disconnect id ∷ on_disconnect id ∷ [] })
unfolding cleanup_client
cleanup_client_twice id s = (
  lookup-forget_client id s,
  closed-forget_client id s,
  ap (λ (t : IocpServer). record t { tasks = t.tasks ++ on_disconnect id ∷ [] })
        (forget_client_unknown id (cleanup_client id s) (lookup-forget_client id s))
      ∙ ap (λ (ts : List Task). record (cleanup_client id s) { tasks = ts })
          (ap (λ (ts : List Task). (ts ++ on_disconnect id ∷ []) ++ on_disconnect id ∷ [])
              (tasks-forget_client id s)
            ∙ append_assoc s.tasks (on_disconnect id ∷ []) (on_disconnect id ∷ [])),
)
