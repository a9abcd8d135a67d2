-- ===== src/IocpServer/Broadcasting.antt =====
-- Whom Broadcast of iocp_server.cpp reaches.
use mathlib.Core.List.{append_assoc, append-nil}
use multi_threaded_tcp_chat.Base.{
  ℕ, ◌≤◌, ◌≡◌, refl, ap, sym, ◌∙◌, true, false, not, some, List, [], ◌∷◌, ◌++◌, map, keep, length,
  take, min, ◌==◌, nat_eq, arith, Bool-cases, inl, inr,
}
use multi_threaded_tcp_chat.Base.Text.{Text}
use multi_threaded_tcp_chat.Base.Map.{Map, lookup, Distinct}
use multi_threaded_tcp_chat.IocpServer.{
  ClientInfo, IocpServer, SendRequest, post_write, broadcast_to, broadcast, get_all_clients, infos,
  max_len,
}
use multi_threaded_tcp_chat.IocpServer.Tables.{Reach, tables_agree}
use multi_threaded_tcp_chat.IocpServer.Writes.{take_whole}
use multi_threaded_tcp_chat.IocpServer.Ledger.{Reach-IsBalanced}

-- The call of WSASend that carries `message` to a client.
abbrev pub carries : Text → ClientInfo → SendRequest
carries message c = record {
  client_id = c.id;
  socket = c.socket;
  copied = take (min (length message) max_len) message;
  len = length message;
}

abbrev pub others : ℕ → List ClientInfo → List ClientInfo
others exclude_id cs = keep (λ c. not (c.id == exclude_id)) cs

post_write-carries :
    (id : ℕ) (c : ClientInfo) (message : Text) (s : IocpServer)
    → (c.id ≡ id)
    → (lookup id s.clients ≡ some c)
    → post_write id message s ≡ record s { sends = s.sends ++ carries message c ∷ [] }
unfolding post_write
post_write-carries id c message s own e =
    rw (e, post_write)
      (ap
        (λ (i : ℕ). record s {
          sends = s.sends ++ (record (carries message c) { client_id = i }) ∷ [];
        })
        (sym own))

broadcast_to-sends :
    (rest : Map ℕ ClientInfo) (message : Text) (exclude_id : ℕ) (s : IocpServer)
    → ((id : ℕ) (c : ClientInfo)
        → lookup id rest ≡ some c
        → (c.id ≡ id) × (lookup id s.clients ≡ some c))
    → Distinct rest
    → broadcast_to rest message exclude_id s
      ≡ record s { sends = s.sends ++ map (carries message) (others exclude_id (infos rest)) }
unfolding broadcast_to post_write lookup
broadcast_to-sends [] message exclude_id s h d =
    ap (λ (l : List SendRequest). record s { sends = l }) (sym (append-nil s.sends))
broadcast_to-sends ((id, c) ∷ rest) message exclude_id s h (fresh, d) =
    let (own, there) = h id c (ground arith) in
    let later = λ (t : IocpServer) (same : t.clients ≡ s.clients).
      broadcast_to-sends rest message exclude_id t
        (λ k e f. let (a, b) = h k e (ground (arith, f, fresh)) in (a, ap (lookup k) same ∙ b)) d in
    elim (Bool-cases (id == exclude_id)) [
      | inl out ↦
          let out_too : (c.id == exclude_id) ≡ true = ap (λ (i : ℕ). i == exclude_id) own ∙ out in
          rw (out, out_too) (later s refl)
      | inr kept ↦
          let kept_too : (c.id == exclude_id) ≡ false =
            ap (λ (i : ℕ). i == exclude_id) own ∙ kept in
          rw (kept, kept_too)
            (ap (broadcast_to rest message exclude_id) (post_write-carries id c message s own there)
              ∙ later (record s { sends = s.sends ++ carries message c ∷ [] }) refl
              ∙ ap (λ (l : List SendRequest). record s { sends = l }) (append_assoc s.sends _ _))
    ]

-- Broadcast makes one call of WSASend for each client of the table other than the one that is excluded,
-- and for no other, in the order of the table and on the client's own socket; it changes nothing
-- else. The call has the length of the message and its first 2048 bytes, which are the whole message
-- if that has no more.
pub broadcast_to_each :
    (s : IocpServer) (message : Text) (exclude_id : ℕ)
    → Reach s
    → (broadcast message exclude_id s ≡ record s {
      sends = s.sends ++ map (carries message) (others exclude_id (get_all_clients s));
    })
      × (length message ≤ max_len → (c : ClientInfo) → (carries message c).copied ≡ message)
unfolding broadcast get_all_clients
broadcast_to_each s message exclude_id r =
    let v = tables_agree r in
    (
      broadcast_to-sends s.clients message exclude_id s (λ id c e. ((v.known id c e).0, e))
          (Reach-IsBalanced r).distinct,
      λ fits c. take_whole (min (length message) max_len) message (omega arith),
    )
