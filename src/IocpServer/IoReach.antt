-- ===== src/IocpServer/IoReach.antt =====
-- The PER_IO_DATA of iocp_server.cpp through everything that can happen: where each of them stands.
use multi_threaded_tcp_chat.Base.{
  ℕ, ◌+◌, ◌≡◌, refl, Bool, true, false, not, ◌&&◌, some, [], ◌∷◌, if◌then◌else◌, length, ltb, ◌==◌,
  nat_eq, is_some, arith, Option-cases, inl, inr, if_both,
}
use multi_threaded_tcp_chat.Base.Text.{Text}
use multi_threaded_tcp_chat.Base.Counting.{count, count-append}
use multi_threaded_tcp_chat.Base.Map.{lookup, erase, lookup-insert, lookup-erase}
use multi_threaded_tcp_chat.IocpServer.{IocpServer}
use multi_threaded_tcp_chat.IocpServer.Completions.{Accepted, handle_accept}
use multi_threaded_tcp_chat.IocpServer.Tables.{Event}
use multi_threaded_tcp_chat.IocpServer.Tables
use multi_threaded_tcp_chat.IocpServer.Buffers.{
  IoOperation, read, write, accept, is_accept, IoData, Buffers, no_buffers, hand_over,
  make_and_hand_over, accept_io, write_io, Outcome, io_failed, io_done, delete_io, handle_write,
  read_io, dispatch_io, handle_io, complete_io,
}

-- What happens to the PER_IO_DATA: a connection is accepted, something is written, a completion
-- arrives, or the server is changed by something that makes and deletes none.
pub data IoEvent : Type 0 where
  accepts : Accepted → IoEvent
  writes : Bool → ℕ → Text → IoEvent
  completes : ℕ → Outcome → ℕ → Bool → IoEvent
  changes : Event → IoEvent

unfoldable pub apply : IoEvent → Buffers → Buffers
apply (accepts a) b = accept_io a b
apply (writes started client_id message) b = write_io started client_id message b
apply (completes address outcome now started) b = complete_io address outcome now started b
apply (changes e) b = record b { server = Tables.apply e b.server }

pub data Reach : Buffers → Type 0 where
  begin : Reach no_buffers
  next : (e : IoEvent) (b : Buffers) → Reach b → Reach (apply e b)

-- How many times an address stands with Windows, among the deleted and among those left.
abbrev pub placed : ℕ → Buffers → ℕ
placed k b = (if is_some (lookup k b.held) then 1 else 0) + count k b.freed + count k b.dropped

pub record IsOwned (b : Buffers) : Type 0 where
  pub once : (k : ℕ) → placed k b ≡ (if ltb k b.next_address then 1 else 0)
  pub never_accept :
      (k : ℕ) (io : IoData) → lookup k b.held ≡ some io → is_accept io.operation ≡ false

-- `address` is a PER_IO_DATA that a thread has: it stands nowhere.
record IsTaken (address : ℕ) (b : Buffers) : Type 0 where
  pub once :
      (k : ℕ)
      → placed k b + (if address == k then 1 else 0) ≡ (if ltb k b.next_address then 1 else 0)
  pub never_accept :
      (k : ℕ) (io : IoData) → lookup k b.held ≡ some io → is_accept io.operation ≡ false

hand_over-IsOwned :
    (started : Bool) (address : ℕ) (io : IoData) (b : Buffers)
    → (is_accept io.operation ≡ false)
    → IsTaken address b
    → IsOwned (hand_over started address io b)
unfolding hand_over
hand_over-IsOwned true address io b fine v = record {
  once = λ k. ground (arith, v.once k, v.once address, lookup-insert address k io b.held);
  never_accept = λ k other e.
      ground (arith, lookup-insert address k io b.held, v.never_accept k other, e, fine);
}
hand_over-IsOwned false address io b fine v = record {
  once = λ k. ground (arith, v.once k, count-append k b.freed (address ∷ []));
  never_accept = v.never_accept;
}

delete_io-IsOwned : (address : ℕ) (b : Buffers) → IsTaken address b → IsOwned (delete_io address b)
unfolding delete_io
delete_io-IsOwned address b v = record {
  once = λ k. ground (arith, v.once k, count-append k b.freed (address ∷ []));
  never_accept = v.never_accept;
}

make-IsOwned :
    (started : Bool) (io : IoData) (b : Buffers)
    → (is_accept io.operation ≡ false)
    → IsOwned b
    → IsOwned (make_and_hand_over started io b)
unfolding make_and_hand_over
make-IsOwned started io b fine v =
    hand_over-IsOwned started b.next_address io _ fine
      (record { once = λ k. ground (arith, v.once k); never_accept = v.never_accept })

with_server : (s : IocpServer) (b : Buffers) → IsOwned b → IsOwned (record b { server = s })
with_server s b v = record { once = v.once; never_accept = v.never_accept }

with_server-IsTaken :
    (address : ℕ) (s : IocpServer) (b : Buffers)
    → IsTaken address b
    → IsTaken address (record b { server = s })
with_server-IsTaken address s b v = record { once = v.once; never_accept = v.never_accept }

accept_io-IsOwned : (a : Accepted) (b : Buffers) → IsOwned b → IsOwned (accept_io a b)
unfolding accept_io is_accept
accept_io-IsOwned a b v =
    let w = with_server (handle_accept a b.server) b v in
    if_both IsOwned (not a.associated) w (make-IsOwned a.read_started _ _ refl w)

write_io-IsOwned :
    (started : Bool) (client_id : ℕ) (message : Text) (b : Buffers)
    → IsOwned b
    → IsOwned (write_io started client_id message b)
unfolding write_io is_accept
write_io-IsOwned started client_id message b v =
    elim (Option-cases (lookup client_id b.server.clients)) [
      | inl e ↦ rw (e, write_io) v
      | inr (c, e) ↦ rw (e, write_io) (make-IsOwned started _ _ refl (with_server _ b v))
    ]

dispatch_io-IsOwned :
    (operation : IoOperation) (received : Text) (now : ℕ) (started : Bool) (address : ℕ)
    (io : IoData) (b : Buffers)
    → (is_accept operation ≡ false)
    → (is_accept io.operation ≡ false)
    → IsTaken address b
    → IsOwned (dispatch_io operation received now started address io b)
unfolding dispatch_io handle_write read_io is_accept
dispatch_io-IsOwned read received now started address io b fine same v =
    hand_over-IsOwned started address io _ same (with_server-IsTaken address _ b v)
dispatch_io-IsOwned write received now started address io b fine same v =
    delete_io-IsOwned address b v
dispatch_io-IsOwned accept received now started address io b fine same v = absurd (cc)

handle_io-IsOwned :
    (outcome : Outcome) (now : ℕ) (started : Bool) (address : ℕ) (io : IoData) (b : Buffers)
    → (is_accept io.operation ≡ false)
    → IsTaken address b
    → IsOwned (handle_io outcome now started address io b)
unfolding handle_io
handle_io-IsOwned io_failed now started address io b fine v =
    delete_io-IsOwned address _ (with_server-IsTaken address _ b v)
handle_io-IsOwned (io_done received) now started address io b fine v =
    if_both IsOwned ((length received == 0) && not (is_accept io.operation))
      (delete_io-IsOwned address _ (with_server-IsTaken address _ b v))
      (dispatch_io-IsOwned io.operation received now started address io b fine fine v)

complete_io-IsOwned :
    (address : ℕ) (outcome : Outcome) (now : ℕ) (started : Bool) (b : Buffers)
    → IsOwned b
    → IsOwned (complete_io address outcome now started b)
unfolding complete_io
complete_io-IsOwned address outcome now started b v = elim (Option-cases (lookup address b.held)) [
  | inl e ↦ rw (e, complete_io) v
  | inr (io, e) ↦
      let taken : IsTaken address (record b { held = erase address b.held }) = record {
        once = λ k. ground (arith, v.once k, lookup-erase address k b.held, e);
        never_accept =
            λ k other f. ground (arith, lookup-erase address k b.held, v.never_accept k other, f);
      } in
      rw (e, complete_io)
        (if_both IsOwned (not b.server.running)
          (record {
            once = λ k. ground (arith, taken.once k, count-append k b.dropped (address ∷ []));
            never_accept = taken.never_accept;
          })
          (handle_io-IsOwned outcome now started address io _ (v.never_accept address io e) taken))
]

pub Reach-IsOwned : {b : Buffers} → Reach b → IsOwned b
unfolding apply lookup
Reach-IsOwned begin = record { once = λ k. ground arith; never_accept = λ k io e. absurd (cc) }
Reach-IsOwned (next (accepts a) b r) = accept_io-IsOwned a b (Reach-IsOwned r)
Reach-IsOwned (next (writes started client_id message) b r) =
    write_io-IsOwned started client_id message b (Reach-IsOwned r)
Reach-IsOwned (next (completes address outcome now started) b r) =
    complete_io-IsOwned address outcome now started b (Reach-IsOwned r)
Reach-IsOwned (next (changes e) b r) = with_server _ b (Reach-IsOwned r)
