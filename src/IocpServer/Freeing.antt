-- ===== src/IocpServer/Freeing.antt =====
-- Each PER_IO_DATA is deleted once at most, and never while Windows has it.
use multi_threaded_tcp_chat.Base.{
  ℕ, ◌≡◌, refl, Bool, true, false, not, ◌&&◌, some, [], ◌∷◌, ◌++◌, if◌then◌else◌, length, ltb, ◌==◌,
  nat_eq, arith, Option-cases, Bool-cases, inl, inr, if_both,
}
use multi_threaded_tcp_chat.Base.Text.{Text}
use multi_threaded_tcp_chat.Base.Map.{lookup, erase}
use multi_threaded_tcp_chat.IocpServer.Completions.{
  Completion, failed, read_done, write_done, timed_out, handle_completion, worker_round,
}
use multi_threaded_tcp_chat.IocpServer.Buffers.{
  IoOperation, read, write, accept, is_accept, IoData, Buffers, hand_over, Outcome, io_failed,
  io_done, delete_io, handle_write, read_io, dispatch_io, handle_io, complete_io,
}
use multi_threaded_tcp_chat.IocpServer.IoReach.{Reach, placed, Reach-IsOwned}

dispatch_io-dropped :
    (operation : IoOperation) (received : Text) (now : ℕ) (started : Bool) (address : ℕ)
    (io : IoData) (b : Buffers)
    → (is_accept operation ≡ false)
    → (dispatch_io operation received now started address io b).dropped ≡ b.dropped
unfolding dispatch_io handle_write read_io delete_io hand_over is_accept
dispatch_io-dropped read received now started address io b fine = ground arith
dispatch_io-dropped write received now started address io b fine = refl
dispatch_io-dropped accept received now started address io b fine = absurd (cc)

handle_io-dropped :
    (outcome : Outcome) (now : ℕ) (started : Bool) (address : ℕ) (io : IoData) (b : Buffers)
    → (is_accept io.operation ≡ false)
    → (handle_io outcome now started address io b).dropped ≡ b.dropped
unfolding handle_io delete_io
handle_io-dropped io_failed now started address io b fine = refl
handle_io-dropped (io_done received) now started address io b fine =
    if_both (λ (c : Buffers). c.dropped ≡ b.dropped)
      ((length received == 0) && not (is_accept io.operation)) refl
      (dispatch_io-dropped io.operation received now started address io b fine)

-- In what GetQueuedCompletionStatus says of a PER_IO_DATA, the completion that the worker handles.
abbrev completion_of : IoOperation → IoData → Outcome → Completion
completion_of operation io io_failed = failed io.client_id
completion_of read io (io_done received) =
    read_done (record { client_id = io.client_id; socket = io.socket }) received
completion_of write io (io_done received) = write_done io.client_id (length received)
completion_of accept io (io_done received) = timed_out

handle_io-completion :
    (operation : IoOperation) (client_id socket : ℕ) (outcome : Outcome) (now : ℕ) (started : Bool)
    (address : ℕ) (b : Buffers)
    → let io : IoData = record { operation = operation; client_id = client_id; socket = socket } in
      (handle_io outcome now started address io b).server
      ≡ (handle_completion (completion_of operation io outcome) now started b.server).1
unfolding handle_io handle_completion dispatch_io handle_write read_io delete_io hand_over is_accept
handle_io-completion read client_id socket (io_done received) now started address b = ground arith
handle_io-completion write client_id socket (io_done received) now started address b = ground arith
handle_io-completion accept client_id socket (io_done received) now started address b = ground arith
handle_io-completion operation client_id socket io_failed now started address b = refl

-- The round that gives a PER_IO_DATA back does to the server what IOCPWorkerThread does.
pub complete_io-worker_round :
    (address : ℕ) (outcome : Outcome) (now : ℕ) (started : Bool) (b : Buffers) (io : IoData)
    → (lookup address b.held ≡ some io)
    → (complete_io address outcome now started b).server
      ≡ (worker_round (completion_of io.operation io outcome) now started b.server).1
unfolding complete_io worker_round
complete_io-worker_round address outcome now started b io e =
    rw (e, complete_io)
      (elim (Bool-cases b.server.running) [
        | inr idle ↦ rw (idle) refl
        | inl busy ↦
            rw (busy) (
              handle_io-completion io.operation io.client_id io.socket outcome now started address
                _)
      ])

-- Whatever happens, in any order: each PER_IO_DATA that was made is either with Windows, or was deleted
-- once, or was left by a worker, and never two of these; so none is deleted twice or while Windows
-- still writes to it. While the server runs no worker leaves one; a worker that finds the server
-- stopped leaves the one it was given, which nobody deletes.
pub buffers_freed_once :
    {b : Buffers}
    → Reach b
    → ((k : ℕ) → placed k b ≡ (if ltb k b.next_address then 1 else 0))
      × ((address : ℕ) (outcome : Outcome) (now : ℕ) (started : Bool)
          → b.server.running ≡ true
          → (complete_io address outcome now started b).dropped ≡ b.dropped)
      × ((address : ℕ) (outcome : Outcome) (now : ℕ) (started : Bool) (io : IoData)
          → b.server.running ≡ false
          → lookup address b.held ≡ some io
          → complete_io address outcome now started b
            ≡ record b { held = erase address b.held; dropped = b.dropped ++ address ∷ [] })
unfolding complete_io
buffers_freed_once {b} r =
    let v = Reach-IsOwned r in
    (
      v.once,
      λ address outcome now started busy. elim (Option-cases (lookup address b.held)) [
        | inl e ↦ rw (e, complete_io) refl
        | inr (io, e) ↦
            rw (e, busy, complete_io)
              (handle_io-dropped outcome now started address io _ (v.never_accept address io e))
      ],
      λ address outcome now started io idle e. rw (e, idle, complete_io) refl,
    )
