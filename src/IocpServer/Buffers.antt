-- ===== src/IocpServer/Buffers.antt =====
-- The PER_IO_DATA of iocp_server.cpp: who makes and who deletes one. An address is the number of the
-- `new` that gave it. Windows has a PER_IO_DATA from a WSARecv or WSASend that began until a completion
-- gives it back.
use multi_threaded_tcp_chat.Base.{
  ℕ, ◌+◌, Bool, true, false, not, ◌&&◌, none, some, List, [], ◌∷◌, ◌++◌, if◌then◌else◌, length,
  ◌==◌, nat_eq,
}
use multi_threaded_tcp_chat.Base.Text.{Text}
use multi_threaded_tcp_chat.Base.Map.{Map, lookup, insert, erase}
use multi_threaded_tcp_chat.IocpServer.{IocpServer, init, cleanup_client, post_write}
use multi_threaded_tcp_chat.IocpServer.Completions.{Accepted, handle_accept, handle_read}

pub data IoOperation : Type 0 where
  read write accept : IoOperation

unfoldable pub is_accept : IoOperation → Bool
is_accept read = false
is_accept write = false
is_accept accept = true

-- PER_IO_DATA, less the buffer.
pub record IoData : Type 0 where
  pub operation : IoOperation
  pub client_id : ℕ
  pub socket : ℕ

-- The PER_IO_DATA that Windows has, those that were deleted, and those that a worker got back and left.
pub record Buffers : Type 0 where
  pub server : IocpServer
  pub next_address : ℕ
  pub held : Map ℕ IoData
  pub freed : List ℕ
  pub dropped : List ℕ

abbrev pub no_buffers : Buffers
no_buffers = record { server = init; next_address = 0; held = []; freed = []; dropped = [] }

-- What becomes of a PER_IO_DATA when WSARecv or WSASend is called with it.
unfoldable pub hand_over : Bool → ℕ → IoData → Buffers → Buffers
hand_over started address io b =
    if started
    then record b { held = insert address io b.held }
    else record b { freed = b.freed ++ address ∷ [] }

unfoldable pub make_and_hand_over : Bool → IoData → Buffers → Buffers
make_and_hand_over started io b =
    hand_over started b.next_address io (record b { next_address = b.next_address + 1 })

-- HandleAccept.
unfoldable pub accept_io : Accepted → Buffers → Buffers
accept_io a b =
    let io : IoData = record {
      operation = read;
      client_id = b.server.next_client_id;
      socket = a.socket;
    } in
    let entered = record b { server = handle_accept a b.server } in
    if not a.associated then entered else make_and_hand_over a.read_started io entered

-- PostWrite; `started` says whether WSASend has begun, at once or with WSA_IO_PENDING.
unfoldable pub write_io : Bool → ℕ → Text → Buffers → Buffers
write_io started client_id message b = elim (lookup client_id b.server.clients) [
  | none ↦ b
  | some c ↦
      make_and_hand_over started
        (record { operation = write; client_id = client_id; socket = c.socket })
        (record b { server = post_write client_id message b.server })
]

-- What a completion says of its PER_IO_DATA: that the operation failed, or the bytes transferred.
pub data Outcome : Type 0 where
  io_failed : Outcome
  io_done : Text → Outcome

unfoldable pub delete_io : ℕ → Buffers → Buffers
delete_io address b = record b { freed = b.freed ++ address ∷ [] }

unfoldable pub handle_write : ℕ → Buffers → Buffers
unfolding delete_io
handle_write address b = delete_io address b

-- HandleRead, with PostRead at its end.
unfoldable pub read_io : Text → ℕ → Bool → ℕ → IoData → Buffers → Buffers
read_io received now started address io b = hand_over started address io (record b {
  server =
      handle_read (record { client_id = io.client_id; socket = io.socket }) received now started
        b.server;
})

-- The switch over the operation.
unfoldable pub dispatch_io : IoOperation → Text → ℕ → Bool → ℕ → IoData → Buffers → Buffers
dispatch_io read received now started address io b = read_io received now started address io b
dispatch_io write received now started address io b = handle_write address b
dispatch_io accept received now started address io b = record b {
  dropped = b.dropped ++ address ∷ [];
}

-- A round of IOCPWorkerThread, once GetQueuedCompletionStatus has given it the PER_IO_DATA.
unfoldable pub handle_io : Outcome → ℕ → Bool → ℕ → IoData → Buffers → Buffers
handle_io io_failed now started address io b =
    delete_io address (record b { server = cleanup_client io.client_id b.server })
handle_io (io_done received) now started address io b =
    if (length received == 0) && not (is_accept io.operation)
    then delete_io address (record b { server = cleanup_client io.client_id b.server })
    else dispatch_io io.operation received now started address io b

-- Windows gives back a PER_IO_DATA only if it has it. A worker that finds the server stopped leaves
-- its loop with what it was given.
unfoldable pub complete_io : ℕ → Outcome → ℕ → Bool → Buffers → Buffers
complete_io address outcome now started b = elim (lookup address b.held) [
  | none ↦ b
  | some io ↦
      let taken = record b { held = erase address b.held } in
      if not b.server.running
      then record taken { dropped = b.dropped ++ address ∷ [] }
      else handle_io outcome now started address io taken
]
