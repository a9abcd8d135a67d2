-- ===== src/Sockets.antt =====
-- sockutil.cpp: how sockets are made, and the address of a peer as text. What Winsock answers is an
-- argument; a SOCKET is a number, and INVALID_SOCKET is `none`.
pub mod Making
pub mod Address
pub mod Ports
mod Tests
use multi_threaded_tcp_chat.Base.{
  ℕ, ◌+◌, ◌-◌, ◌%◌, ◌^◌, Bool, true, false, not, Option, none, some, List, [], ◌∷◌, ◌++◌,
  if◌then◌else◌, length, get_elem?, ◌==◌, nat_eq,
}
use multi_threaded_tcp_chat.Base.Int.{ℤ, pos, negsuc}
use multi_threaded_tcp_chat.Base.Text.{Text, text, to_string}

-- What a function gives back, and the sockets that it has opened and closed on the way.
pub record Made : Type 0 where
  pub result : Option ℕ
  pub opened : List ℕ
  pub closed : List ℕ

-- WSASocket, bind and listen.
pub record ListenAnswers : Type 0 where
  pub socket : Option ℕ
  pub bound : Bool
  pub listening : Bool

unfoldable pub create_listen_socket : ListenAnswers → Made
create_listen_socket a = elim a.socket [
  | none ↦ record { result = none; opened = []; closed = [] }
  | some listen_socket ↦
      if not a.bound
      then record { result = none; opened = listen_socket ∷ []; closed = listen_socket ∷ [] }
      else if not a.listening
      then record { result = none; opened = listen_socket ∷ []; closed = listen_socket ∷ [] }
      else record { result = some listen_socket; opened = listen_socket ∷ []; closed = [] }
]

-- socket, inet_addr (`none` for INADDR_NONE) and connect.
pub record ConnectAnswers : Type 0 where
  pub socket : Option ℕ
  pub address : Option ℕ
  pub connected : Bool

unfoldable pub create_client_socket : ConnectAnswers → Made
create_client_socket a = elim a.socket [
  | none ↦ record { result = none; opened = []; closed = [] }
  | some client_socket ↦ elim a.address [
    | none ↦ record { result = none; opened = client_socket ∷ []; closed = [] }
    | some _ ↦
        if not a.connected
        then record { result = none; opened = client_socket ∷ []; closed = client_socket ∷ [] }
        else record { result = some client_socket; opened = client_socket ∷ []; closed = [] }
  ]
]

-- GetSocketAddress: `peer` is the address in dots and the port, if getpeername and inet_ntoa succeed.
unfoldable pub get_socket_address : Option (Text × ℕ) → Text
get_socket_address none = text "unknown"
get_socket_address (some (ip, port)) = ip ++ (text ":" ++ to_string port)

-- InitializeWinsock, on the result of WSAStartup.
unfoldable pub initialize_winsock : ℕ → Bool
initialize_winsock result = if not (result == 0) then false else true

-- GetErrorMessage; `none` where FormatMessageA leaves no text.
unfoldable pub get_error_message : Option Text → Text
get_error_message none = text "Unknown error"
get_error_message (some msg_buf) = msg_buf

-- Each code is the escape character and a bracket, the number, and an m.
unfoldable pub colors : List Text
colors =
    (27 ∷ text "[31m")
    ∷ (27 ∷ text "[32m")
    ∷ (27 ∷ text "[33m")
    ∷ (27 ∷ text "[34m")
    ∷ (27 ∷ text "[35m")
    ∷ (27 ∷ text "[36m")
    ∷ []

-- An int where a size_t of 64 bits is wanted.
unfoldable pub to_size : ℤ → ℕ
to_size (pos n) = n % 2 ^ 64
to_size (negsuc n) = 2 ^ 64 - 1 - n % 2 ^ 64

-- `none` would be a read out of range.
unfoldable pub color : ℤ → Option Text
color code = if length colors == 0 then some [] else get_elem? colors (to_size code % length colors)
