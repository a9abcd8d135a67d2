-- ===== src/Sockets/Tests.antt =====
-- sockutil.cpp with a peer at 1.2.3.4.
use multi_threaded_tcp_chat.Base.{◌≡◌, refl, true, false, none, some, [], ◌∷◌, nat_eq}
use multi_threaded_tcp_chat.Base.Int.{negsuc}
use multi_threaded_tcp_chat.Base.Text.{text}
use multi_threaded_tcp_chat.Sockets.{
  create_listen_socket, create_client_socket, colors, to_size, color,
}

port_taken :
    create_listen_socket (record { socket = some 7; bound = false; listening = true })
    ≡ record { result = none; opened = 7 ∷ []; closed = 7 ∷ [] }
unfolding create_listen_socket
port_taken = refl

not_an_address :
    create_client_socket (record { socket = some 7; address = none; connected = true })
    ≡ record { result = none; opened = 7 ∷ []; closed = [] }
unfolding create_client_socket
not_an_address = refl

-- 2 ^ 64 - 1 leaves 3 when it is divided by 6.
below_zero : color (negsuc 0) ≡ some (27 ∷ text "[34m")
unfolding color colors to_size text
below_zero = refl
