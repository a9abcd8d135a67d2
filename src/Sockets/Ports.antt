-- ===== src/Sockets/Ports.antt =====
-- The port that server.cpp and client.cpp take from their arguments, and what sockutil.cpp makes of it.
-- `atoi` is an argument; `args` are the arguments behind the name of the program.
use multi_threaded_tcp_chat.Base.{ℕ, ◌-◌, ◌%◌, ◌^◌, ◌<◌, ◌≡◌, ◌↔◌, refl, List, [], ◌∷◌, arith}
use multi_threaded_tcp_chat.Base.Int.{ℤ, pos, negsuc}
use multi_threaded_tcp_chat.Base.Text.{Text, text}

-- The conversion of an int to the u_short that `htons` takes.
unfoldable pub to_u_short : ℤ → ℕ
to_u_short (pos n) = n % 2 ^ 16
to_u_short (negsuc n) = 2 ^ 16 - 1 - n % 2 ^ 16

abbrev pub default_port : ℕ
default_port = 8080

-- `port` of main of server.cpp.
unfoldable pub server_port : (Text → ℤ) → List Text → ℤ
server_port atoi [] = pos default_port
server_port atoi (port ∷ rest) = atoi port

-- `server_ip` and `port` of main of client.cpp.
unfoldable pub client_target : (Text → ℤ) → List Text → Text × ℤ
client_target atoi [] = (text "127.0.0.1", pos 8080)
client_target atoi (ip ∷ []) = (ip, pos 8080)
client_target atoi (ip ∷ port ∷ rest) = (ip, atoi port)

bounded : (z : ℤ) → to_u_short z < 2 ^ 16
unfolding to_u_short
bounded (pos n) = omega arith
bounded (negsuc n) = omega arith

exact : (n : ℕ) → (to_u_short (pos n) ≡ n) ↔ (n < 2 ^ 16)
unfolding to_u_short
exact n = (λ h. omega (arith, h), λ h. omega (arith, h))

-- A client and a server that are given the same port, or both none, mean the same one on the network,
-- which is a port, and is the number that was given exactly if that is below 65536.
pub ports_agree :
    (atoi : Text → ℤ) (ip port : Text)
    → (to_u_short (client_target atoi (ip ∷ [])).1 ≡ to_u_short (server_port atoi []))
      × (to_u_short (client_target atoi (ip ∷ port ∷ [])).1
          ≡ to_u_short (server_port atoi (port ∷ [])))
      × (to_u_short (server_port atoi (port ∷ [])) < 2 ^ 16)
      × ((n : ℕ)
          → atoi port ≡ pos n
          → (to_u_short (server_port atoi (port ∷ [])) ≡ n) ↔ (n < 2 ^ 16))
unfolding client_target server_port
ports_agree atoi ip port = (refl, refl, bounded (atoi port), λ n e. rw e (exact n))
