-- ===== src/Sockets/Making.antt =====
-- Which sockets are left open.
use multi_threaded_tcp_chat.Base.{
  ℕ, ◌<◌, ◌≡◌, refl, true, ◌&&◌, is_some, zero, suc, ◌%◌, none, some, [], ◌∷◌, ◌++◌, if◌then◌else◌,
  get_elem?, to_list, arith,
}
use multi_threaded_tcp_chat.Base.Int.{ℤ}
use multi_threaded_tcp_chat.Base.Text.{Text}
use multi_threaded_tcp_chat.Sockets.{
  Made, ListenAnswers, create_listen_socket, ConnectAnswers, create_client_socket, colors, to_size,
  color,
}

-- What was opened is what was closed and what is given back.
abbrev pub IsTidy : Made → Type 0
IsTidy m = m.opened ≡ m.closed ++ to_list m.result

pub create_listen_socket-IsTidy : (a : ListenAnswers) → IsTidy (create_listen_socket a)
unfolding create_listen_socket
create_listen_socket-IsTidy a = ground arith

-- CreateListenSocket gives a socket exactly when all of WSASocket, bind and listen succeed, and on every
-- other way out has closed what it opened. CreateClientSocket too gives one exactly when all its calls
-- succeed, but where the address is not valid it leaves the socket open that it has made; on every
-- other way out it is tidy.
pub sockets_on_errors :
    ((a : ListenAnswers)
      → IsTidy (create_listen_socket a)
        × ((create_listen_socket a).result ≡ (if a.bound && a.listening then a.socket else none)))
    × ((a : ConnectAnswers)
        → ((create_client_socket a).result
            ≡ (if is_some a.address && a.connected then a.socket else none))
          × (is_some a.address ≡ true → IsTidy (create_client_socket a))
          × ((s : ℕ)
              → a.socket ≡ some s
              → a.address ≡ none
              → ((create_client_socket a).opened ≡ s ∷ [])
                × ((create_client_socket a).closed ≡ [])))
unfolding create_listen_socket create_client_socket
sockets_on_errors = (
  λ a. (ground arith, ground arith),
  λ a. (ground arith, λ valid. ground arith, λ s made invalid. (ground arith, ground arith)),
)

-- `color` never reads out of range, whatever int it is given.
pub color_total : (code : ℤ) → (c : Text) × (color code ≡ some c)
unfolding color colors
color_total code = within (to_size code % 6) (omega arith)
  where
    within : (i : ℕ) → i < 6 → (c : Text) × (get_elem? colors i ≡ some c)
    within zero h = (_, refl)
    within (suc zero) h = (_, refl)
    within (suc (suc zero)) h = (_, refl)
    within (suc (suc (suc zero))) h = (_, refl)
    within (suc (suc (suc (suc zero)))) h = (_, refl)
    within (suc (suc (suc (suc (suc zero))))) h = (_, refl)
    within (suc (suc (suc (suc (suc (suc i)))))) h = absurd (omega arith)
