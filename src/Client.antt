-- ===== src/Client.antt =====
-- client.cpp: the login, the thread that sends, the thread that receives, and the handler of Ctrl+C,
-- which share `g_running`. What Winsock answers is an argument.
pub mod Sending
pub mod Ending
pub mod Threads
pub mod Notices
mod Tests
use multi_threaded_tcp_chat.Base.{
  ℕ, Bool, true, false, not, ◌||◌, Option, none, some, List, [], ◌∷◌, ◌++◌, if◌then◌else◌, ◌==◌,
  nat_eq, text_eq, is_some, to_list,
}
use multi_threaded_tcp_chat.Base.Text.{Text, text}
use multi_threaded_tcp_chat.MessageStore.{found_in}
use multi_threaded_tcp_chat.Sockets.{ConnectAnswers, initialize_winsock, create_client_socket}

-- std::cin: the characters that are left, and whether a read has met their end.
pub record Console : Type 0 where
  pub rest : Text
  pub at_end : Bool

-- A line, what follows it, and whether the end came before a line feed.
pub record Cut : Type 0 where
  pub line : Text
  pub left : Text
  pub ended : Bool

unfoldable pub cut_line : Text → Cut
cut_line [] = record { line = []; left = []; ended = true }
cut_line (c ∷ cs) =
    let cut = cut_line cs in
    if c == 10
    then record { line = []; left = cs; ended = false }
    else record { line = c ∷ cut.line; left = cut.left; ended = cut.ended }

-- `std::getline(std::cin, input)`. Once the end was met, it fails before it clears `input`.
unfoldable pub getline : Console → Text → Text × Console
getline cin input =
    if cin.at_end
    then (input, cin)
    else let cut = cut_line cin.rest in (cut.line, record { rest = cut.left; at_end = cut.ended })

-- Where SendMessages stands: before the loop's test of `g_running`, before getline, before the test
-- that follows it, before `send`, or behind the loop.
pub data Sender : Type 0 where
  send_tests send_reads send_checks send_writes send_returned : Sender

-- Where ReceiveMessages stands: before the loop's test, in recv, or behind the loop.
pub data Receiver : Type 0 where
  recv_tests recv_waits recv_returned : Receiver

-- The globals and the local `input` of SendMessages, and behind them the sockets that were closed,
-- the calls of `send`, and those of PrintMessage with their colour, each list in order.
pub record Client : Type 0 where
  pub socket : Option ℕ
  pub running : Bool
  pub username : Text
  pub cin : Console
  pub input : Text
  pub sender : Sender
  pub receiver : Receiver
  pub closed : List ℕ
  pub sent : List Text
  pub printed : List (Text × ℕ)

unfoldable pub print_message : Text → ℕ → Client → Client
print_message msg color c = record c { printed = c.printed ++ (msg, color) ∷ [] }

-- The colour that ReceiveMessages gives a message.
unfoldable pub message_color : Text → ℕ
message_color message =
    if found_in (text "has joined") message || found_in (text "has left") message
    then 14
    else if found_in (text "[Whisper") message
    then 13
    else if found_in (text "Available") message
        || found_in (text "Online users") message
        || found_in (text "commands:") message
    then 11
    else if found_in (text "Error") message
        || found_in (text "Failed") message
        || found_in (text "kicked") message
        || found_in (text "banned") message
        || found_in (text "muted") message
    then 12
    else 10

-- What follows recv; the message is empty where recv gives 0 or an error.
unfoldable pub receive : Text → Client → Client
unfolding print_message
receive message c =
    if message == []
    then (if c.running
        then record (print_message (text "\nDisconnected from server.\n") 12 c) {
          running = false;
          receiver = recv_returned;
        }
        else record c { receiver = recv_returned })
    else record (print_message message (message_color message) c) { receiver = recv_tests }

unfoldable pub receive_step : Text → Client → Client
unfolding receive
receive_step message c = elim c.receiver [
  | recv_tests ↦ record c { receiver = if c.running then recv_waits else recv_returned }
  | recv_waits ↦ receive message c
  | recv_returned ↦ c
]

-- `input[0] == '#'`
unfoldable pub is_command : Text → Bool
is_command [] = false
is_command (x ∷ _) = x == 35

-- From the call of `send` to the end of the round; `succeeded` is false for SOCKET_ERROR.
unfoldable pub write : Bool → Client → Client
unfolding print_message
write succeeded c =
    let called = record c { sent = c.sent ++ c.input ∷ [] } in
    if not succeeded
    then record (print_message (text "Failed to send message.\n") 12 called) {
      running = false;
      sender = send_returned;
    }
    else if c.input == text "#exit"
    then record called { running = false; sender = send_returned }
    else if is_command c.input
    then record called { sender = send_tests }
    else record (print_message (text "You: " ++ c.input ++ text "\n") 15 called) {
      sender = send_tests;
    }

unfoldable pub send_step : Bool → Client → Client
unfolding write getline
send_step succeeded c = elim c.sender [
  | send_tests ↦ record c { sender = if c.running then send_reads else send_returned }
  | send_reads ↦
      let read = getline c.cin c.input in
      record c { input = read.0; cin = read.1; sender = send_checks }
  | send_checks ↦
      if not c.running
      then record c { sender = send_returned }
      else record c { sender = if c.input == [] then send_tests else send_writes }
  | send_writes ↦ write succeeded c
  | send_returned ↦ c
]

-- ConsoleHandler; `interrupt` says that the signal is CTRL_C_EVENT or CTRL_BREAK_EVENT.
unfoldable pub console_handler : Bool → Client → Bool × Client
console_handler interrupt c =
    if interrupt
    then (
      true,
      record c {
        sent = if is_some c.socket then c.sent ++ text "#exit" ∷ [] else c.sent;
        running = false;
      },
    )
    else (false, c)

-- main until both threads run, for the result of WSAStartup and what is typed; `none` for an exit
-- with 1.
unfoldable pub login : ℕ → ConnectAnswers → Text → Option Client
unfolding getline
login startup answers typed =
    if not (initialize_winsock startup) then none else elim (create_client_socket answers).result [
      | none ↦ none
      | some socket ↦
          let read = getline (record { rest = typed; at_end = false }) [] in
          let username = if read.0 == [] then text "Anonymous" else read.0 in
          some (record {
            socket = some socket;
            running = true;
            username = username;
            cin = read.1;
            input = [];
            sender = send_tests;
            receiver = recv_tests;
            closed = [];
            sent = username ∷ [];
            printed =
                (text "Connected!\n\n", 10)
                ∷ (text "\nWelcome, " ++ username ++ text "!\n", 14)
                ∷ (
                  text
                      "Type #help for available commands. Type messages and press Enter to send.\n\n",
                  11,
                )
                ∷ [];
          })
    ]

-- "Cleanup" of main, after SendMessages has returned.
unfoldable pub close : Client → Client
close c = record c { running = false; closed = c.closed ++ to_list c.socket }
