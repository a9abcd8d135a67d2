-- ===== src/Client/Tests.antt =====
-- client.cpp with Ann, who says hi.
use multi_threaded_tcp_chat.Base.{
  ℕ, ◌+◌, ◌*◌, ◌≤◌, ◌≡◌, ◌≢◌, ◌⊎◌, refl, true, false, none, some, List, [], ◌∷◌, ◌++◌, keep, length,
  suc, nat_eq,
}
use multi_threaded_tcp_chat.Base.Eq.{text_beq}
use multi_threaded_tcp_chat.Base.Text.{Text, text}
use multi_threaded_tcp_chat.MessageStore.{found_in, starts_with}
use multi_threaded_tcp_chat.Sockets.{ConnectAnswers, initialize_winsock, create_client_socket}
use multi_threaded_tcp_chat.Client.{
  Client, cut_line, getline, login, send_tests, send_returned, recv_tests, recv_returned,
  message_color, close,
}
use multi_threaded_tcp_chat.Client.Sending.{
  IsLine, lines_then, script, send_steps, is_full, name_for, session_sends,
}
use multi_threaded_tcp_chat.Client.Ending.{copies, end_of_input}
use multi_threaded_tcp_chat.Client.Threads.{
  Event, sends, receives, signals, apply_all, number, is_send, is_receive, is_interrupt, pending,
  stops_soon,
}
use multi_threaded_tcp_chat.Client.Notices.{notice_colors}
use multi_threaded_tcp_chat.Server.{as_line}

abbrev ann : Text
ann = text "ann"

abbrev hi : Text
hi = text "hi"

abbrev reached : ConnectAnswers
reached = record { socket = some 5; address = some 1; connected = true }

-- The client of someone who has typed a name, with the rest still to be read.
abbrev greeted : Text → Client
greeted rest = record {
  socket = some 5;
  running = true;
  username = ann;
  cin = record { rest = rest; at_end = false };
  input = [];
  sender = send_tests;
  receiver = recv_tests;
  closed = [];
  sent = ann ∷ [];
  printed =
      (text "Connected!\n\n", 10)
      ∷ (text "\nWelcome, " ++ ann ++ text "!\n", 14)
      ∷ (text "Type #help for available commands. Type messages and press Enter to send.\n\n", 11)
      ∷ [];
}

logged_in : (rest : Text) → login 0 reached (ann ++ 10 ∷ rest) ≡ some (greeted rest)
unfolding login getline cut_line initialize_winsock create_client_socket text text_beq
logged_in rest = refl

refused : login 0 (record { socket = some 5; address = some 1; connected = false }) ann ≡ none
unfolding login initialize_winsock create_client_socket
refused = refl

shown_in_green : message_color (text "bob joined #games\n") ≡ 10
unfolding message_color found_in starts_with text
shown_in_green = refl

closed_once : (close (greeted [])).closed ≡ 5 ∷ []
unfolding close
closed_once = refl

ann-IsLine : IsLine ann
unfolding text
ann-IsLine = (refl, (refl, (refl, tt)))

hi-IsLine : IsLine hi
unfolding text
hi-IsLine = (refl, (refl, tt))

hi_no_exit : hi ≢ text "#exit"
unfolding text
hi_no_exit = λ e. absurd (cc)

nothing_no_exit : [] ≢ text "#exit"
unfolding text
nothing_no_exit = λ e. absurd (cc)

abbrev lines : List Text
lines = [] ∷ hi ∷ []

session_sends_example :
    (n : ℕ) × ((send_steps n (greeted (script lines hi))).sender ≡ send_returned)
    × ((send_steps n (greeted (script lines hi))).running ≡ false)
    × ((send_steps n (greeted (script lines hi))).sent
        ≡ name_for ann ∷ keep is_full lines ++ text "#exit" ∷ [])
    × ((send_steps n (greeted (script lines hi))).cin.rest ≡ hi)
session_sends_example =
    session_sends reached ann lines hi (greeted (script lines hi)) ann-IsLine (tt, (hi-IsLine, tt))
      (nothing_no_exit, (hi_no_exit, tt)) (logged_in (script lines hi))

-- Ann types nothing, then "hi", and then "hi" again without a line feed.
abbrev unfinished : Client
unfinished = greeted (lines_then lines hi)

end_of_input_example :
    (m : ℕ) × ((send_steps m unfinished).sent ≡ name_for ann ∷ keep is_full lines)
    × (hi ≢ []
        → (k : ℕ)
        → ((send_steps (m + suc k * 4) unfinished).sent
            ≡ (name_for ann ∷ keep is_full lines) ++ copies (suc k) hi)
          × ((send_steps (m + suc k * 4) unfinished).running ≡ true))
    × (hi ≡ []
        → (n : ℕ)
        → ((send_steps (m + n) unfinished).sent ≡ name_for ann ∷ keep is_full lines)
          × ((send_steps (m + n) unfinished).running ≡ true)
          × ((send_steps (m + n) unfinished).sender ≢ send_returned))
end_of_input_example =
    end_of_input reached ann hi lines unfinished ann-IsLine (tt, (hi-IsLine, tt))
      (nothing_no_exit, (hi_no_exit, tt)) hi-IsLine hi_no_exit (logged_in (lines_then lines hi))

-- Ctrl+C comes while the client waits for a line.
abbrev interrupted : Client
interrupted = record (greeted hi) { running = false }

abbrev after_that : List Event
after_that = sends true ∷ receives hi ∷ signals true ∷ sends true ∷ receives [] ∷ []

stops_soon_example :
    ((apply_all after_that interrupted).running ≡ false)
    × (length (apply_all after_that interrupted).sent
        ≤ length interrupted.sent + pending interrupted.sender + number is_interrupt after_that)
    × (pending interrupted.sender ≤ 1)
    × (2 ≤ number is_send after_that → (apply_all after_that interrupted).sender ≡ send_returned)
    × (2 ≤ number is_receive after_that
        → (apply_all after_that interrupted).receiver ≡ recv_returned)
stops_soon_example = stops_soon after_that interrupted refl

notice_colors_example :
    (message_color (as_line (ann ++ text " has joined #" ++ hi)) ≡ 14)
    × (message_color (as_line (ann ++ text " has left the chat")) ≡ 14)
    × (message_color (as_line (ann ++ text "has joined" ++ hi)) ≡ 14)
    × ((message_color (as_line (text "[Whisper from " ++ ann ++ text "]:" ++ hi)) ≡ 13)
        ⊎ (message_color (as_line (text "[Whisper from " ++ ann ++ text "]:" ++ hi)) ≡ 14))
    × ((message_color (as_line (text "[Whisper to " ++ ann ++ text "]:" ++ hi)) ≡ 13)
        ⊎ (message_color (as_line (text "[Whisper to " ++ ann ++ text "]:" ++ hi)) ≡ 14))
notice_colors_example = notice_colors ann hi hi
