-- ===== src/Commands.antt =====
-- The reading of a message in server.cpp: the trimming of HandleMessage, and what ProcessCommand
-- reads from its std::istringstream before it acts, in the "C" locale. What is left in the stream
-- is a text; a read at its end leaves the variable as it was.
pub mod Reading
pub mod Numbers
mod Tests
use multi_threaded_tcp_chat.Base.{
  ℕ, zero, suc, ◌+◌, ◌-◌, ◌*◌, Bool, true, false, not, ◌&&◌, ◌||◌, List, [], ◌∷◌, ◌++◌,
  if◌then◌else◌, ltb, leb, ◌==◌, nat_eq, text_eq, min,
}
use multi_threaded_tcp_chat.Base.Text.{Text, text}
use multi_threaded_tcp_chat.Base.Int.{ℤ, pos, negsuc}

-- '\n', '\r' and '\0'
unfoldable pub is_line_end : ℕ → Bool
is_line_end c = c == 10 || c == 13 || c == 0

-- "Trim whitespace" of HandleMessage: pop such characters from the back.
unfoldable pub trim_end : Text → Text
unfolding is_line_end
trim_end [] = []
trim_end (c ∷ cs) = let rest = trim_end cs in if is_line_end c && rest == [] then [] else c ∷ rest

-- std::isspace
unfoldable pub is_space : ℕ → Bool
is_space c = c == 32 || leb 9 c && leb c 13

unfoldable pub skip_spaces : Text → Text
skip_spaces [] = []
skip_spaces (c ∷ cs) = let rest = skip_spaces cs in if is_space c then rest else c ∷ cs

-- The characters up to the next space, and the rest.
unfoldable pub split_word : Text → Text × Text
split_word [] = ([], [])
split_word (c ∷ cs) =
    let (word, rest) = split_word cs in if is_space c then ([], c ∷ cs) else (c ∷ word, rest)

-- `iss >> word`
unfoldable pub read_word : Text → Text × Text
read_word input = split_word (skip_spaces input)

-- `std::getline(iss, line)`
unfoldable pub read_line : Text → Text
read_line [] = []
read_line (c ∷ cs) = let rest = read_line cs in if c == 10 then [] else c ∷ rest

unfoldable pub is_digit : ℕ → Bool
is_digit c = leb 48 c && leb c 57

unfoldable pub read_digits : ℕ → Text → ℕ
read_digits value [] = value
read_digits value (c ∷ cs) =
    let rest = read_digits (10 * value + (c - 48)) cs in if is_digit c then rest else value

-- Minus a number that was read.
unfoldable pub negative : ℕ → ℤ
negative zero = pos 0
negative (suc n) = negsuc n

-- `iss >> number`: at the end of the input the number stays, without a digit it is 0, and a value
-- that an int of 32 bits does not hold is replaced by the nearest that it does.
unfoldable pub read_int : ℤ → Text → ℤ
read_int number input = elim (skip_spaces input) [
  | [] ↦ number
  | c ∷ cs ↦
      if c == 45
      then negative (min (read_digits 0 cs) 2147483648)
      else pos (min (read_digits 0 (if c == 43 then cs else c ∷ cs)) 2147483647)
]

-- The branches of ProcessCommand, with the variables that are read in each.
pub data Command : Type 0 where
  exit_command help_command rooms_command leave_command online_command unknown_command : Command
  join_command create_command kick_command ban_command : Text → Command
  whisper_command : Text → Text → Command
  history_command : ℤ → Command
  mute_command : Text → ℤ → Command

unfoldable pub parse_command : Text → Command
parse_command cmd =
    let (command, input) = read_word cmd in
    let (word, rest) = read_word input in
    if command == text "#exit"
    then exit_command
    else if command == text "#help"
    then help_command
    else if command == text "#rooms"
    then rooms_command
    else if command == text "#join"
    then join_command word
    else if command == text "#create"
    then create_command word
    else if command == text "#leave"
    then leave_command
    else if command == text "#online"
    then online_command
    else if command == text "#whisper"
    then whisper_command word (read_line rest)
    else if command == text "#history"
    then history_command (read_int (pos 10) input)
    else if command == text "#kick"
    then kick_command word
    else if command == text "#ban"
    then ban_command word
    else if command == text "#mute"
    then mute_command word (read_int (pos 60) rest)
    else unknown_command
