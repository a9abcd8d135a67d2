-- ===== src/Commands/Tests.antt =====
-- Messages that are read.
use multi_threaded_tcp_chat.Base.{◌≡◌, refl, nat_eq, text_eq}
use multi_threaded_tcp_chat.Base.Text.{text}
use multi_threaded_tcp_chat.Base.Int.{pos, negsuc}
use multi_threaded_tcp_chat.Base.Eq.{text_beq}
use multi_threaded_tcp_chat.Commands.{
  trim_end, is_space, skip_spaces, split_word, read_word, read_line, is_digit, read_digits,
  negative, read_int, parse_command, whisper_command, mute_command, history_command,
}

trimmed : trim_end (text "hi \r\n") ≡ text "hi "
unfolding trim_end text text_beq
trimmed = refl

whispered :
    parse_command (text "#whisper  bob hi there\nmore")
    ≡ whisper_command (text "bob") (text " hi there")
unfolding parse_command read_word skip_spaces is_space split_word read_line text text_beq
whispered = refl

-- Without a number the default stays, and what is no number is 0.
mutings :
    (parse_command (text "#mute bob") ≡ mute_command (text "bob") (pos 60))
    × (parse_command (text "#mute bob abc") ≡ mute_command (text "bob") (pos 0))
    × (parse_command (text "#mute bob -5x") ≡ mute_command (text "bob") (negsuc 4))
unfolding parse_command read_word skip_spaces is_space split_word read_int read_digits is_digit
    negative text text_beq
mutings = (refl, refl, refl)

capped : parse_command (text "#history 99999999999") ≡ history_command (pos 2147483647)
unfolding parse_command read_word skip_spaces is_space split_word read_int read_digits is_digit text
    text_beq
capped = refl
