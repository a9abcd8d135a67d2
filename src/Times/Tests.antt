-- ===== src/Times/Tests.antt =====
-- Times shown by a clock that knows only the first second.
use multi_threaded_tcp_chat.Base.{
  ℕ, ◌≡◌, refl, Option, none, some, ◌++◌, if◌then◌else◌, ◌==◌, nat_eq,
}
use multi_threaded_tcp_chat.Base.Text.{Text, text}
use multi_threaded_tcp_chat.Times.{local_time, get_timestamp, server_log_line}

abbrev only_zero : ℕ → Option ℕ
only_zero n = if n == 0 then some 7 else none

abbrev show : Text → ℕ → Text
show format t = if t == 7 then text "seven" else format

known :
    server_log_line only_zero show 9 (text "up") 0
    ≡ text "[" ++ text "seven" ++ text "] " ++ text "up"
unfolding server_log_line get_timestamp local_time
known = refl

-- What was in `tm` before is shown.
unknown : local_time (only_zero 1) 9 ≡ 9
unfolding local_time
unknown = refl
