-- ===== src/Times.antt =====
-- How times are shown: LocalTime of win32_compat.h and what server.cpp and message_store.cpp make of it.
-- `localtime` and std::put_time are arguments; a `struct tm` is a value of `Tm`, and `tm` is what the
-- variable has before it is set.
mod Tests
use multi_threaded_tcp_chat.Base.{ℕ, Option, none, some, ◌++◌}
use multi_threaded_tcp_chat.Base.Text.{Text, text}

module _ {Tm : Type 0} where
  -- `answer` is what `localtime` gives, `none` for a null pointer.
  unfoldable pub local_time : Option Tm → Tm → Tm
  local_time none result = result
  local_time (some t) result = t

module _ {Tm : Type 0} (localtime : ℕ → Option Tm) (put_time : Text → Tm → Text) (tm : Tm) where
  -- GetTimestampString of a message.
  unfoldable pub get_timestamp_string : ℕ → Text
  get_timestamp_string timestamp =
      put_time (text "%Y-%m-%d %H:%M:%S") (local_time (localtime timestamp) tm)

  -- GetTimestamp at the time `now`.
  unfoldable pub get_timestamp : ℕ → Text
  get_timestamp now = put_time (text "%H:%M:%S") (local_time (localtime now) tm)

  -- The line that PrintServerLog writes.
  unfoldable pub server_log_line : Text → ℕ → Text
  server_log_line message now = text "[" ++ get_timestamp now ++ text "] " ++ message
