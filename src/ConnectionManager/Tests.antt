-- ===== src/ConnectionManager/Tests.antt =====
-- connection_manager.cpp on concrete calls, with a limit of one connection a second and two messages a
-- minute.
use multi_threaded_tcp_chat.Base.{
  ℕ, ◌+◌, ◌≤◌, true, false, List, [], ◌∷◌, ◌++◌, ◌≡◌, refl, arith, text_eq, nat_eq, if◌then◌else◌,
  ◌*◌,
}
use multi_threaded_tcp_chat.Base.Int.{pos, ◌+ℤ◌, scale}
use multi_threaded_tcp_chat.Base.Text.{Text, text}
use multi_threaded_tcp_chat.Base.Map.{lookup, insert, erase}
use multi_threaded_tcp_chat.Base.Set.{contains}
use multi_threaded_tcp_chat.ConnectionManager.{
  Config, ConnectionManager, init, second, minute, drop_old, is_banned, check_rate,
  allow_connection, is_muted, check_messages, allow_message, update_activity, record_message, ban,
  mute,
}
use multi_threaded_tcp_chat.ConnectionManager.Window.{count_within}
use multi_threaded_tcp_chat.ConnectionManager.RateLimit.{
  Admits, start, try_connect, connected, connections_per_second,
}
use multi_threaded_tcp_chat.ConnectionManager.MessageLimit.{
  Readings, attempt, Sends, own, messages_per_minute,
}
use multi_threaded_tcp_chat.ConnectionManager.Guards.{call, connect, run, banned_until_unban}

abbrev tight : Config
tight = record {
  max_connections_per_second = 1;
  max_messages_per_minute = 2;
  heartbeat_interval_seconds = 30;
  connection_timeout_seconds = 300;
  max_total_connections = 3;
}

abbrev peer : Text
peer = text "10.0.0.1:5000"

abbrev one_in : ConnectionManager
one_in = (allow_connection peer 5 (init tight)).1

abbrev one_log : List ℕ
one_log = if (allow_connection peer 5 (init tight)).0 then [] ++ 5 ∷ [] else []

one_history : Admits tight one_in one_log 5
one_history = try_connect peer 5 start (omega arith)

second_refused :
    ((allow_connection peer 5 (init tight)).0 ≡ true)
    × ((allow_connection peer 6 one_in).0 ≡ false)
    × ((allow_connection peer (6 + second) one_in).0 ≡ true)
unfolding init allow_connection is_banned check_rate drop_old contains text
second_refused = (refl, refl, refl)

connections_per_second_example : count_within 5 (5 + second) one_log ≤ 1
connections_per_second_example = connections_per_second one_history 5

abbrev readings : Readings
readings = record { asked_mute = 8; asked = 9; recorded = 10; active = 11; in_order = omega arith }

abbrev sent_log : List ℕ
sent_log = if (attempt 7 readings (init tight)).0 then [] ++ 10 ∷ [] else []

sent_history : Sends tight 7 (attempt 7 readings (init tight)).1 sent_log 10
sent_history = own readings Sends.start (omega arith)

messages_per_minute_example : count_within 0 (0 + minute) sent_log ≤ 2
messages_per_minute_example = messages_per_minute sent_history 0

sent : sent_log ≡ 10 ∷ []
unfolding init attempt allow_message is_muted check_messages record_message update_activity drop_old
    lookup insert
sent = refl

banned_until_unban_example :
    allow_connection peer 9 (run (connect peer 6 ∷ call connected ∷ []) (ban peer (init tight)))
    ≡ (false, run (connect peer 6 ∷ call connected ∷ []) (ban peer (init tight)))
banned_until_unban_example =
    banned_until_unban peer (connect peer 6 ∷ call connected ∷ []) 9 (init tight)
      (λ e. cc, (λ e. cc, tt))

-- 60 seconds from second 1, asked for at second 61 and just after.
mute_ends :
    ((is_muted 4 (61 * second) (mute 4 (pos 60) second (init tight))).0 ≡ true)
    × ((is_muted 4 (61 * second + 1) (mute 4 (pos 60) second (init tight))).0 ≡ false)
unfolding init is_muted mute lookup insert erase ◌+ℤ◌ scale
mute_ends = (refl, refl)
