-- ===== src/ConnectionManager.antt =====
-- connection_manager.h and connection_manager.cpp: rate limits, bans, mutes and timeouts.
-- A reading of std::chrono::steady_clock is a number of nanoseconds, and an argument of the method
-- that reads it; a method that reads the clock twice has two such arguments.
pub mod Window
pub mod RateLimit
pub mod Guards
pub mod MessageLimit
mod Tests
use multi_threaded_tcp_chat.Base.{
  ℕ, zero, suc, ◌+◌, ◌-◌, ◌*◌, Bool, true, false, not, ◌&&◌, Option, none, some, List, [], ◌∷◌,
  ◌++◌, ◌==◌, nat_eq, text_eq, if◌then◌else◌, ltb, leb, length,
}
use multi_threaded_tcp_chat.Base.Int.{ℤ, pos, negsuc, ◌+ℤ◌, scale, ltb_ℤ, is_zero}
use multi_threaded_tcp_chat.Base.Text.{Text}
use multi_threaded_tcp_chat.Base.Map.{Map, lookup, insert, erase, lookup_or}
use multi_threaded_tcp_chat.Base.Set.{contains, add, remove}

pub record Config : Type 0 where
  pub max_connections_per_second : ℕ
  pub max_messages_per_minute : ℕ
  pub heartbeat_interval_seconds : ℕ
  pub connection_timeout_seconds : ℕ
  pub max_total_connections : ℕ

-- When a mute ends: `time_point::max()` stands for never.
pub data Expiry : Type 0 where
  permanent : Expiry
  until : ℤ → Expiry

pub record ConnectionManager : Type 0 where
  pub config : Config
  pub open config use *
  pub connection_timestamps : List ℕ
  pub client_messages : Map ℕ (List ℕ)
  pub banned_ips : List Text
  pub muted_clients : Map ℕ Expiry
  pub last_activity : Map ℕ ℕ
  pub current_connections : ℕ

abbrev pub second : ℕ
second = 1000000000

abbrev pub minute : ℕ
minute = 60 * second

-- `struct Config` with its default member initialisers.
abbrev pub default_config : Config
default_config = record {
  max_connections_per_second = 50;
  max_messages_per_minute = 60;
  heartbeat_interval_seconds = 30;
  connection_timeout_seconds = 120;
  max_total_connections = 1000;
}

unfoldable pub init : Config → ConnectionManager
init cfg = record {
  config = cfg;
  connection_timestamps = [];
  client_messages = [];
  banned_ips = [];
  muted_clients = [];
  last_activity = [];
  current_connections = 0;
}

-- "Remove old timestamps": pop from the front while the front is before the cut.
unfoldable pub drop_old : ℕ → List ℕ → List ℕ
drop_old cut [] = []
drop_old cut (t ∷ ts) = let rest = drop_old cut ts in if ltb t cut then rest else t ∷ ts

unfoldable pub is_banned : Text → ConnectionManager → Bool
is_banned ip m = contains ip m.banned_ips

-- The part of AllowConnection that holds `rate_mutex`. A difference of times that would be negative
-- is 0 here; no reading of the clock is before either, so the comparison is the same.
unfoldable pub check_rate : ℕ → ConnectionManager → Bool × ConnectionManager
check_rate now m =
    let recent = drop_old (now - second) m.connection_timestamps in
    if leb m.max_connections_per_second (length recent)
    then (false, record m { connection_timestamps = recent })
    else (true, record m { connection_timestamps = recent ++ now ∷ [] })

unfoldable pub allow_connection : Text → ℕ → ConnectionManager → Bool × ConnectionManager
allow_connection ip now m =
    if is_banned ip m
    then (false, m)
    else if leb m.max_total_connections m.current_connections
    then (false, m)
    else check_rate now m

-- An expired mute is forgotten when it is asked for.
unfoldable pub is_muted : ℕ → ℕ → ConnectionManager → Bool × ConnectionManager
is_muted client_id now m = elim (lookup client_id m.muted_clients) [
  | none ↦ (false, m)
  | some permanent ↦ (true, m)
  | some (until e) ↦
      if ltb_ℤ e (pos now)
      then (false, record m { muted_clients = erase client_id m.muted_clients })
      else (true, m)
]

-- The part of AllowMessage that holds `message_mutex`.
unfoldable pub check_messages : ℕ → ℕ → ConnectionManager → Bool × ConnectionManager
check_messages client_id now m =
    let recent = drop_old (now - minute) (lookup_or [] client_id m.client_messages) in
    (
      ltb (length recent) m.max_messages_per_minute,
      record m { client_messages = insert client_id recent m.client_messages },
    )

unfoldable pub allow_message : ℕ → ℕ → ℕ → ConnectionManager → Bool × ConnectionManager
allow_message client_id now_mute now m =
    let (muted, m') = is_muted client_id now_mute m in
    if muted then (false, m') else check_messages client_id now m'

unfoldable pub update_activity : ℕ → ℕ → ConnectionManager → ConnectionManager
update_activity client_id now m = record m { last_activity = insert client_id now m.last_activity }

unfoldable pub record_message : ℕ → ℕ → ℕ → ConnectionManager → ConnectionManager
unfolding update_activity
record_message client_id now now_activity m =
    let sent = lookup_or [] client_id m.client_messages ++ now ∷ [] in
    update_activity client_id now_activity
      (record m { client_messages = insert client_id sent m.client_messages })

unfoldable pub ban : Text → ConnectionManager → ConnectionManager
ban ip m = record m { banned_ips = add ip m.banned_ips }

unfoldable pub unban : Text → ConnectionManager → ConnectionManager
unban ip m = record m { banned_ips = remove ip m.banned_ips }

-- One client of the list that CheckTimeouts walks.
unfoldable pub timed_out : ConnectionManager → ℕ → ℕ → Bool
timed_out m now id = elim (lookup id m.last_activity) [
  | none ↦ false
  | some last ↦ ltb (m.connection_timeout_seconds * second) (now - last)
]

unfoldable pub check_timeouts : List ℕ → ℕ → ConnectionManager → List ℕ
check_timeouts [] now m = []
check_timeouts (id ∷ ids) now m =
    let rest = check_timeouts ids now m in if timed_out m now id then id ∷ rest else rest

unfoldable pub mute : ℕ → ℤ → ℕ → ConnectionManager → ConnectionManager
mute client_id duration_seconds now m =
    if is_zero duration_seconds
    then record m { muted_clients = insert client_id permanent m.muted_clients }
    else record m {
      muted_clients =
          insert client_id (until (pos now +ℤ scale second duration_seconds)) m.muted_clients;
    }

unfoldable pub unmute : ℕ → ConnectionManager → ConnectionManager
unmute client_id m = record m { muted_clients = erase client_id m.muted_clients }

unfoldable pub on_connect : ConnectionManager → ConnectionManager
on_connect m = record m { current_connections = m.current_connections + 1 }

unfoldable pub on_disconnect : ConnectionManager → ConnectionManager
on_disconnect m =
    if ltb 0 m.current_connections
    then record m { current_connections = m.current_connections - 1 }
    else m
