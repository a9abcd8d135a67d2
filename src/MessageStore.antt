-- ===== src/MessageStore.antt =====
-- message_store.h and message_store.cpp: the messages kept in memory. The log file is in the child
-- `LogFile`.
pub mod Cached
pub mod Queries
pub mod Find
pub mod LogFile
pub mod Rotation
mod Tests
use multi_threaded_tcp_chat.Base.{
  ℕ, zero, suc, ◌+◌, ◌-◌, Bool, true, false, not, ◌&&◌, ◌||◌, Option, none, some, List, [], ◌∷◌,
  ◌++◌, map, ◌==◌, nat_eq, text_eq, if◌then◌else◌, ltb, leb, length, get_elem?,
}
use multi_threaded_tcp_chat.Base.Text.{Text, text}
use multi_threaded_tcp_chat.Base.Map.{Map, lookup, insert, erase, lookup_or}

-- The time stamp is a reading of std::chrono::system_clock.
pub record ChatMessage : Type 0 where
  pub sender_id : ℕ
  pub sender_name : Text
  pub room : Text
  pub content : Text
  pub timestamp : ℕ

pub record Config : Type 0 where
  pub max_messages_per_room : ℕ
  pub max_file_size_mb : ℕ
  pub log_directory : Text
  pub enable_persistence : Bool

abbrev pub default_config : Config
default_config = record {
  max_messages_per_room = 100;
  max_file_size_mb = 10;
  log_directory = text "./chat_logs";
  enable_persistence = true;
}

-- `room_messages`: for each room its messages, the oldest first.
abbrev pub Cache : Type 0
Cache = Map Text (List ChatMessage)

-- ChatMessage::ToString. How std::put_time writes a local time is up to the C library: `show_time`.
unfoldable pub to_string : (ℕ → Text) → ChatMessage → Text
to_string show_time msg =
    text "["
    ++ show_time msg.timestamp
    ++ text "] "
    ++ text "[#"
    ++ msg.room
    ++ text "] "
    ++ msg.sender_name
    ++ text ": "
    ++ msg.content

-- "Trim if over limit": pop from the front while there are too many.
unfoldable pub trim : ℕ → List ChatMessage → List ChatMessage
trim limit [] = []
trim limit (x ∷ xs) =
    let rest = trim limit xs in if ltb limit (length (x ∷ xs)) then rest else x ∷ xs

-- The part of Store that holds `cache_mutex`.
unfoldable pub store_cached : ℕ → ChatMessage → Cache → Cache
store_cached limit msg cache =
    insert msg.room (trim limit (lookup_or [] msg.room cache ++ msg ∷ [])) cache

-- `for (i = start; i < messages.size(); ++i) result.push_back(messages[i])`, by the rounds left.
unfoldable pub copy_range : ℕ → ℕ → List ChatMessage → List ChatMessage
copy_range zero i messages = []
copy_range (suc rounds) i messages = elim (get_elem? messages i) [
  | none ↦ []
  | some msg ↦ msg ∷ copy_range rounds (suc i) messages
]

unfoldable pub get_recent : Text → ℕ → Cache → List ChatMessage
get_recent room count cache = elim (lookup room cache) [
  | none ↦ []
  | some messages ↦
      let start = if ltb count (length messages) then length messages - count else 0 in
      copy_range (length messages - start) start messages
]

-- The inner loop of GetBySender; `true` if it has returned.
unfoldable pub sender_in_room :
    ℕ → ℕ → List ChatMessage → List ChatMessage → Bool × List ChatMessage
sender_in_room sender_id count [] result = (false, result)
sender_in_room sender_id count (msg ∷ msgs) result =
    let pushed = result ++ msg ∷ [] in
    let after_push = sender_in_room sender_id count msgs pushed in
    let skipped = sender_in_room sender_id count msgs result in
    if msg.sender_id == sender_id
    then (if leb count (length pushed) then (true, pushed) else after_push)
    else skipped

unfoldable pub sender_in_rooms : ℕ → ℕ → Cache → List ChatMessage → List ChatMessage
sender_in_rooms sender_id count [] result = result
sender_in_rooms sender_id count ((_, messages) ∷ rooms) result =
    let (returned, found) = sender_in_room sender_id count messages result in
    let rest = sender_in_rooms sender_id count rooms found in if returned then found else rest

unfoldable pub get_by_sender : ℕ → ℕ → Cache → List ChatMessage
get_by_sender sender_id count cache = sender_in_rooms sender_id count cache []

-- ::tolower in the "C" locale, which the program never leaves
unfoldable pub to_lower : ℕ → ℕ
to_lower c = if leb 65 c && leb c 90 then c + 32 else c

unfoldable pub starts_with : Text → Text → Bool
starts_with [] ys = true
starts_with (x ∷ xs) [] = false
starts_with (x ∷ xs) (y ∷ ys) = x == y && starts_with xs ys

-- `content.find(query) != npos`
unfoldable pub found_in : Text → Text → Bool
found_in query [] = starts_with query []
found_in query (c ∷ cs) = starts_with query (c ∷ cs) || found_in query cs

unfoldable pub matches : Text → ChatMessage → Bool
unfolding to_lower
matches lower_query msg = found_in lower_query (map to_lower msg.content)

-- `search_in_room` of Search
unfoldable pub search_in_room : ℕ → Text → List ChatMessage → List ChatMessage → List ChatMessage
search_in_room max_results lower_query [] result = result
search_in_room max_results lower_query (msg ∷ msgs) result =
    let rest =
      search_in_room max_results lower_query msgs
        (if matches lower_query msg then result ++ msg ∷ [] else result) in
    if leb max_results (length result) then result else rest

unfoldable pub search_in_rooms : ℕ → Text → Cache → List ChatMessage → List ChatMessage
search_in_rooms max_results lower_query [] result = result
search_in_rooms max_results lower_query ((_, messages) ∷ rooms) result =
    let found = search_in_room max_results lower_query messages result in
    let rest = search_in_rooms max_results lower_query rooms found in
    if leb max_results (length found) then found else rest

unfoldable pub search_messages : Text → Text → ℕ → Cache → List ChatMessage
search_messages query room max_results cache =
    let lower_query = map to_lower query in
    if not (room == [])
    then (elim (lookup room cache) [
      | none ↦ []
      | some messages ↦ search_in_room max_results lower_query messages []
    ])
    else search_in_rooms max_results lower_query cache []

unfoldable pub get_total_count : Cache → ℕ
get_total_count [] = 0
get_total_count ((_, messages) ∷ rooms) = length messages + get_total_count rooms

unfoldable pub clear : Text → Cache → Cache
clear room cache = if room == [] then [] else erase room cache
