-- ===== src/MessageStore/Tests.antt =====
-- message_store.cpp on concrete messages, with two messages kept in a room, and a disk that is a
-- table of the contents of files.
use multi_threaded_tcp_chat.Base.{
  ℕ, ◌≡◌, refl, arith, true, List, [], ◌∷◌, ◌++◌, ◌↔◌, Bool, map, some, length, take, keep, min,
  text_eq, nat_eq,
}
use multi_threaded_tcp_chat.Base.Text.{Text, text}
use multi_threaded_tcp_chat.Base.Eq.{text_beq}
use multi_threaded_tcp_chat.Base.Map.{Map, lookup, lookup_or, insert, lookup-insert_self}
use multi_threaded_tcp_chat.MessageStore.{
  ChatMessage, Config, to_string, trim, store_cached, copy_range, get_recent, sender_in_room,
  sender_in_rooms, get_by_sender, to_lower, starts_with, found_in, matches, search_in_room,
  search_in_rooms, search_messages, default_config,
}
use multi_threaded_tcp_chat.MessageStore.Cached.{
  Call, store, run, apply, last_n, about, remember_all, get_recent-remember,
}
use multi_threaded_tcp_chat.MessageStore.Queries.{Holds, searched, search_messages-take}
use multi_threaded_tcp_chat.MessageStore.Find.{found_in_iff}
use multi_threaded_tcp_chat.MessageStore.LogFile.{
  FileSystem, MessageStore, file_name, open_log_file, new_store,
}
use multi_threaded_tcp_chat.MessageStore.Rotation.{
  in_text_mode, Laws, store_all, logged, same_day_same_file,
}

abbrev lobby : Text
lobby = text "general"

abbrev said : ℕ → Text → ChatMessage
said id words = record {
  sender_id = id;
  sender_name = text "ann";
  room = lobby;
  content = words;
  timestamp = 0;
}

abbrev calls : List Call
calls =
    store (said 1 (text "one")) ∷ store (said 2 (text "Two")) ∷ store (said 1 (text "three")) ∷ []

newest_two : get_recent lobby 5 (run 2 calls []) ≡ said 2 (text "Two") ∷ said 1 (text "three") ∷ []
unfolding run apply store_cached trim get_recent copy_range lookup insert text text_beq
newest_two = refl

found_two : search_messages (text "TW") [] 20 (run 2 calls []) ≡ said 2 (text "Two") ∷ []
unfolding run apply store_cached trim lookup insert text text_beq search_messages search_in_rooms
    search_in_room matches found_in starts_with to_lower
found_two = refl

one_for_none : get_by_sender 1 0 (run 2 calls []) ≡ said 1 (text "three") ∷ []
unfolding run apply store_cached trim lookup insert text text_beq get_by_sender sender_in_rooms
    sender_in_room
one_for_none = refl

get_recent-remember_example :
    get_recent lobby 5 (run 2 calls [])
    ≡ last_n (min 5 2) (keep (about lobby) (remember_all calls []))
get_recent-remember_example = get_recent-remember 2 calls lobby 5

-- A test that says whether the content holds "tw", in whatever case.
abbrev has_tw : ChatMessage → Bool
has_tw msg = found_in (map to_lower (text "TW")) (map to_lower msg.content)

has_tw-Holds : (msg : ChatMessage) → (has_tw msg ≡ true) ↔ Holds (text "TW") msg
has_tw-Holds msg = found_in_iff (map to_lower (text "TW")) (map to_lower msg.content)

search_messages-take_example :
    search_messages (text "TW") [] 20 (run 2 calls [])
    ≡ take 20 (keep has_tw (searched [] (run 2 calls [])))
search_messages-take_example =
    search_messages-take (text "TW") [] 20 (run 2 calls []) has_tw has_tw-Holds

-- A disk on which every file opens: what stands in each file, which is in text mode.
abbrev Disk : Type 0
Disk = Map Text Text

abbrev contents_of : Text → Disk → Text
contents_of name d = lookup_or [] name d

abbrev disk : FileSystem Disk
disk = record {
  exists = λ name d. true;
  create_directory = λ name d. d;
  open_append = λ name d. (true, d);
  write = λ name line d. insert name (contents_of name d ++ in_text_mode line) d;
  close = λ name d. d;
  flush = λ name d. d;
  file_size = λ name d. some (length (contents_of name d));
}

disk_grows :
    (n line : Text) (d : Disk)
    → contents_of n (insert n (contents_of n d ++ in_text_mode line) d)
      ≡ contents_of n d ++ in_text_mode line
disk_grows n line d = ground (arith, lookup-insert_self n (contents_of n d ++ in_text_mode line) d)

abbrev disk_laws : Laws disk
disk_laws = record {
  contents = contents_of;
  contents-write = disk_grows;
  contents-reopen = λ n d. refl;
  size_known = λ n d h. refl;
}

abbrev fixed : ℕ → Text
fixed t = text "20260101"

-- A limit of no bytes at all: every message asks for a rotation.
abbrev no_room : Config
no_room = record default_config { max_file_size_mb = 0 }

abbrev opened : MessageStore × Disk
opened = new_store disk fixed fixed no_room 0 []

abbrev today : Text
today = file_name disk fixed fixed no_room.log_directory 0

abbrev two_said : List (ℕ × ChatMessage)
two_said = (3, said 1 (text "hi")) ∷ (9, said 2 (text "yo")) ∷ []

same_day_same_file_example :
    contents_of today (store_all disk fixed fixed disk_laws two_said opened.0 opened.1).1
    ≡ contents_of today opened.1 ++ logged disk fixed fixed disk_laws two_said
unfolding new_store file_name text lookup text_beq to_string open_log_file
same_day_same_file_example =
    (same_day_same_file disk fixed fixed disk_laws no_room.log_directory 0 (λ n d. refl) two_said
      opened.0 opened.1 (refl, (refl, tt)) (omega arith) refl refl refl (omega arith)).1
