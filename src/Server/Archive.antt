-- ===== src/Server/Archive.antt =====
-- MessageStore as the history that the handlers of server.cpp use.
use multi_threaded_tcp_chat.Base.{ℕ}
use multi_threaded_tcp_chat.Base.Text.{Text}
use multi_threaded_tcp_chat.MessageStore.{Cache, store_cached, get_recent}
use multi_threaded_tcp_chat.MessageStore.LogFile.{FileSystem, MessageStore, store_message}
use multi_threaded_tcp_chat.Server.{History}

-- With the log file.
abbrev pub message_history :
    {Disk : Type 0}
    → FileSystem Disk
    → (show_time show_date : ℕ → Text) → History (MessageStore × Disk)
message_history fs show_time show_date = record {
  store = λ now msg (s, d). store_message fs show_time show_date now msg s d;
  get_recent = λ room count (s, d). get_recent room count s.room_messages;
}

-- Without one: `enable_persistence` is false, and only the messages in memory are left.
abbrev pub in_memory : ℕ → History Cache
in_memory limit = record {
  store = λ now msg cache. store_cached limit msg cache;
  get_recent = get_recent;
}
