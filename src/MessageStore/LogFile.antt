-- ===== src/MessageStore/LogFile.antt =====
-- The log file of message_store.cpp. The files themselves are not part of the program: a `Disk` with
-- the calls that the code makes of it is a parameter, and `Laws` states what they are documented to
-- do. How std::put_time writes a date is the parameter `show_date`.
use multi_threaded_tcp_chat.Base.{
  ℕ, ◌+◌, ◌*◌, Bool, false, not, [], ◌++◌, leb, if◌then◌else◌, length, Option, some, none, text_eq,
}
use multi_threaded_tcp_chat.Base.Text.{Text, text}
use multi_threaded_tcp_chat.MessageStore.{ChatMessage, Config, Cache, to_string, store_cached}

pub record FileSystem (Disk : Type 0) : Type 0 where
  -- GetFileAttributesA(name) != INVALID_FILE_ATTRIBUTES
  pub exists : Text → Disk → Bool
  -- CreateDirectoryA
  pub create_directory : Text → Disk → Disk
  -- std::ofstream::open in append mode: did it succeed?
  pub open_append : Text → Disk → Bool × Disk
  -- operator<< to the open file of this name
  pub write : Text → Text → Disk → Disk
  -- std::ofstream::close and flush
  pub close : Text → Disk → Disk
  pub flush : Text → Disk → Disk
  -- CreateFileA and GetFileSize; `none` if the file cannot be opened
  pub file_size : Text → Disk → Option ℕ

-- MessageStore, with the name under which its log file is open.
pub record MessageStore : Type 0 where
  pub config : Config
  pub open config use *
  pub room_messages : Cache
  pub log_file : Option Text
  pub current_file_size : ℕ

module _ {Disk : Type 0} (fs : FileSystem Disk) (show_time show_date : ℕ → Text) where
  -- The name of the log file of a day.
  unfoldable pub file_name : Text → ℕ → Text
  file_name directory now = directory ++ text "\\chat_" ++ show_date now ++ text ".log"

  -- `if (hFile != INVALID_HANDLE_VALUE)`: the size that is known after the file was opened.
  unfoldable pub read_size : Option ℕ → ℕ → ℕ
  read_size none old = old
  read_size (some size) old = size

  -- OpenLogFile. It is only called while no file is open.
  unfoldable pub open_log_file : ℕ → MessageStore → Disk → MessageStore × Disk
  unfolding read_size
  open_log_file now s d =
      let name = file_name s.log_directory now in
      let (opened, d') = fs.open_append name d in
      if opened
      then (
        record s {
          log_file = some name;
          current_file_size = read_size (fs.file_size name d') s.current_file_size;
        },
        d',
      )
      else (record s { config = record s.config { enable_persistence = false } }, d')

  unfoldable pub rotate_log_file : ℕ → MessageStore → Disk → MessageStore × Disk
  rotate_log_file now s d = elim s.log_file [
    | none ↦ open_log_file now (record s { current_file_size = 0 }) d
    | some name ↦
        open_log_file now (record s { log_file = none; current_file_size = 0 }) (fs.close name d)
  ]

  unfoldable pub write_to_file : ℕ → ChatMessage → MessageStore → Disk → MessageStore × Disk
  write_to_file now msg s d = elim s.log_file [
    | none ↦ (s, d)
    | some name ↦
        let line = to_string show_time msg ++ text "\n" in
        let d' = fs.write name line d in
        let written = record s { current_file_size = s.current_file_size + length line } in
        if leb (s.max_file_size_mb * 1024 * 1024) written.current_file_size
        then rotate_log_file now written d'
        else (written, d')
  ]

  -- Store
  unfoldable pub store_message : ℕ → ChatMessage → MessageStore → Disk → MessageStore × Disk
  store_message now msg s d =
      let cached = record s {
        room_messages = store_cached s.max_messages_per_room msg s.room_messages;
      } in
      if s.enable_persistence then write_to_file now msg cached d else (cached, d)

  -- The constructor.
  unfoldable pub new_store : Config → ℕ → Disk → MessageStore × Disk
  new_store cfg now d =
      let s : MessageStore = record {
        config = cfg;
        room_messages = [];
        log_file = none;
        current_file_size = 0;
      } in
      if cfg.enable_persistence
      then open_log_file now s (
          if not (fs.exists cfg.log_directory d)
          then fs.create_directory cfg.log_directory d
          else d)
      else (s, d)

  unfoldable pub flush_store : MessageStore → Disk → Disk
  flush_store s d = elim s.log_file [ none ↦ d | some name ↦ fs.flush name d ]

  -- The destructor.
  unfoldable pub delete_store : MessageStore → Disk → Disk
  unfolding flush_store
  delete_store s d = elim s.log_file [
    | none ↦ flush_store s d
    | some name ↦ fs.close name (flush_store s d)
  ]
