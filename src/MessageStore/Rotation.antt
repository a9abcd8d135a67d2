-- ===== src/MessageStore/Rotation.antt =====
-- What the rotation of the log file comes to, for a disk that keeps what is written to it.
use mathlib.Core.List.{append_assoc, append-nil}
use multi_threaded_tcp_chat.Base.{
  ap, ◌≤◌, if◌then◌else◌, ◌==◌, nat_eq, length-append, ℕ, ◌+◌, ◌*◌, ◌^◌, ◌<◌, ◌≡◌, refl, sym, ◌∙◌,
  true, List, [], ◌∷◌, ◌++◌, arith, leb, length, some, none, Bool-cases, inl, inr, All,
}
use multi_threaded_tcp_chat.Base.Text.{Text, text}
use multi_threaded_tcp_chat.MessageStore.{ChatMessage, to_string, store_cached}
use multi_threaded_tcp_chat.MessageStore.LogFile.{
  FileSystem, MessageStore, file_name, open_log_file, rotate_log_file, write_to_file, store_message,
}

-- What a file in text mode, as the log is opened, gets of a text: before each line feed a carriage return.
abbrev pub in_text_mode : Text → Text
in_text_mode [] = []
in_text_mode (c ∷ cs) = let rest = in_text_mode cs in if c == 10 then 13 ∷ 10 ∷ rest else c ∷ rest

length-in_text_mode : (t : Text) → length t ≤ length (in_text_mode t)
length-in_text_mode [] = omega arith
length-in_text_mode (c ∷ cs) = ground (arith, length-in_text_mode cs)

-- What the calls of `FileSystem` are documented to do: `contents` is what a file was given so far.
-- Opening in append mode keeps it, and the size of a file below 4 GB is known once it was closed.
pub record Laws {Disk : Type 0} (fs : FileSystem Disk) : Type 0 where
  pub contents : Text → Disk → Text
  pub contents-write :
      (n line : Text) (d : Disk)
      → contents n (fs.write n line d) ≡ contents n d ++ in_text_mode line
  pub contents-reopen :
      (n : Text) (d : Disk) → contents n (fs.open_append n (fs.close n d)).1 ≡ contents n d
  pub size_known :
      (n : Text) (d : Disk)
      → length (contents n d) < 2 ^ 32
      → fs.file_size n (fs.open_append n (fs.close n d)).1 ≡ some (length (contents n d))

module _ {Disk : Type 0} (fs : FileSystem Disk) (show_time show_date : ℕ → Text)
    (laws : Laws fs) where
  open laws use {contents, contents-write, contents-reopen, size_known}

  -- Store for one message after the other, each with the time at which a rotation would ask for
  -- the date.
  unfoldable pub store_all : List (ℕ × ChatMessage) → MessageStore → Disk → MessageStore × Disk
  store_all [] s d = (s, d)
  store_all ((now, msg) ∷ rest) s d =
      let (s', d') = store_message fs show_time show_date now msg s d in store_all rest s' d'

  abbrev line : ChatMessage → Text
  line msg = to_string show_time msg ++ text "\n"

  -- What the lines of these messages put into the file.
  abbrev pub logged : List (ℕ × ChatMessage) → Text
  logged [] = []
  logged ((now, msg) ∷ rest) = in_text_mode (line msg) ++ logged rest

  -- The log of one day is open, and has at least the bytes that were counted.
  record IsLogging (name directory : Text) (s : MessageStore) (d : Disk) : Type 0 where
    persists : s.enable_persistence ≡ true
    place : s.log_directory ≡ directory
    open_as : s.log_file ≡ some name
    counted : s.current_file_size ≤ length (contents name d)

  -- The theorems below are about one day, with disks on which the log can always be opened.
  module _ (directory : Text) (day : ℕ)
      (opens : (n : Text) (d : Disk) → (fs.open_append n d).0 ≡ true) where
    abbrev name : Text
    name = file_name fs show_time show_date directory day

    today :
        (now : ℕ) (s : MessageStore)
        → show_date now ≡ show_date day
        → s.log_directory ≡ directory
        → file_name fs show_time show_date s.log_directory now ≡ name
    unfolding file_name
    today now s same place = rw (same, place)

    open_log_file_lem :
        (now : ℕ) (s : MessageStore) (d : Disk) (size : ℕ)
        → file_name fs show_time show_date s.log_directory now ≡ name
        → fs.file_size name (fs.open_append name d).1 ≡ some size
        → open_log_file fs show_time show_date now s d
          ≡ (record s { log_file = some name; current_file_size = size }, (fs.open_append name d).1)
    unfolding open_log_file
    open_log_file_lem now s d size at known = rw (open_log_file, at, opens name d, known)

    rotate_same_day :
        (now : ℕ) (s : MessageStore) (d : Disk)
        → show_date now ≡ show_date day
        → s.enable_persistence ≡ true
        → s.log_directory ≡ directory
        → s.log_file ≡ some name
        → length (contents name d) < 2 ^ 32
        → let r = rotate_log_file fs show_time show_date now s d in
          IsLogging name directory r.0 r.1 × (contents name r.1 ≡ contents name d)
    unfolding rotate_log_file
    rotate_same_day now s d same persists place open_as small =
        let closed = fs.close name d in
        let s' = record s { log_file = none; current_file_size = 0 } in
        rw
          (
            rotate_log_file,
            open_as,
            open_log_file_lem now s' closed (length (contents name d)) (today now s same place)
                (size_known name d small),
          )
          (
            record {
              persists = persists;
              place = place;
              open_as = refl;
              counted = omega (arith, ap length (contents-reopen name d));
            },
            contents-reopen name d,
          )

    store_one :
        (now : ℕ) (msg : ChatMessage) (s : MessageStore) (d : Disk)
        → show_date now ≡ show_date day
        → length (contents name d ++ in_text_mode (line msg)) < 2 ^ 32
        → IsLogging name directory s d
        → let r = store_message fs show_time show_date now msg s d in
          IsLogging name directory r.0 r.1
          × (contents name r.1 ≡ contents name d ++ in_text_mode (line msg))
    unfolding store_message write_to_file
    store_one now msg s d same small v =
        let cached = record s {
          room_messages = store_cached s.max_messages_per_room msg s.room_messages;
        } in
        let written = record cached {
          current_file_size = s.current_file_size + length (line msg);
        } in
        let d' = fs.write name (line msg) d in
        let grown = contents-write name (line msg) d in
        let longer : s.current_file_size + length (line msg) ≤ length (contents name d') = omega (
          arith,
          v.counted,
          ap length grown,
          length-append (contents name d) (in_text_mode (line msg)),
          length-in_text_mode (line msg),
        ) in
        rw (v.persists, write_to_file, v.open_as)
          (elim (Bool-cases (leb (s.max_file_size_mb * 1024 * 1024) written.current_file_size)) [
            | inl full ↦ rw full (
                let (w, same_contents) =
                  rotate_same_day now written d' same v.persists v.place v.open_as
                    (omega (arith, ap length grown, small)) in
                (w, same_contents ∙ grown))
            | inr room ↦ rw room (
              record {
                persists = v.persists;
                place = v.place;
                open_as = v.open_as;
                counted = longer;
              },
              grown,
            )
          ])

    run_same_day :
        (msgs : List (ℕ × ChatMessage)) (s : MessageStore) (d : Disk)
        → All (λ m. show_date m.0 ≡ show_date day) msgs
        → length (contents name d ++ logged msgs) < 2 ^ 32
        → IsLogging name directory s d
        → let r = store_all msgs s d in
          IsLogging name directory r.0 r.1 × (contents name r.1 ≡ contents name d ++ logged msgs)
    unfolding store_all
    run_same_day [] s d same small v = (v, sym (append-nil (contents name d)))
    run_same_day ((now, msg) ∷ msgs) s d same small v =
        let here = in_text_mode (line msg) in
        let later = append_assoc (contents name d) here (logged msgs) in
        let total = length-append (contents name d ++ here) (logged msgs) in
        let (w, grown) =
          store_one now msg s d same.0 (omega (arith, ap length later, total, small)) v in
        let r = store_message fs show_time show_date now msg s d in
        let grown_all = ap (λ (t : Text). t ++ logged msgs) grown ∙ later in
        let (x, all) =
          run_same_day msgs r.0 r.1 same.1 (omega (arith, ap length grown_all, small)) w in
        (x, all ∙ grown_all)

    -- On one day, and on a disk on which the log can always be opened, every message that is stored goes to
    -- the one file of that day, whatever the limit on its size: the file then has what it had and
    -- behind it the lines of all these messages, in their order and with a carriage return before
    -- each line feed; it is still the open one; and `current_file_size` is no more than its size.
    -- (As long as it is below 4 GB, and starting with the log open and no more counted than it has.)
    pub same_day_same_file :
        (msgs : List (ℕ × ChatMessage)) (s : MessageStore) (d : Disk)
        → All (λ m. show_date m.0 ≡ show_date day) msgs
        → length (contents name d ++ logged msgs) < 2 ^ 32
        → s.enable_persistence ≡ true
        → s.log_directory ≡ directory
        → s.log_file ≡ some name
        → s.current_file_size ≤ length (contents name d)
        → let r = store_all msgs s d in
          (r.0.log_file ≡ some name)
          × (contents name r.1 ≡ contents name d ++ logged msgs)
          × (r.0.current_file_size ≤ length (contents name r.1))
    same_day_same_file msgs s d same small persists place open_as counted =
        let v : IsLogging name directory s d = record {
          persists = persists;
          place = place;
          open_as = open_as;
          counted = counted;
        } in
        let (w, all) = run_same_day msgs s d same small v in (w.open_as, all, w.counted)
