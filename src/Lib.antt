-- ===== src/Lib.antt =====
-- A model of the multi-threaded TCP chat server, and what is proved of it. Paths are from the
-- root of the repository.
--
-- The program. Clients connect to a server whose I/O threads (`iocp_server.cpp`) accept them, keep
-- a table of them, and hand each message, connection and disconnection as a task to a thread pool
-- (`thread_pool.cpp`). The tasks run the handlers of `server.cpp`, which use a manager of rooms
-- (`chat_room.cpp`), a manager of limits, bans and mutes (`connection_manager.cpp`) and a history of
-- messages (`message_store.cpp`), and send answers through the server.
--
-- The files.
--   Base               Booleans, lists, equality tests, text, maps, sets, integers, and
--                      how often a number stands in a list.
--   ChatRoom           `chat_room.h`, `chat_room.cpp`: `Room`, `ChatRoomManager`, one function per
--                      method (`join_room` is JoinRoom). Members and Invariant relate the member
--                      sets of the rooms to the table of clients, Deletion treats DeleteRoom, Reach
--                      has the states that calls lead to, Moves what joining and leaving do, and
--                      Listing ListRooms and GetRoomInfo. In the model a hash table is a list;
--                      Unordered relates the lists that are one table: its Tables, Operations,
--                      Deletion and Sorting go through the methods, Results says what a caller
--                      sees, Quotient takes the states up to the order, Commuting has two joins.
--   ConnectionManager  `connection_manager.h`, `connection_manager.cpp`: `allow_connection` is
--                      AllowConnection, and so on. Window counts the times in an interval,
--                      RateLimit and MessageLimit use it for connections and messages (with the
--                      calls that HandleMessage of `server.cpp` makes: `attempt`), Guards treats
--                      bans, mutes and timeouts.
--   MessageStore       `message_store.h`, `message_store.cpp`: the messages in memory; the child
--                      LogFile has the log file. Cached compares the memory with the whole history,
--                      Queries and Find treat GetBySender and Search, Rotation the log file.
--   ThreadPool         `thread_pool.h`, `thread_pool.cpp`, and the condition variable of
--                      `win32_compat.h`: `Step` is one step of one thread. Invariant holds in every
--                      state that steps lead to, Progress is about the end of the pool.
--   Commands           `server.cpp`: the trimming of a message and the reading of a command's words and
--                      numbers, as std::istream reads them. Reading says what the words come to, Numbers
--                      that digits are read back.
--   Threading          the class Thread of `win32_compat.h`: `make_from` and `assign` are its moves.
--                      Owners and Ownership are about the handles, Joining about who waits
--                      for the thread, Starting about the function object that it runs. Locks
--                      has Mutex, LockGuard and ConditionVariable, Exclusion what they keep apart.
--   Times              LocalTime of `win32_compat.h`, and what `message_store.cpp` and `server.cpp`
--                      make of it.
--   Sockets            `sockutil.cpp`: how sockets are made, the address of a peer, the colours.
--                      Making is about the sockets that are left open, Address about the text of
--                      an address, Ports about the arguments of the two main functions.
--   Client             `client.cpp`: `send_step` is one step of SendMessages, `receive_step` one of
--                      ReceiveMessages, `login` is main until both run. Sending treats what is typed
--                      up to #exit, Ending input that ends before it, Threads all threads together,
--                      Notices the colours.
--   Server             `server.cpp`: the handlers over the four managers, `handle_connect` being
--                      HandleConnect; Process has the commands (`run_join` is the branch for #join),
--                      Message HandleMessage. Invariant, Handlers and Reach are about everything
--                      that can happen to the server, Delivery about who gets which line,
--                      CommandRooms about who is in which room after a command, Silence
--                      about clients that are refused, Lifetime about the two ends of a connection,
--                      Archive gives the handlers the message store, Launch is main and ConsoleHandler,
--                      Teardown the end of main; CleanupSteps, QuietEnd and Cleanup say what
--                      goes wrong in it, and what does not. Banning is about #ban.
--                      Program, CommandProgram and MessageProgram have the handlers again, as the
--                      steps that a thread makes under one lock at a time (`connect_program` is
--                      HandleConnect); Alone and CommandAlone compare the two, Overlap and
--                      CommandOverlap and MessageOverlap are about single steps, Interleaving
--                      about all threads.
--   IocpServer         `iocp_server.h`, `iocp_server.cpp` and the structures of `sockutil.h`; Lifecycle
--                      has Start and Stop, Completions HandleAccept and the I/O threads. Consistency
--                      and Tables are about the two tables of clients, Balance and Ledger about
--                      the sockets that are opened and closed, Writes about PostWrite and CleanupClient,
--                      Broadcasting about Broadcast. Buffers runs the same functions with the
--                      PER_IO_DATA that they make and delete; IoReach and Freeing are about
--                      these.
-- Each has a module Tests with runs on concrete values; Server has Tests, RunTests and CommandTests,
-- which share Samples, and CleanupTests, ChatRoom has UnorderedTests and Threading LockTests.
--
-- How code becomes definitions. A class is a record of its members, a method a function from the
-- old state to the new one, with its result if it has one. A method that holds one lock from its
-- first line to its last is one step; where a method takes several locks, each part is a
-- definition and the method composes them. A reading of a clock is an argument, in nanoseconds where
-- it is a steady clock, and what Windows answers is an argument too. An std::unordered_map is an
-- association list and an std::unordered_set a list, and iterating one follows the list, so that an
-- order that C++ leaves open is one particular order here. Text is a list of character codes. Ids,
-- counters and sockets are natural numbers: client ids start at 1 and only grow, and that an int
-- overflows after 2^31 connections is not modelled. In the programs of Server each call is a step
-- that takes one lock; OnDisconnect, RecordMessage and SendToClient are one step each, and the address
-- that #ban uses is the one that GetClient has found. A duration may be negative and is an integer.
-- Loops over a container recurse on its list. Fuel is used in two places: `to_string` writes the
-- digits of `n` in at most `suc n` rounds, and `n` has no more digits; and `drain`, in the proof that
-- a stopped pool comes to its end, recurses on a number above the work that is left.
--
-- Parameters. The file system is the record `FileSystem` with the laws `Laws`, the format of
-- times is a function, and a critical section of Windows is the record `CriticalSections` with
-- its laws. Of Windows it is assumed that a new connection gets no socket that is in use.
--
-- The handlers use the message store through the record `History`, which Archive fills.
--
-- Not modelled: what the server writes to the console behind its time stamp, the colours and modes of
-- the console, and the threads and memory of Windows itself.

pub mod Base
pub mod ChatRoom
pub mod ConnectionManager
pub mod MessageStore
pub mod ThreadPool
pub mod IocpServer
pub mod Sockets
pub mod Threading
pub mod Times
pub mod Client
pub mod Commands
pub mod Server
