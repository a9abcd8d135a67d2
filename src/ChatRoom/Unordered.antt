-- ===== src/ChatRoom/Unordered.antt =====
-- The tables of chat_room.cpp up to the order in which their hash tables are iterated.
pub mod Tables
pub mod Operations
pub mod Deletion
pub mod Sorting
pub mod Results
pub mod Commuting
pub mod Quotient
use multi_threaded_tcp_chat.Base.{ℕ}
