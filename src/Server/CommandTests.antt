-- ===== src/Server/CommandTests.antt =====
-- Commands of server.cpp, from the first state of the rooms.
use multi_threaded_tcp_chat.Base.{true, ◌≡◌, text_eq, nat_eq}
use multi_threaded_tcp_chat.Base.Text.{Text, text}
use multi_threaded_tcp_chat.Base.Eq.{text_beq}
use multi_threaded_tcp_chat.Base.Map.{lookup}
use multi_threaded_tcp_chat.ChatRoom.{init, new_room, room_exists}
use multi_threaded_tcp_chat.ChatRoom.Members.{member_of}
use multi_threaded_tcp_chat.ChatRoom.Reach.{start}
use multi_threaded_tcp_chat.MessageStore.{Cache}
use multi_threaded_tcp_chat.Commands.{create_command}
use multi_threaded_tcp_chat.Server.{Server}
use multi_threaded_tcp_chat.Server.Process.{run_command}
use multi_threaded_tcp_chat.Server.CommandRooms.{destination, command_moves}
use multi_threaded_tcp_chat.Server.Archive.{in_memory}
use multi_threaded_tcp_chat.Server.Samples.{show, both}

abbrev opened : Server Cache
opened = record both { chat_rooms = init 0 }

abbrev cpp : Text
cpp = text "cpp"

command_moves_example :
    member_of
      (run_command (in_memory 100) show 1 (create_command cpp) 5 opened).chat_rooms.rooms
      cpp
      1
    ≡ true
unfolding destination init new_room lookup text text_beq room_exists
command_moves_example =
    command_moves (in_memory 100) show 1 (create_command cpp) 5 opened (start 0) cpp 1
