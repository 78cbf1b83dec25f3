-- ===== src/Handler/Classroom/Teacher.antt =====
-- handler/HandleClassRoom.cpp: how a teacher takes a room.
use teachserver.Base.{ℕ, List}
use teachserver.StdMap
use teachserver.StdMap.{StdMap}
use teachserver.Room.{Room}
use teachserver.Manager
use teachserver.Server.{Server}

-- The client holds the room under the names of the message, and nothing else of the room changes.
abbrev pub taken : ℕ → List ℕ → List ℕ → Room → Room
taken fd teacher class room = record room {
  teacher_fd = fd;
  teacher_name = teacher;
  class_name = class;
}
