-- ===== src/Examples.antt =====
-- A small class: a room with its teacher at the descriptor 7, its whiteboard at 8 and students at 10
-- and 11, a message in the buffer 1, and the buffers 2 and 3 in the pool.
pub mod Messages
pub mod Rooms
pub mod Logins
pub mod Houses
pub mod Wire
pub mod Running
pub mod Processes
pub mod Requests
pub mod Threads
pub mod Records
use teachserver.Base.{
  ℕ, ◌+◌, Bool, true, false, Option, none, some, List, [], ◌∷◌, ◌==◌, if◌then◌else◌,
}
use teachserver.StdMap.{StdMap}
use teachserver.Protocol.{online, offline}
use teachserver.Single.{Single}
use teachserver.Student.{Student}
use teachserver.Room.{Room}
use teachserver.Database.{Database}
use teachserver.Server.{Server, Env}

abbrev pub pupil : ℕ → Student
pupil id = record {
  addr = 500 + id;
  current_status = online;
  name = [];
  account_name = [];
  on_line = true;
  student_id = id;
  picture_name = [];
}

abbrev pub room_with : StdMap (Option Student) → Room
room_with students = record {
  room_id = 5;
  teacher_fd = 7;
  white_fd = 8;
  room_name = 82 ∷ [];
  class_name = [];
  teacher_name = 84 ∷ [];
  white_board = [];
  student_map = students;
  course_list = [];
  buildhouse_groups = [];
  puzzle_map = [];
  auto_node_id = 1;
}

abbrev pub pupils : StdMap (Option Student)
pupils = (10, some (pupil 21)) ∷ (11, some (pupil 22)) ∷ []

abbrev pub three_pupils : StdMap (Option Student)
three_pupils = (10, some (pupil 21)) ∷ (11, some (pupil 22)) ∷ (12, some (pupil 23)) ∷ []

-- Every block holds the same message, and the buffer 1 came from the client.
abbrev pub mailbox : ℕ → ℕ → (ℕ → ℕ) → List ℕ → List ℕ → Single
mailbox len type body pool received = record {
  bufs = λ q. record { ptr = q + 4096; size = 5120; used = 0; fd = 7; id = q };
  blocks = λ a. record { c_len = len; c_type = type; body = body };
  bufpool = pool;
  recvqueue = received;
  sendqueue = [];
}

abbrev pub from : ℕ → Single → Single
from client s = record s { bufs = λ q. record (s.bufs q) { fd = client } }

abbrev pub empty_db : Database
empty_db = record {
  select_teacher = λ account. some ((115 ∷ 101 ∷ 99 ∷ []) ∷ []);
  select_stu = λ account password. some [];
  select_used_course = λ grade group. some [];
  select_course_db = some [];
  select_grade_db = some [];
  select_class_db = some [];
  select_classroom_db = some [];
  select_student_db = some [];
  select_courseitem_db = λ names. some [];
  select_student_detail = λ id account. some [];
  select_teacher_detail = λ account. some [];
  select_item_keys = λ item. some [];
  select_count = λ kind names. some [];
}

abbrev pub env : Env
env = record {
  now = 100;
  fresh = 900;
  right_first = true;
  pic_opens = false;
  ld = λ n. n ∷ [];
  pic_read = λ i. 0;
  pic_bytes = λ i j. 0;
  db = empty_db;
  stack = λ i. 0;
}

abbrev pub server : Single → StdMap (Option Student) → Server
server s students = record { single = s; room_map = (5, room_with students) ∷ [] }
