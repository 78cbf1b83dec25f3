-- ===== src/Room.antt =====
-- content/room.cpp: a classroom, with its teacher, its whiteboard and its students. An entry of a
-- map of pointers is none where the pointer is NULL.
pub mod Notify
pub mod Spare
pub mod Leave
pub mod Sharing
pub mod Puzzles
pub mod Games
pub mod Score
pub mod Groups
use teachserver.Base.{
  ℕ, ◌+◌, ◌%◌, Bool, true, false, Option, none, some, List, [], ◌∷◌, ◌++◌, ◌==◌, if◌then◌else◌,
}
use teachserver.StdMap
use teachserver.StdMap.{StdMap}
use teachserver.Student.{Student}
use teachserver.Course.{Course}
use teachserver.House.Group
use teachserver.House.Group.{Group}

pub record Puzzle : Type 0 where
  pub start_time : ℕ
  pub end_time : ℕ

pub record Room : Type 0 where
  pub room_id : ℕ
  pub teacher_fd : ℕ
  pub white_fd : ℕ
  pub room_name : List ℕ
  pub class_name : List ℕ
  pub teacher_name : List ℕ
  pub white_board : List ℕ
  pub student_map : StdMap (Option Student)
  pub course_list : List Course
  pub buildhouse_groups : StdMap Group
  pub puzzle_map : StdMap (Option Puzzle)
  pub auto_node_id : ℕ

-- The constructor sets neither descriptor: `t` and `w` are what the memory held.
unfoldable pub new_room : ℕ → List ℕ → List ℕ → ℕ → ℕ → Room
new_room id class_name white_board t w = record {
  room_id = id;
  teacher_fd = t;
  white_fd = w;
  room_name = class_name;
  class_name = [];
  teacher_name = [];
  white_board = white_board;
  student_map = [];
  course_list = [];
  buildhouse_groups = [];
  puzzle_map = [];
  auto_node_id = 1;
}

unfoldable pub set_teacher_fd : ℕ → Room → Room
set_teacher_fd fd r = record r { teacher_fd = fd }

unfoldable pub set_teacher_name : List ℕ → Room → Room
set_teacher_name name r = record r { teacher_name = name }

unfoldable pub set_class_name : List ℕ → Room → Room
set_class_name name r = record r { class_name = name }

unfoldable pub set_white_fd : ℕ → Room → Room
set_white_fd fd r = record r { white_fd = fd }

-- A student who has the descriptor already is deleted first.
unfoldable pub add_student : ℕ → Option Student → Room → Room
add_student fd student r = elim (StdMap.find fd r.student_map) [
  | none ↦ record r { student_map = StdMap.insert fd student r.student_map }
  | some old ↦ record r { student_map = StdMap.insert fd student (StdMap.erase fd r.student_map) }
]

-- NULL where the map has no entry, and where it has a NULL.
unfoldable pub get_student_by_fd : ℕ → Room → Option Student
get_student_by_fd fd r = elim (StdMap.find fd r.student_map) [ none ↦ none | some s ↦ s ]

-- get_teacher_by_fd: whether the client is the room's teacher.
unfoldable pub is_teacher_fd : ℕ → Room → Bool
is_teacher_fd fd r = fd == r.teacher_fd

unfoldable pub get_room_by_fd : ℕ → Room → Option Room
get_room_by_fd fd r = elim (StdMap.find fd r.student_map) [
  | some s ↦ some r
  | none ↦ if fd == r.teacher_fd then some r else if fd == r.white_fd then some r else none
]

unfoldable pub course_by_id : ℕ → List Course → Option Course
course_by_id id [] = none
course_by_id id (c ∷ cs) = if c.course_id == id then some c else course_by_id id cs

unfoldable pub get_course_by_id : ℕ → Room → Option Course
unfolding course_by_id
get_course_by_id id r = course_by_id id r.course_list

unfoldable pub add_course : Course → Room → Room
add_course c r = record r { course_list = r.course_list ++ c ∷ [] }

unfoldable pub clear_all_course : Room → Room
clear_all_course r = record r { course_list = [] }

-- CRoom::reset. The groups and the puzzles stay.
unfoldable pub reset : Room → Room
reset r = record r {
  student_map = [];
  course_list = [];
  white_fd = 0;
  teacher_fd = 0;
  teacher_name = [];
}

-- unsigned int: it wraps.
unfoldable pub get_auto_node_id : Room → ℕ × Room
get_auto_node_id r = (r.auto_node_id, record r { auto_node_id = (r.auto_node_id + 1) % 4294967296 })

unfoldable pub group_by_fd : ℕ → StdMap Group → Option (ℕ × Group)
group_by_fd fd [] = none
group_by_fd fd ((k, g) ∷ m) = elim (Group.get_group_by_fd fd g) [
  | some found ↦ some (k, found)
  | none ↦ group_by_fd fd m
]

-- The group is given with its key, by which it is written back.
unfoldable pub get_group_by_fd : ℕ → Room → Option (ℕ × Group)
unfolding group_by_fd Group.get_group_by_fd
get_group_by_fd fd r = group_by_fd fd r.buildhouse_groups

unfoldable pub add_group : ℕ → Option Group → Room → Room × Bool
add_group id none r = (r, false)
add_group id (some g) r =
    (record r { buildhouse_groups = StdMap.insert id g r.buildhouse_groups }, true)

abbrev pub with_group : ℕ → Group → Room → Room
with_group k g r = record r { buildhouse_groups = StdMap.assign k g r.buildhouse_groups }
