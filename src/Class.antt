-- ===== src/Class.antt =====
-- content/class.cpp: a class, with its teacher, its whiteboard and its students, as it was before the
-- rooms of room.cpp took its place.
pub mod Lookup
use teachserver.Base.{
  ℕ, Bool, true, false, Option, none, some, List, [], ◌∷◌, ◌++◌, ◌==◌, if◌then◌else◌,
}
use teachserver.StdMap
use teachserver.StdMap.{StdMap}
use teachserver.Student.{Student}
use teachserver.Course.{Course}
use teachserver.Room.{course_by_id}
use teachserver.Room.Groups.{course_by_name}

pub record Class : Type 0 where
  pub class_id : ℕ
  pub teacher_fd : ℕ
  pub white_fd : ℕ
  pub class_name : List ℕ
  pub white_board : List ℕ
  pub student_map : StdMap (Option Student)
  pub course_list : List Course

-- The constructor leaves the two descriptors as the memory held them.
unfoldable pub new_class : ℕ → List ℕ → List ℕ → ℕ → ℕ → Class
new_class id class_name white_board t w = record {
  class_id = id;
  teacher_fd = t;
  white_fd = w;
  class_name = class_name;
  white_board = white_board;
  student_map = [];
  course_list = [];
}

unfoldable pub get_class_id : Class → ℕ
get_class_id c = c.class_id

unfoldable pub set_teacher_fd : ℕ → Class → Class
set_teacher_fd fd c = record c { teacher_fd = fd }

unfoldable pub set_white_fd : ℕ → Class → Class
set_white_fd fd c = record c { white_fd = fd }

-- A student who has the descriptor already stays.
unfoldable pub add_student : ℕ → Option Student → Class → Class
add_student fd student c = record c { student_map = StdMap.insert fd student c.student_map }

unfoldable pub get_student_by_fd : ℕ → Class → Option Student
get_student_by_fd fd c = elim (StdMap.find fd c.student_map) [ none ↦ none | some s ↦ s ]

-- Whether the client is the teacher.
unfoldable pub get_teacher_by_fd : ℕ → Class → Bool
get_teacher_by_fd fd c = fd == c.teacher_fd

unfoldable pub get_course_by_name : List ℕ → Class → Option Course
unfolding course_by_name
get_course_by_name name c = course_by_name name c.course_list

unfoldable pub get_course_by_id : ℕ → Class → Option Course
unfolding course_by_id
get_course_by_id id c = course_by_id id c.course_list

unfoldable pub add_course : Course → Class → Class
add_course course c = record c { course_list = c.course_list ++ course ∷ [] }

unfoldable pub get_class_by_fd : ℕ → Class → Option Class
get_class_by_fd fd c = elim (StdMap.find fd c.student_map) [
  | some s ↦ some c
  | none ↦ if fd == c.teacher_fd then some c else if fd == c.white_fd then some c else none
]
