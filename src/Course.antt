-- ===== src/Course.antt =====
-- content/course.cpp and courseitem.cpp: the courses that a teacher opened in a room.
use teachserver.Base.{ℕ, Option, none, some, List, [], ◌∷◌, ◌++◌, ◌==◌, if◌then◌else◌, bytes_eq}

pub record CourseItem : Type 0 where
  pub item_id : ℕ
  pub item_name : List ℕ

pub record Course : Type 0 where
  pub name : List ℕ
  pub course_id : ℕ
  pub course_list : List CourseItem

unfoldable pub item_by_id : ℕ → List CourseItem → Option CourseItem
item_by_id id [] = none
item_by_id id (i ∷ is) = if i.item_id == id then some i else item_by_id id is

unfoldable pub get_item_by_id : ℕ → Course → Option CourseItem
unfolding item_by_id
get_item_by_id id c = item_by_id id c.course_list

unfoldable pub item_by_name : List ℕ → List CourseItem → Option CourseItem
unfolding bytes_eq
item_by_name name [] = none
item_by_name name (i ∷ is) = if bytes_eq i.item_name name then some i else item_by_name name is

unfoldable pub get_item_by_name : List ℕ → Course → Option CourseItem
unfolding item_by_name
get_item_by_name name c = item_by_name name c.course_list

unfoldable pub add_item : CourseItem → Course → Course
add_item item c = record c { course_list = c.course_list ++ item ∷ [] }
