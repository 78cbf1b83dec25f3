-- ===== src/Database.antt =====
-- SQL.h and database.cpp: the queries that the handlers make, each as what the database answers; none
-- is an SQLException. The database itself is no part of the program: its answers are parameters.
mod Connection
use teachserver.Base.{ℕ, Option, List}

pub record StudentRow : Type 0 where
  pub student_id : ℕ
  pub first_name : List ℕ
  pub last_name : List ℕ
  pub account : List ℕ
  pub password : List ℕ
  pub picture_name : List ℕ

pub record CourseRow : Type 0 where
  pub course_id : ℕ
  pub course_name : List ℕ

pub record CourseDbRow : Type 0 where
  pub grade_name : List ℕ
  pub group_name : List ℕ
  pub course_name : List ℕ
  pub language : ℕ
  pub art : ℕ
  pub community : ℕ
  pub health : ℕ
  pub science : ℕ

pub record StudentInfoRow : Type 0 where
  pub student_id : ℕ
  pub picture_name : List ℕ
  pub student_name : List ℕ

pub record ItemRow : Type 0 where
  pub course_name : List ℕ
  pub item_name : List ℕ

pub record DetailRow : Type 0 where
  pub number : List ℕ
  pub first_name : List ℕ
  pub last_name : List ℕ
  pub sex : List ℕ
  pub school_name : List ℕ
  pub grade_name : List ℕ
  pub class_name : List ℕ
  pub account : List ℕ
  pub tf_name : List ℕ
  pub tl_name : List ℕ
  pub picture_id : ℕ

pub record TeacherRow : Type 0 where
  pub account : List ℕ
  pub pic_name : List ℕ

pub record Database : Type 0 where
  -- SQL_SELECT_TEACHER, by account: the passwords
  pub select_teacher : List ℕ → Option (List (List ℕ))
  -- SQL_SELECT_STU, by account and password
  pub select_stu : List ℕ → List ℕ → Option (List StudentRow)
  -- SQL_SELECT_USED_COURSE, by grade and group
  pub select_used_course : List ℕ → List ℕ → Option (List CourseRow)
  pub select_course_db : Option (List CourseDbRow)
  pub select_grade_db : Option (List (List ℕ))
  pub select_class_db : Option (List (List ℕ))
  pub select_classroom_db : Option (List (List ℕ))
  pub select_student_db : Option (List StudentInfoRow)
  -- SQL_SELECT_COURSEITEM_DB, by the names that are bound
  pub select_courseitem_db : List (List ℕ) → Option (List ItemRow)
  -- SQL_SELECT_STUDENT_DETAILINFO, by id and account
  pub select_student_detail : ℕ → List ℕ → Option (List DetailRow)
  pub select_teacher_detail : List ℕ → Option (List TeacherRow)
  -- SQL_SELECT_ITEM_KEYS, by item name
  pub select_item_keys : List ℕ → Option (List (List ℕ))
  -- the count queries, by `iCase` and the names that are bound
  pub select_count : ℕ → List (List ℕ) → Option (List ℕ)
