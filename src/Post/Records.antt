-- ===== src/Post/Records.antt =====
-- handler/HandleMessage.cpp: postDBRecordCount and postDBRecord, which answer from the database.
pub mod Sent
pub mod Answers
pub mod Whole
use teachserver.Base.{
  ℕ, ◌+◌, Option, none, some, List, [], ◌∷◌, ◌>>=◌, ◌==◌, if◌then◌else◌, put_u32, map,
}
use teachserver.Protocol.{CommandType, code, msg_head_len}
use teachserver.Protocol.Command.{
  st_get_db_record_finished, ct_get_course_db_count, ct_get_grade_db_count, ct_get_class_db_count,
  ct_get_class_room_db_count, ct_get_all_student_info_count, ct_get_course_item_count,
}
use teachserver.Single.{
  Single, null, get_fd, set_fd, set_size, set_len, set_type, reset, write_data, pool_malloc,
  pool_free, send_enqueue,
}
use teachserver.Database.{Database}
use teachserver.Layout.Structs.{
  s_get_course_db, s_get_grade_db, s_get_class_db, s_get_class_room_db, s_get_all_student_info,
  s_course_item,
}
use teachserver.Layout.{Field, put_fields, size_of}
use teachserver.Course.{Course}
use teachserver.Server.{Server, Env, room_of}

-- The values of `iCase`: 1 to 6.
pub data DbCase : Type 0 where
  course_db grade_db class_db classroom_db student_db course_item_db : DbCase

-- The flag that ends an answer in several messages. No test for an empty pool.
unfoldable pub send_finished : ℕ → ℕ → Single → Option Single
unfolding pool_malloc write_data set_len set_type set_size set_fd send_enqueue code
send_finished flag fd s =
    let (p, s1) = pool_malloc s in
    if p == null then none else do
      let len = msg_head_len + 4
      let s2 = set_type p (code st_get_db_record_finished) (set_len p len s1)
      s3 ← write_data p 4 (put_u32 (λ _. 0) 0 flag) s2
      some (send_enqueue p (set_size p len (set_fd p fd s3)))

-- The names that the query for course items is given: those of the room's courses.
unfoldable pub bound_names : DbCase → ℕ → Server → List (List ℕ)
bound_names course_item_db p w = elim (room_of p w) [
  | none ↦ []
  | some (k, room) ↦ map (λ (c : Course). c.name) room.course_list
]
bound_names _ p w = []

abbrev pub case_number : DbCase → ℕ
case_number course_db = 1
case_number grade_db = 2
case_number class_db = 3
case_number classroom_db = 4
case_number student_db = 5
case_number course_item_db = 6

abbrev pub count_type : DbCase → CommandType
count_type course_db = ct_get_course_db_count
count_type grade_db = ct_get_grade_db_count
count_type class_db = ct_get_class_db_count
count_type classroom_db = ct_get_class_room_db_count
count_type student_db = ct_get_all_student_info_count
count_type course_item_db = ct_get_course_item_count

-- The same buffer is queued for each row.
unfoldable pub send_counts : ℕ → ℕ → List ℕ → Single → Option Single
unfolding write_data set_len set_type set_size send_enqueue
send_counts p t [] s = some s
send_counts p t (n ∷ ns) s = do
  let len = msg_head_len + 4
  s' ← write_data p 4 (put_u32 (λ _. 0) 0 n) (set_type p t (set_len p len s))
  send_counts p t ns (send_enqueue p (set_size p len s'))

unfoldable pub post_db_record_count : Env → ℕ → DbCase → Server → Option Server
unfolding bound_names send_counts code
post_db_record_count env p c w =
    if p == null then some w else elim (env.db.select_count (case_number c) (bound_names c p w)) [
      | none ↦ some w
      | some counts ↦ do
        s ← send_counts p (code (count_type c)) counts w.single
        some (record w { single = s })
    ]

-- The number that the first record's message has as its type.
abbrev pub record_base : DbCase → ℕ
record_base course_db = 5000
record_base grade_db = 3000
record_base class_db = 4000
record_base classroom_db = 6000
record_base student_db = 10000
record_base course_item_db = 7000

abbrev pub names {ℓ} :
    {A : Type ℓ} → (A → List Field) → Option (List A) → Option (List (List Field))
names f none = none
names f (some rows) = some (map f rows)

-- sGetCourseDB, sGetGradeDB, sGetClassDB, sGetClassRoomDB, sGetAllStudentInfo, sCourseItem.
unfoldable pub record_rows : Database → DbCase → List (List ℕ) → Option (List (List Field))
record_rows db course_db bound =
    names
      (λ r.
        s_get_course_db r.grade_name r.group_name r.course_name r.language r.art r.community
          r.health r.science)
      db.select_course_db
record_rows db grade_db bound = names s_get_grade_db db.select_grade_db
record_rows db class_db bound = names s_get_class_db db.select_class_db
record_rows db classroom_db bound = names s_get_class_room_db db.select_classroom_db
record_rows db student_db bound =
    names (λ r. s_get_all_student_info r.student_id r.picture_name r.student_name)
      db.select_student_db
record_rows db course_item_db bound =
    names (λ r. s_course_item r.course_name r.item_name) (db.select_courseitem_db bound)

-- One message with one record. No test for an empty pool.
unfoldable pub send_record : (ℕ → ℕ) → ℕ → ℕ → List Field → Single → Option Single
unfolding put_fields size_of pool_malloc write_data set_len set_type set_size set_fd send_enqueue
send_record stack fd t fields s = do
  bytes ← put_fields stack 0 fields
  let (p, s1) = pool_malloc s
  let len = msg_head_len + size_of fields
  if p == null then none else do
    s2 ← write_data p (size_of fields) bytes (set_type p t (set_len p len s1))
    some (send_enqueue p (set_size p len (set_fd p fd s2)))

unfoldable pub send_all : (ℕ → ℕ) → ℕ → ℕ → List (List Field) → Single → Option Single
unfolding send_record
send_all stack fd t [] s = some s
send_all stack fd t (fields ∷ rows) s =
    send_record stack fd t fields s >>= send_all stack fd (t + 1) rows

abbrev pub finished_flag : DbCase → ℕ
finished_flag student_db = 10000
finished_flag _ = 1

-- The request's buffer is freed also where the query threw.
unfoldable pub post_db_record : Env → ℕ → DbCase → Server → Option Server
unfolding bound_names record_rows send_all send_finished reset pool_free
post_db_record env p c w =
    if p == null
    then some w
    else let fd = get_fd p w.single in
      let end = λ (s : Single). record w { single = pool_free p (reset p s) } in
      elim (record_rows env.db c (bound_names c p w)) [
        | none ↦ some (end w.single)
        | some rows ↦ do
          s ← send_all env.stack fd (record_base c) rows w.single
          s' ← send_finished (finished_flag c) fd s
          some (end s')
      ]
