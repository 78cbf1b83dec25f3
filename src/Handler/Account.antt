-- ===== src/Handler/Account.antt =====
-- handler/HandleClassRoom.cpp: the handlers that ask the database.
pub mod Courses
use teachserver.Base.{
  ℕ, ◌+◌, Option, none, some, List, [], ◌∷◌, ◌++◌, ◌>>=◌, ◌==◌, ltb, if◌then◌else◌, get_u32, length,
}
use teachserver.Protocol.{code, msg_head_len}
use teachserver.Protocol.Command.{
  st_get_course_group, ct_get_student_detail_info, st_get_student_detail_info, ct_get_teacher_info,
  st_get_teacher_info, ct_get_course_item_key_info_rsp,
}
use teachserver.Single.{null, set_len, set_type, set_size, write_data, send_enqueue}
use teachserver.Database.{CourseRow, DetailRow, TeacherRow}
use teachserver.Layout.Structs.{
  s_get_teacher_info, course_item_key_info_rsp, s_get_student_detail_info,
}
use teachserver.Layout.{Field, put_fields}
use teachserver.Course.{Course}
use teachserver.Room.{Room, add_course, clear_all_course}
use teachserver.Room.Score.{until_nul, as_bytes}
use teachserver.Login
use teachserver.Server.{with_room, free, room_of, body, command, c_str}
use teachserver.Post.{post_message}
use teachserver.Post.Records.{
  post_db_record_count, post_db_record, course_db, grade_db, class_db, classroom_db, student_db,
  course_item_db,
}
use teachserver.Handler.Forward.{Handler}

unfoldable pub handle_login : Handler
unfolding Login.check
handle_login env p w = Login.check env.db p w

unfoldable pub handle_get_course_db_count : Handler
unfolding post_db_record_count
handle_get_course_db_count env p w = post_db_record_count env p course_db w

unfoldable pub handle_get_course_db : Handler
unfolding post_db_record
handle_get_course_db env p w = post_db_record env p course_db w

unfoldable pub handle_get_course_item_count : Handler
unfolding post_db_record_count
handle_get_course_item_count env p w = post_db_record_count env p course_item_db w

unfoldable pub handle_get_course_item : Handler
unfolding post_db_record
handle_get_course_item env p w = post_db_record env p course_item_db w

unfoldable pub handle_get_class_room_db_count : Handler
unfolding post_db_record_count
handle_get_class_room_db_count env p w = post_db_record_count env p classroom_db w

unfoldable pub handle_get_class_room_db : Handler
unfolding post_db_record
handle_get_class_room_db env p w = post_db_record env p classroom_db w

unfoldable pub handle_get_grade_db_count : Handler
unfolding post_db_record_count
handle_get_grade_db_count env p w = post_db_record_count env p grade_db w

unfoldable pub handle_get_grade_db : Handler
unfolding post_db_record
handle_get_grade_db env p w = post_db_record env p grade_db w

unfoldable pub handle_get_class_db_count : Handler
unfolding post_db_record_count
handle_get_class_db_count env p w = post_db_record_count env p class_db w

unfoldable pub handle_get_class_db : Handler
unfolding post_db_record
handle_get_class_db env p w = post_db_record env p class_db w

unfoldable pub handle_get_all_student_info_count : Handler
unfolding post_db_record_count
handle_get_all_student_info_count env p w = post_db_record_count env p student_db w

unfoldable pub handle_get_all_student_info : Handler
unfolding post_db_record
handle_get_all_student_info env p w = post_db_record env p student_db w

unfoldable pub new_course : CourseRow → Course
new_course row = record { name = row.course_name; course_id = row.course_id; course_list = [] }

unfoldable pub add_courses : List CourseRow → Room → Room
unfolding new_course add_course
add_courses [] r = r
add_courses (row ∷ rows) r = add_courses rows (add_course (new_course row) r)

-- struct sCourseGroup: sGradeName[20], sCourseGroupName[20]. The buffer is kept.
unfoldable pub handle_set_course_group : Handler
unfolding c_str add_courses clear_all_course
handle_set_course_group env p w = do
  grade ← c_str (body p w) 0 20
  group ← c_str (body p w) 20 20
  elim (env.db.select_used_course grade group) [
    | none ↦ some w
    | some rows ↦ elim (room_of p w) [
      | none ↦ some w
      | some (k, room) ↦ some (with_room k (add_courses rows (clear_all_course room)) w)
    ]
  ]

-- The names of the courses, each with a comma behind it.
unfoldable pub join_names : List Course → List ℕ
join_names [] = []
join_names (c ∷ cs) = c.name ++ 44 ∷ join_names cs

abbrev courses_of : Option (ℕ × Room) → List Course
courses_of none = []
courses_of (some (k, room)) = room.course_list

-- `strncpy` of more than the 128 bytes of sCourseList is a fault.
unfoldable pub handle_get_course_group : Handler
unfolding join_names until_nul as_bytes set_len set_type set_size write_data send_enqueue code
handle_get_course_group env p w =
    let result = join_names (courses_of (room_of p w)) in
    let len = msg_head_len + 128 in
    let s = set_len p len (set_type p (code st_get_course_group) w.single) in
    if ltb 128 (length result) then none else do
      s' ← write_data p 128 (as_bytes (until_nul result)) s
      some (record w { single = send_enqueue p (set_size p len s') })

abbrev detail_fields : DetailRow → List Field
detail_fields r =
    s_get_student_detail_info r.number r.first_name r.last_name r.sex r.school_name r.grade_name
      r.class_name r.account r.tf_name r.tl_name r.picture_id

-- Each row starts from zeros, and the last one stays.
unfoldable pub fill_detail : List DetailRow → (ℕ → ℕ) → Option (ℕ → ℕ)
unfolding put_fields
fill_detail [] m = some m
fill_detail (r ∷ rs) m = put_fields (λ _. 0) 0 (detail_fields r) >>= fill_detail rs

-- struct sStudentDetail: iStudentId, sStudentName[20]. An exception keeps the buffer.
unfoldable pub handle_get_student_detail_info : Handler
unfolding c_str fill_detail post_message code
handle_get_student_detail_info env p w =
    if command p w == code ct_get_student_detail_info
    then (do
      name ← c_str (body p w) 4 20
      elim (env.db.select_student_detail (get_u32 (body p w) 0) name) [
        | none ↦ some w
        | some rows ↦ do
          info ← fill_detail rows (λ _. 0)
          (sent, s) ← post_message p st_get_student_detail_info (some info) 214 w.single
          some (record w { single = s })
      ])
    else some w

-- Each row is written over the one before.
unfoldable pub fill_teacher : List TeacherRow → (ℕ → ℕ) → Option (ℕ → ℕ)
unfolding put_fields
fill_teacher [] m = some m
fill_teacher (r ∷ rs) m =
    put_fields m 0 (s_get_teacher_info r.account r.pic_name) >>= fill_teacher rs

unfoldable pub handle_get_teacher_info : Handler
unfolding fill_teacher post_message code
handle_get_teacher_info env p w =
    if p == null
    then some w
    else if command p w == code ct_get_teacher_info
    then elim (room_of p w) [
      | none ↦ some w
      | some (k, room) ↦ elim (env.db.select_teacher_detail room.teacher_name) [
        | none ↦ some w
        | some rows ↦ do
          info ← fill_teacher rows (λ _. 0)
          (sent, s) ← post_message p st_get_teacher_info (some info) 148 w.single
          some (record w { single = s })
      ]
    ]
    else some w

unfoldable pub fill_keys : List (List ℕ) → (ℕ → ℕ) → Option (ℕ → ℕ)
unfolding put_fields
fill_keys [] m = some m
fill_keys (k ∷ ks) m = put_fields m 0 (course_item_key_info_rsp k) >>= fill_keys ks

unfoldable pub handle_get_course_item_key_info_req : Handler
unfolding c_str fill_keys set_len set_type set_size write_data send_enqueue code
handle_get_course_item_key_info_req env p w = do
  item ← c_str (body p w) 0 64
  elim (env.db.select_item_keys item) [
    | none ↦ some (free p w)
    | some rows ↦ do
      keys ← fill_keys rows (λ _. 0)
      let len = msg_head_len + 512
      let s = set_type p (code ct_get_course_item_key_info_rsp) (set_len p len w.single)
      s' ← write_data p 512 keys s
      some (record w { single = send_enqueue p (set_size p len s') })
  ]
