-- ===== src/Handler/Classroom.antt =====
-- handler/HandleClassRoom.cpp: who is in which room, and messages to students.
pub mod Join
pub mod Teacher
use teachserver.Base.{
  ℕ, ◌+◌, ◌-◌, ◌%◌, false, none, some, [], ◌>>=◌, ◌==◌, if◌then◌else◌, get_u32, bytes_eq,
}
use teachserver.Protocol.{code, client_code, mct_student, mct_whiteboard, offline, msg_head_len}
use teachserver.Protocol.Command.{
  st_change_scene, ct_leave_early, st_leave_early, ct_lock_student, st_lock_student, ct_scene_end,
  st_scene_end,
}
use teachserver.Single
use teachserver.Single.{null, get_fd, block}
use teachserver.Student.{Student}
use teachserver.Room
use teachserver.Room.{
  set_teacher_fd, set_teacher_name, set_class_name, set_white_fd, add_student, is_teacher_fd,
}
use teachserver.Manager
use teachserver.Server.{Server, with_single, with_room, free, room_of, body, command, c_str}
use teachserver.Post.{post_message, post_teacher_to_all_student, post_teacher_to_student}
use teachserver.Handler.Forward.{Handler}

unfoldable pub handle_change_scene : Handler
unfolding post_teacher_to_all_student
handle_change_scene env p w = post_teacher_to_all_student p st_change_scene w >>= λ r. some r.1

-- struct sLoginOutClassRoom: the teacher's name at 4, the class at 24, the classroom at 44.
unfoldable pub handle_login_class_room : Handler
unfolding c_str Manager.get_room_by_name bytes_eq set_teacher_fd set_teacher_name set_class_name
handle_login_class_room env p w = do
  let fd = get_fd p w.single
  class_room_name ← c_str (body p w) 44 20
  elim (Manager.get_room_by_name class_room_name w.room_map) [
    | none ↦ some (free p w)
    | some (k, room) ↦ if fd == room.teacher_fd then some w else do
      teacher_name ← c_str (body p w) 4 20
      if bytes_eq teacher_name room.teacher_name then some w else do
        class_name ← c_str (body p w) 24 20
        let room' =
            set_class_name class_name (set_teacher_name teacher_name (set_teacher_fd fd room))
        some (free p (with_room k room' w))
  ]

unfoldable pub handle_logout_class_room : Handler
unfolding is_teacher_fd Room.reset
handle_logout_class_room env p w = elim (room_of p w) [
  | none ↦ some w
  | some (k, room) ↦
      if is_teacher_fd (get_fd p w.single) room
      then some (with_room k (Room.reset room) w)
      else some w
]

unfoldable pub handle_leave_early : Handler
unfolding post_teacher_to_student code
handle_leave_early env p w =
    if p == null
    then some w
    else if command p w == code ct_leave_early
    then (post_teacher_to_student p st_leave_early (get_u32 (body p w) 0) w >>= λ r. some r.1)
    else some w

unfoldable pub handle_lock_student : Handler
unfolding post_teacher_to_all_student code
handle_lock_student env p w =
    if p == null
    then some w
    else if command p w == code ct_lock_student
    then (post_teacher_to_all_student p st_lock_student w >>= λ r. some r.1)
    else some w

-- `new CStudent ()`, `setId (0)`, `setOnLine (false)`, `setStudentStatus (eCS_OFFLINE)`.
unfoldable pub new_student : ℕ → Student
new_student addr = record {
  addr = addr;
  current_status = offline;
  name = [];
  account_name = [];
  on_line = false;
  student_id = 0;
  picture_name = [];
}

-- `p->reset (); SINGLE->bufpool.free (p)`.
abbrev done_with : ℕ → Server → Server
done_with p w = free p (with_single (Single.reset p) w)

-- struct sSelectedClassRoom: the classroom's id at 0, the kind of client at 4. A missing classroom
-- is a NULL that is read for a student and for a whiteboard.
unfoldable pub handle_selected_class_room : Handler
unfolding new_student add_student set_white_fd client_code
handle_selected_class_room env p w =
    let fd = get_fd p w.single in
    let classroom_id = get_u32 (body p w) 0 in
    let client_type = get_u32 (body p w) 4 in
    if client_type == client_code mct_student
    then elim (room_of p w) [
      | some found ↦ some w
      | none ↦ elim (Manager.get_room classroom_id w.room_map) [
        | none ↦ none
        | some room ↦
            let room' = add_student fd (some (new_student env.fresh)) room in
            some (done_with p (with_room classroom_id room' w))
      ]
    ]
    else if client_type == client_code mct_whiteboard
    then elim (Manager.get_room classroom_id w.room_map) [
      | none ↦ none
      | some room ↦ some (done_with p (with_room classroom_id (set_white_fd fd room) w))
    ]
    else some (done_with p w)

unfoldable pub handle_db_record_finished : Handler
handle_db_record_finished env p w = if p == null then some w else some (done_with p w)

unfoldable pub handle_scene_end : Handler
unfolding post_message code
handle_scene_end env p w =
    if p == null
    then some w
    else if command p w == code ct_scene_end
    then (do
      let len = ((block p w.single).c_len + 4294967296 - msg_head_len) % 4294967296
      (sent, s) ← post_message p st_scene_end (some (body p w)) len w.single
      some (record w { single = s }))
    else some w
