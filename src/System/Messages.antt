-- ===== src/System/Messages.antt =====
-- The handlers that pass messages on or answer from the database leave the rooms alone.
use teachserver.Base.{arith, Option-cases, inl, inr}
use teachserver.Protocol.{CommandType}
use teachserver.Handler.Forward
use teachserver.Handler.Forward.{Handler}
use teachserver.Post
use teachserver.Post.Records
use teachserver.Post.Records.{DbCase}
use teachserver.Handler.Account
use teachserver.Handler.Classroom
use teachserver.Handler.Picture
use teachserver.Handler.Puzzle
use teachserver.Server.{body, c_str}
use teachserver.System.Ordered.{Spares}

pub forward-Spares : (ct st : CommandType) → Spares (λ env. Forward.forward ct st)
unfolding Forward.forward Post.post_teacher_to_white
forward-Spares ct st env p w w' h = ground arith

pub post_db_record_count-Spares :
    (c : DbCase) → Spares (λ env p. Records.post_db_record_count env p c)
unfolding Records.post_db_record_count
post_db_record_count-Spares c env p w w' h = ground arith

pub post_db_record-Spares : (c : DbCase) → Spares (λ env p. Records.post_db_record env p c)
unfolding Records.post_db_record
post_db_record-Spares c env p w w' h = ground arith

pub handle_scene_end-Spares : Spares Classroom.handle_scene_end
unfolding Classroom.handle_scene_end
handle_scene_end-Spares env p w w' h = ground arith

pub handle_puzzle_get_pic-Spares : Spares Picture.handle_puzzle_get_pic
unfolding Picture.handle_puzzle_get_pic
handle_puzzle_get_pic-Spares env p w w' h = ground arith

pub handle_get_course_group-Spares : Spares Account.handle_get_course_group
unfolding Account.handle_get_course_group
handle_get_course_group-Spares env p w w' h = ground arith

pub handle_change_scene-Spares : Spares Classroom.handle_change_scene
unfolding Classroom.handle_change_scene Post.post_teacher_to_all_student
handle_change_scene-Spares env p w w' h = ground arith

pub handle_leave_early-Spares : Spares Classroom.handle_leave_early
unfolding Classroom.handle_leave_early Post.post_teacher_to_student
handle_leave_early-Spares env p w w' h = ground arith

pub handle_lock_student-Spares : Spares Classroom.handle_lock_student
unfolding Classroom.handle_lock_student Post.post_teacher_to_all_student
handle_lock_student-Spares env p w w' h = ground arith

pub handle_db_record_finished-Spares : Spares Classroom.handle_db_record_finished
unfolding Classroom.handle_db_record_finished
handle_db_record_finished-Spares env p w w' h = ground arith

pub handle_get_student_detail_info-Spares : Spares Account.handle_get_student_detail_info
unfolding Account.handle_get_student_detail_info
handle_get_student_detail_info-Spares env p w w' h = elim (Option-cases (c_str (body p w) 4 20)) [
  | inl e ↦ ground arith
  | inr (name, e) ↦ ground arith
]

pub handle_get_teacher_info-Spares : Spares Account.handle_get_teacher_info
unfolding Account.handle_get_teacher_info
handle_get_teacher_info-Spares env p w w' h = ground arith

pub handle_get_course_item_key_info_req-Spares : Spares Account.handle_get_course_item_key_info_req
unfolding Account.handle_get_course_item_key_info_req
handle_get_course_item_key_info_req-Spares env p w w' h =
    elim (Option-cases (c_str (body p w) 0 64)) [
      | inl e ↦ ground arith
      | inr (item, e) ↦ ground arith
    ]

pub handle_puzzle_update_pic-Spares : Spares Puzzle.handle_puzzle_update_pic
unfolding Puzzle.handle_puzzle_update_pic
handle_puzzle_update_pic-Spares env p w w' h = ground arith
