-- ===== src/Dispatch.antt =====
-- handler/MSGHANDLE and HandleMessage.h: which handler is registered for which type of message.
pub mod Laws
pub mod Work
pub mod Routes
use teachserver.Base.{ℕ, Option, some, List, [], ◌∷◌}
use teachserver.StdMap
use teachserver.StdMap.{StdMap}
use teachserver.Protocol.{CommandType, code}
use teachserver.Protocol.Command.{
  ct_test, ct_change_scene, ct_login, ct_login_result, ct_get_course_db_count, ct_get_course_db,
  ct_set_course_group, ct_get_course_group, ct_get_course_item_count, ct_get_course_item, ct_logout,
  ct_logout_reuslt, ct_get_class_room_db_count, ct_get_class_room_db, ct_get_grade_db_count,
  ct_get_grade_db, ct_get_class_db_count, ct_get_class_db, ct_login_class_room,
  ct_logout_class_room, ct_get_student_detail_info, ct_get_all_student_info_count,
  ct_get_all_student_info, ct_leave_early, ct_confirm_leave_early, ct_get_teacher_info,
  ct_lock_student, ct_selected_class_room, ct_course_finished, ct_get_db_record_finished,
  ct_get_course_item_key_info_req, ct_common_playor_pause, ct_common_resume, ct_common_stop,
  ct_show_sprite_animation, ct_show_sprite_control, ct_control_level, ct_exercise_game_start,
  ct_exercise_play, ct_exercise_pause, ct_exercise_stop, ct_exercise_game_end,
  ct_cartoon_game_start, ct_cartoon_play, ct_cartoon_pause, ct_cartoon_stop, ct_cartoon_game_end,
  ct_build_house_cai_hong_xiao_wu, ct_build_house_cai_hong_gu, ct_build_house_xiao_guai_wu,
  ct_build_house_mu_bu, ct_build_house_operator_demo, ct_build_house_single_mode,
  ct_build_house_group_mode, ct_build_house_set_stu_group_count, ct_build_house_set_stu_group,
  ct_build_house_get_stu_group_count, ct_build_house_get_stu_group, ct_build_house_game_start,
  ct_build_house_update_pos, ct_build_house_game_end, ct_build_house_save,
  ct_build_house_email_tibet, ct_build_house_email_america, ct_build_house_update,
  ct_build_house_change_layer, ct_build_house_add_pic, ct_build_house_del_pic,
  ct_build_house_activation, ct_build_house_role, ct_build_house_stamp, ct_build_house_save_house,
  ct_puzzle_game_start, ct_puzzle_icon_status, ct_puzzle_play, ct_puzzle_pause, ct_puzzle_move_pic,
  ct_puzzle_delete_pic, ct_puzzle_add_pic, ct_puzzle_calc_score, ct_puzzle_end_game, ct_scene_end,
  ct_puzzle_get_pic, ct_puzzle_update_pic, ct_rainbow_valley_house_num,
  ct_rainbow_valley_house_info,
}
use teachserver.Handler.Forward.{Handler}
use teachserver.Handler.Forward.{
  handle_common_playor_pause, handle_common_resume, handle_common_stop,
  handle_show_sprite_animation, handle_show_sprite_control, handle_control_level,
  handle_exercise_game_start, handle_exercise_play, handle_exercise_pause, handle_exercise_stop,
  handle_exercise_game_end, handle_cartoon_game_start, handle_cartoon_play, handle_cartoon_pause,
  handle_cartoon_stop, handle_cartoon_game_end, handle_build_house_cai_hong_xiao_wu,
  handle_build_house_cai_hong_gu, handle_build_house_xiao_guai_wu, handle_build_house_mu_bu,
  handle_build_house_operator_demo, handle_build_house_single_mode, handle_build_house_group_mode,
  handle_build_house_game_end, handle_build_house_email_tibet, handle_build_house_email_america,
  handle_build_house_activation, handle_build_house_role, handle_build_house_stamp,
  handle_puzzle_icon_status, handle_puzzle_play, handle_puzzle_pause,
}
use teachserver.Handler.Todo.{
  handle_test, handle_login_result, handle_logout, handle_logout_reuslt, handle_confirm_leave_early,
  handle_course_finished, handle_build_house_set_stu_group_count, handle_build_house_set_stu_group,
  handle_build_house_get_stu_group_count, handle_build_house_get_stu_group,
  handle_build_house_update_pos, handle_build_house_save, handle_build_house_save_house,
  handle_puzzle_move_pic, handle_puzzle_delete_pic, handle_puzzle_add_pic, handle_puzzle_calc_score,
}
use teachserver.Handler.Classroom.{
  handle_change_scene, handle_login_class_room, handle_logout_class_room, handle_leave_early,
  handle_lock_student, handle_selected_class_room, handle_db_record_finished, handle_scene_end,
}
use teachserver.Handler.BuildHouse.{
  handle_build_house_game_start, handle_build_house_update, handle_build_house_change_layer,
  handle_build_house_add_pic, handle_build_house_del_pic,
}
use teachserver.Handler.Puzzle.{
  handle_puzzle_game_start, handle_puzzle_end_game, handle_puzzle_update_pic,
}
use teachserver.Handler.Picture.{handle_puzzle_get_pic}
use teachserver.Handler.Account.{
  handle_login, handle_get_course_db_count, handle_get_course_db, handle_set_course_group,
  handle_get_course_group, handle_get_course_item_count, handle_get_course_item,
  handle_get_class_room_db_count, handle_get_class_room_db, handle_get_grade_db_count,
  handle_get_grade_db, handle_get_class_db_count, handle_get_class_db,
  handle_get_student_detail_info, handle_get_all_student_info_count, handle_get_all_student_info,
  handle_get_teacher_info, handle_get_course_item_key_info_req,
}

-- The list in MSGHANDLE. The source of the two handlers for the rainbow valley is not part of the
-- build, so they are arguments.
unfoldable pub handlers : Handler → Handler → List (CommandType × Handler)
handlers house_num house_info =
    (ct_test, handle_test)
    ∷ (ct_change_scene, handle_change_scene)
    ∷ (ct_login, handle_login)
    ∷ (ct_login_result, handle_login_result)
    ∷ (ct_get_course_db_count, handle_get_course_db_count)
    ∷ (ct_get_course_db, handle_get_course_db)
    ∷ (ct_set_course_group, handle_set_course_group)
    ∷ (ct_get_course_group, handle_get_course_group)
    ∷ (ct_get_course_item_count, handle_get_course_item_count)
    ∷ (ct_get_course_item, handle_get_course_item)
    ∷ (ct_logout, handle_logout)
    ∷ (ct_logout_reuslt, handle_logout_reuslt)
    ∷ (ct_get_class_room_db_count, handle_get_class_room_db_count)
    ∷ (ct_get_class_room_db, handle_get_class_room_db)
    ∷ (ct_get_grade_db_count, handle_get_grade_db_count)
    ∷ (ct_get_grade_db, handle_get_grade_db)
    ∷ (ct_get_class_db_count, handle_get_class_db_count)
    ∷ (ct_get_class_db, handle_get_class_db)
    ∷ (ct_login_class_room, handle_login_class_room)
    ∷ (ct_logout_class_room, handle_logout_class_room)
    ∷ (ct_get_student_detail_info, handle_get_student_detail_info)
    ∷ (ct_get_all_student_info_count, handle_get_all_student_info_count)
    ∷ (ct_get_all_student_info, handle_get_all_student_info)
    ∷ (ct_leave_early, handle_leave_early)
    ∷ (ct_confirm_leave_early, handle_confirm_leave_early)
    ∷ (ct_get_teacher_info, handle_get_teacher_info)
    ∷ (ct_lock_student, handle_lock_student)
    ∷ (ct_selected_class_room, handle_selected_class_room)
    ∷ (ct_course_finished, handle_course_finished)
    ∷ (ct_get_db_record_finished, handle_db_record_finished)
    ∷ (ct_get_course_item_key_info_req, handle_get_course_item_key_info_req)
    ∷ (ct_common_playor_pause, handle_common_playor_pause)
    ∷ (ct_common_resume, handle_common_resume)
    ∷ (ct_common_stop, handle_common_stop)
    ∷ (ct_show_sprite_animation, handle_show_sprite_animation)
    ∷ (ct_show_sprite_control, handle_show_sprite_control)
    ∷ (ct_control_level, handle_control_level)
    ∷ (ct_exercise_game_start, handle_exercise_game_start)
    ∷ (ct_exercise_play, handle_exercise_play)
    ∷ (ct_exercise_pause, handle_exercise_pause)
    ∷ (ct_exercise_stop, handle_exercise_stop)
    ∷ (ct_exercise_game_end, handle_exercise_game_end)
    ∷ (ct_cartoon_game_start, handle_cartoon_game_start)
    ∷ (ct_cartoon_play, handle_cartoon_play)
    ∷ (ct_cartoon_pause, handle_cartoon_pause)
    ∷ (ct_cartoon_stop, handle_cartoon_stop)
    ∷ (ct_cartoon_game_end, handle_cartoon_game_end)
    ∷ (ct_build_house_cai_hong_xiao_wu, handle_build_house_cai_hong_xiao_wu)
    ∷ (ct_build_house_cai_hong_gu, handle_build_house_cai_hong_gu)
    ∷ (ct_build_house_xiao_guai_wu, handle_build_house_xiao_guai_wu)
    ∷ (ct_build_house_mu_bu, handle_build_house_mu_bu)
    ∷ (ct_build_house_operator_demo, handle_build_house_operator_demo)
    ∷ (ct_build_house_single_mode, handle_build_house_single_mode)
    ∷ (ct_build_house_group_mode, handle_build_house_group_mode)
    ∷ (ct_build_house_set_stu_group_count, handle_build_house_set_stu_group_count)
    ∷ (ct_build_house_set_stu_group, handle_build_house_set_stu_group)
    ∷ (ct_build_house_get_stu_group_count, handle_build_house_get_stu_group_count)
    ∷ (ct_build_house_get_stu_group, handle_build_house_get_stu_group)
    ∷ (ct_build_house_game_start, handle_build_house_game_start)
    ∷ (ct_build_house_update_pos, handle_build_house_update_pos)
    ∷ (ct_build_house_game_end, handle_build_house_game_end)
    ∷ (ct_build_house_save, handle_build_house_save)
    ∷ (ct_build_house_email_tibet, handle_build_house_email_tibet)
    ∷ (ct_build_house_email_america, handle_build_house_email_america)
    ∷ (ct_build_house_update, handle_build_house_update)
    ∷ (ct_build_house_change_layer, handle_build_house_change_layer)
    ∷ (ct_build_house_add_pic, handle_build_house_add_pic)
    ∷ (ct_build_house_del_pic, handle_build_house_del_pic)
    ∷ (ct_build_house_activation, handle_build_house_activation)
    ∷ (ct_build_house_role, handle_build_house_role)
    ∷ (ct_build_house_stamp, handle_build_house_stamp)
    ∷ (ct_build_house_save_house, handle_build_house_save_house)
    ∷ (ct_puzzle_game_start, handle_puzzle_game_start)
    ∷ (ct_puzzle_icon_status, handle_puzzle_icon_status)
    ∷ (ct_puzzle_play, handle_puzzle_play)
    ∷ (ct_puzzle_pause, handle_puzzle_pause)
    ∷ (ct_puzzle_move_pic, handle_puzzle_move_pic)
    ∷ (ct_puzzle_delete_pic, handle_puzzle_delete_pic)
    ∷ (ct_puzzle_add_pic, handle_puzzle_add_pic)
    ∷ (ct_puzzle_calc_score, handle_puzzle_calc_score)
    ∷ (ct_puzzle_end_game, handle_puzzle_end_game)
    ∷ (ct_scene_end, handle_scene_end)
    ∷ (ct_puzzle_get_pic, handle_puzzle_get_pic)
    ∷ (ct_puzzle_update_pic, handle_puzzle_update_pic)
    ∷ (ct_rainbow_valley_house_num, house_num)
    ∷ (ct_rainbow_valley_house_info, house_info)
    ∷ []

-- setHandler: `insert` keeps the handler that is there.
unfoldable pub set_handler : CommandType → Handler → StdMap Handler → StdMap Handler
unfolding code
set_handler t h m = StdMap.insert (code t) h m

unfoldable pub register : List (CommandType × Handler) → StdMap Handler → StdMap Handler
unfolding set_handler
register [] m = m
register ((t, h) ∷ rest) m = register rest (set_handler t h m)

unfoldable pub init_handlers : Handler → Handler → StdMap Handler
unfolding register handlers
init_handlers house_num house_info = register (handlers house_num house_info) []

unfoldable pub get_handler : ℕ → StdMap Handler → Option Handler
get_handler t m = StdMap.find t m
