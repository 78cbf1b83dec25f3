-- ===== src/Handler/Todo.antt =====
-- handler/*.cpp: the handlers that do nothing yet. They keep the buffer.
use teachserver.Base.{some}
use teachserver.Handler.Forward.{Handler}

unfoldable pub handle_build_house_set_stu_group_count : Handler
handle_build_house_set_stu_group_count env p w = some w

unfoldable pub handle_build_house_set_stu_group : Handler
handle_build_house_set_stu_group env p w = some w

unfoldable pub handle_build_house_get_stu_group_count : Handler
handle_build_house_get_stu_group_count env p w = some w

unfoldable pub handle_build_house_get_stu_group : Handler
handle_build_house_get_stu_group env p w = some w

unfoldable pub handle_build_house_update_pos : Handler
handle_build_house_update_pos env p w = some w

unfoldable pub handle_build_house_save : Handler
handle_build_house_save env p w = some w

unfoldable pub handle_build_house_save_house : Handler
handle_build_house_save_house env p w = some w

unfoldable pub handle_puzzle_move_pic : Handler
handle_puzzle_move_pic env p w = some w

unfoldable pub handle_puzzle_delete_pic : Handler
handle_puzzle_delete_pic env p w = some w

unfoldable pub handle_puzzle_add_pic : Handler
handle_puzzle_add_pic env p w = some w

unfoldable pub handle_puzzle_calc_score : Handler
handle_puzzle_calc_score env p w = some w

unfoldable pub handle_test : Handler
handle_test env p w = some w

unfoldable pub handle_login_result : Handler
handle_login_result env p w = some w

unfoldable pub handle_logout : Handler
handle_logout env p w = some w

unfoldable pub handle_logout_reuslt : Handler
handle_logout_reuslt env p w = some w

unfoldable pub handle_confirm_leave_early : Handler
handle_confirm_leave_early env p w = some w

unfoldable pub handle_course_finished : Handler
handle_course_finished env p w = some w
