-- ===== src/System/Table.antt =====
-- Every handler that MSGHANDLE registers keeps the rooms well.
use teachserver.Base.{ℕ, ◌≡◌, ◌∙◌, sym, some, List, [], ◌∷◌, arith}
use mathlib.Core.Path.{subst}
use mathlib.Core.Option.{some-injective}
use native.Mathlib.Decide.{ℕ_discrete}
use teachserver.Protocol.{CommandType, code}
use teachserver.Handler.Forward
use teachserver.Handler.Forward.{Handler, forward}
use teachserver.Handler.Todo
use teachserver.Handler.Account
use teachserver.Protocol.Command.{
  ct_build_house_activation, ct_build_house_cai_hong_gu, ct_build_house_cai_hong_xiao_wu,
  ct_build_house_email_america, ct_build_house_email_tibet, ct_build_house_game_end,
  ct_build_house_group_mode, ct_build_house_mu_bu, ct_build_house_operator_demo,
  ct_build_house_role, ct_build_house_single_mode, ct_build_house_stamp,
  ct_build_house_xiao_guai_wu, ct_cartoon_game_end, ct_cartoon_game_start, ct_cartoon_pause,
  ct_cartoon_play, ct_cartoon_stop, ct_common_playor_pause, ct_common_resume, ct_common_stop,
  ct_control_level, ct_exercise_game_end, ct_exercise_game_start, ct_exercise_pause,
  ct_exercise_play, ct_exercise_stop, ct_puzzle_icon_status, ct_puzzle_pause, ct_puzzle_play,
  ct_show_sprite_animation, ct_show_sprite_control, st_build_house_activation,
  st_build_house_cai_hong_gu, st_build_house_cai_hong_xiao_wu, st_build_house_email_america,
  st_build_house_email_tibet, st_build_house_game_end, st_build_house_group_mode,
  st_build_house_mu_bu, st_build_house_operator_demo, st_build_house_role,
  st_build_house_single_mode, st_build_house_stamp, st_build_house_xiao_guai_wu,
  st_cartoon_game_end, st_cartoon_game_start, st_cartoon_pause, st_cartoon_play, st_cartoon_stop,
  st_common_resume, st_common_stop, st_control_level, st_exercise_game_end, st_exercise_game_start,
  st_exercise_pause, st_exercise_play, st_exercise_stop, st_puzzle_icon_status, st_puzzle_pause,
  st_puzzle_play, st_show_sprite_animation, st_show_sprite_control,
}
use teachserver.Post.Records.{
  DbCase, post_db_record, post_db_record_count, course_db, grade_db, class_db, classroom_db,
  student_db, course_item_db,
}
use teachserver.Dispatch.{handlers, init_handlers, get_handler}
use teachserver.Dispatch.Laws.{entry, get_handler-init_handlers}
use teachserver.System.Ordered.{Keeps, Keeps-Spares}
use teachserver.System.Messages.{
  handle_change_scene-Spares, handle_get_course_group-Spares, handle_get_student_detail_info-Spares,
  handle_leave_early-Spares, handle_get_teacher_info-Spares, handle_lock_student-Spares,
  handle_db_record_finished-Spares, handle_get_course_item_key_info_req-Spares,
  handle_scene_end-Spares, handle_puzzle_get_pic-Spares, handle_puzzle_update_pic-Spares,
  forward-Spares, post_db_record_count-Spares, post_db_record-Spares,
}
use teachserver.System.Logins.{handle_login-Keeps}
use teachserver.System.Clients.{
  handle_set_course_group-Keeps, handle_login_class_room-Keeps, handle_logout_class_room-Keeps,
  handle_selected_class_room-Keeps,
}
use teachserver.System.Games.{
  handle_build_house_game_start-Keeps, handle_puzzle_game_start-Keeps, handle_puzzle_end_game-Keeps,
}
use teachserver.System.Houses.{
  handle_build_house_update-Keeps, handle_build_house_change_layer-Keeps,
  handle_build_house_add_pic-Keeps, handle_build_house_del_pic-Keeps,
}

-- Every handler of a list keeps the rooms well.
infixr 5 ◌⊕◌
data KeepsAll : List (CommandType × Handler) → Type 0 where
  no_more : KeepsAll []
  ◌⊕◌ :
      {t : CommandType} {h : Handler} {table : List (CommandType × Handler)}
      → Keeps h
      → KeepsAll table
      → KeepsAll ((t, h) ∷ table)

forward-Keeps : (ct st : CommandType) → Keeps (λ env. forward ct st)
forward-Keeps ct st = Keeps-Spares _ (forward-Spares ct st)

post_db_record_count-Keeps : (c : DbCase) → Keeps (λ env p. post_db_record_count env p c)
post_db_record_count-Keeps c = Keeps-Spares _ (post_db_record_count-Spares c)

post_db_record-Keeps : (c : DbCase) → Keeps (λ env p. post_db_record env p c)
post_db_record-Keeps c = Keeps-Spares _ (post_db_record-Spares c)

pub nothing-Keeps : Keeps (λ env p w. some w)
nothing-Keeps ks env p w w' u h = ground (arith, u)

table-Keeps : (hn hi : Handler) → Keeps hn → Keeps hi → KeepsAll (handlers hn hi)
unfolding handlers Todo.handle_test Todo.handle_login_result Account.handle_get_course_db_count
    Account.handle_get_course_db Account.handle_get_course_item_count Account.handle_get_course_item
    Todo.handle_logout Todo.handle_logout_reuslt Account.handle_get_class_room_db_count
    Account.handle_get_class_room_db Account.handle_get_grade_db_count Account.handle_get_grade_db
    Account.handle_get_class_db_count Account.handle_get_class_db
    Account.handle_get_all_student_info_count Account.handle_get_all_student_info
    Todo.handle_confirm_leave_early Todo.handle_course_finished Forward.handle_common_playor_pause
    Forward.handle_common_resume Forward.handle_common_stop Forward.handle_show_sprite_animation
    Forward.handle_show_sprite_control Forward.handle_control_level
    Forward.handle_exercise_game_start Forward.handle_exercise_play Forward.handle_exercise_pause
    Forward.handle_exercise_stop Forward.handle_exercise_game_end Forward.handle_cartoon_game_start
    Forward.handle_cartoon_play Forward.handle_cartoon_pause Forward.handle_cartoon_stop
    Forward.handle_cartoon_game_end Forward.handle_build_house_cai_hong_xiao_wu
    Forward.handle_build_house_cai_hong_gu Forward.handle_build_house_xiao_guai_wu
    Forward.handle_build_house_mu_bu Forward.handle_build_house_operator_demo
    Forward.handle_build_house_single_mode Forward.handle_build_house_group_mode
    Todo.handle_build_house_set_stu_group_count Todo.handle_build_house_set_stu_group
    Todo.handle_build_house_get_stu_group_count Todo.handle_build_house_get_stu_group
    Todo.handle_build_house_update_pos Forward.handle_build_house_game_end
    Todo.handle_build_house_save Forward.handle_build_house_email_tibet
    Forward.handle_build_house_email_america Forward.handle_build_house_activation
    Forward.handle_build_house_role Forward.handle_build_house_stamp
    Todo.handle_build_house_save_house Forward.handle_puzzle_icon_status Forward.handle_puzzle_play
    Forward.handle_puzzle_pause Todo.handle_puzzle_move_pic Todo.handle_puzzle_delete_pic
    Todo.handle_puzzle_add_pic Todo.handle_puzzle_calc_score
table-Keeps hn hi kn ki =
    nothing-Keeps
    ⊕ Keeps-Spares _ handle_change_scene-Spares
    ⊕ handle_login-Keeps
    ⊕ nothing-Keeps
    ⊕ post_db_record_count-Keeps course_db
    ⊕ post_db_record-Keeps course_db
    ⊕ handle_set_course_group-Keeps
    ⊕ Keeps-Spares _ handle_get_course_group-Spares
    ⊕ post_db_record_count-Keeps course_item_db
    ⊕ post_db_record-Keeps course_item_db
    ⊕ nothing-Keeps
    ⊕ nothing-Keeps
    ⊕ post_db_record_count-Keeps classroom_db
    ⊕ post_db_record-Keeps classroom_db
    ⊕ post_db_record_count-Keeps grade_db
    ⊕ post_db_record-Keeps grade_db
    ⊕ post_db_record_count-Keeps class_db
    ⊕ post_db_record-Keeps class_db
    ⊕ handle_login_class_room-Keeps
    ⊕ handle_logout_class_room-Keeps
    ⊕ Keeps-Spares _ handle_get_student_detail_info-Spares
    ⊕ post_db_record_count-Keeps student_db
    ⊕ post_db_record-Keeps student_db
    ⊕ Keeps-Spares _ handle_leave_early-Spares
    ⊕ nothing-Keeps
    ⊕ Keeps-Spares _ handle_get_teacher_info-Spares
    ⊕ Keeps-Spares _ handle_lock_student-Spares
    ⊕ handle_selected_class_room-Keeps
    ⊕ nothing-Keeps
    ⊕ Keeps-Spares _ handle_db_record_finished-Spares
    ⊕ Keeps-Spares _ handle_get_course_item_key_info_req-Spares
    ⊕ forward-Keeps ct_common_playor_pause ct_common_playor_pause
    ⊕ forward-Keeps ct_common_resume st_common_resume
    ⊕ forward-Keeps ct_common_stop st_common_stop
    ⊕ forward-Keeps ct_show_sprite_animation st_show_sprite_animation
    ⊕ forward-Keeps ct_show_sprite_control st_show_sprite_control
    ⊕ forward-Keeps ct_control_level st_control_level
    ⊕ forward-Keeps ct_exercise_game_start st_exercise_game_start
    ⊕ forward-Keeps ct_exercise_play st_exercise_play
    ⊕ forward-Keeps ct_exercise_pause st_exercise_pause
    ⊕ forward-Keeps ct_exercise_stop st_exercise_stop
    ⊕ forward-Keeps ct_exercise_game_end st_exercise_game_end
    ⊕ forward-Keeps ct_cartoon_game_start st_cartoon_game_start
    ⊕ forward-Keeps ct_cartoon_play st_cartoon_play
    ⊕ forward-Keeps ct_cartoon_pause st_cartoon_pause
    ⊕ forward-Keeps ct_cartoon_stop st_cartoon_stop
    ⊕ forward-Keeps ct_cartoon_game_end st_cartoon_game_end
    ⊕ forward-Keeps ct_build_house_cai_hong_xiao_wu st_build_house_cai_hong_xiao_wu
    ⊕ forward-Keeps ct_build_house_cai_hong_gu st_build_house_cai_hong_gu
    ⊕ forward-Keeps ct_build_house_xiao_guai_wu st_build_house_xiao_guai_wu
    ⊕ forward-Keeps ct_build_house_mu_bu st_build_house_mu_bu
    ⊕ forward-Keeps ct_build_house_operator_demo st_build_house_operator_demo
    ⊕ forward-Keeps ct_build_house_single_mode st_build_house_single_mode
    ⊕ forward-Keeps ct_build_house_group_mode st_build_house_group_mode
    ⊕ nothing-Keeps
    ⊕ nothing-Keeps
    ⊕ nothing-Keeps
    ⊕ nothing-Keeps
    ⊕ handle_build_house_game_start-Keeps
    ⊕ nothing-Keeps
    ⊕ forward-Keeps ct_build_house_game_end st_build_house_game_end
    ⊕ nothing-Keeps
    ⊕ forward-Keeps ct_build_house_email_tibet st_build_house_email_tibet
    ⊕ forward-Keeps ct_build_house_email_america st_build_house_email_america
    ⊕ handle_build_house_update-Keeps
    ⊕ handle_build_house_change_layer-Keeps
    ⊕ handle_build_house_add_pic-Keeps
    ⊕ handle_build_house_del_pic-Keeps
    ⊕ forward-Keeps ct_build_house_activation st_build_house_activation
    ⊕ forward-Keeps ct_build_house_role st_build_house_role
    ⊕ forward-Keeps ct_build_house_stamp st_build_house_stamp
    ⊕ nothing-Keeps
    ⊕ handle_puzzle_game_start-Keeps
    ⊕ forward-Keeps ct_puzzle_icon_status st_puzzle_icon_status
    ⊕ forward-Keeps ct_puzzle_play st_puzzle_play
    ⊕ forward-Keeps ct_puzzle_pause st_puzzle_pause
    ⊕ nothing-Keeps
    ⊕ nothing-Keeps
    ⊕ nothing-Keeps
    ⊕ nothing-Keeps
    ⊕ handle_puzzle_end_game-Keeps
    ⊕ Keeps-Spares _ handle_scene_end-Spares
    ⊕ Keeps-Spares _ handle_puzzle_get_pic-Spares
    ⊕ Keeps-Spares _ handle_puzzle_update_pic-Spares
    ⊕ kn
    ⊕ ki
    ⊕ no_more

entry-Keeps :
    (n : ℕ) (h : Handler) (table : List (CommandType × Handler))
    → KeepsAll table
    → entry n table ≡ some h
    → Keeps h
unfolding entry
entry-Keeps n h [] no_more e = absurd (ground arith)
entry-Keeps n h ((t, g) ∷ table) (k ⊕ ks) e = elim (ℕ_discrete (code t) n) [
  | yes f ↦ subst Keeps (some-injective g h (ground arith)) k
  | no f ↦ entry-Keeps n h table ks (ground arith)
]

pub get_handler-Keeps :
    (hn hi : Handler) (n : ℕ) (h : Handler)
    → Keeps hn
    → Keeps hi
    → get_handler n (init_handlers hn hi) ≡ some h
    → Keeps h
get_handler-Keeps hn hi n h kn ki e =
    entry-Keeps n h (handlers hn hi) (table-Keeps hn hi kn ki)
      (sym (get_handler-init_handlers hn hi n) ∙ e)
