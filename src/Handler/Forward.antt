-- ===== src/Handler/Forward.antt =====
-- handler/*.cpp: the handlers that pass a message of the teacher on to the whiteboard. Each tests
-- the type of the message again and changes it to the server's type.
use teachserver.Base.{ℕ, Option, some, ◌==◌, if◌then◌else◌}
use teachserver.Protocol.{CommandType, code}
use teachserver.Protocol.Command.{
  ct_build_house_cai_hong_xiao_wu, st_build_house_cai_hong_xiao_wu, ct_build_house_cai_hong_gu,
  st_build_house_cai_hong_gu, ct_build_house_xiao_guai_wu, st_build_house_xiao_guai_wu,
  ct_build_house_mu_bu, st_build_house_mu_bu, ct_build_house_operator_demo,
  st_build_house_operator_demo, ct_build_house_single_mode, st_build_house_single_mode,
  ct_build_house_group_mode, st_build_house_group_mode, ct_build_house_game_end,
  st_build_house_game_end, ct_build_house_email_tibet, st_build_house_email_tibet,
  ct_build_house_email_america, st_build_house_email_america, ct_build_house_activation,
  st_build_house_activation, ct_build_house_role, st_build_house_role, ct_build_house_stamp,
  st_build_house_stamp, ct_cartoon_game_start, st_cartoon_game_start, ct_cartoon_play,
  st_cartoon_play, ct_cartoon_pause, st_cartoon_pause, ct_cartoon_stop, st_cartoon_stop,
  ct_cartoon_game_end, st_cartoon_game_end, ct_exercise_game_start, st_exercise_game_start,
  ct_exercise_play, st_exercise_play, ct_exercise_pause, st_exercise_pause, ct_exercise_stop,
  st_exercise_stop, ct_exercise_game_end, st_exercise_game_end, ct_show_sprite_animation,
  st_show_sprite_animation, ct_show_sprite_control, st_show_sprite_control, ct_control_level,
  st_control_level, ct_puzzle_icon_status, st_puzzle_icon_status, ct_puzzle_play, st_puzzle_play,
  ct_puzzle_pause, st_puzzle_pause, ct_common_playor_pause, ct_common_resume, st_common_resume,
  ct_common_stop, st_common_stop,
}
use teachserver.Single.{null}
use teachserver.Server.{Server, Env, command}
use teachserver.Post.{post_teacher_to_white}

-- A handler: what it is given from outside, the buffer, and the state; none is a fault.
abbrev pub Handler : Type 0
Handler = Env → ℕ → Server → Option Server

-- The common body.
unfoldable pub forward : CommandType → CommandType → ℕ → Server → Option Server
unfolding post_teacher_to_white code
forward ct st p w =
    if p == null
    then some w
    else if command p w == code ct
    then some (post_teacher_to_white p st w).1
    else some w

-- handler/HandleBuildHouse.cpp
unfoldable pub handle_build_house_cai_hong_xiao_wu : Handler
unfolding forward
handle_build_house_cai_hong_xiao_wu env =
    forward ct_build_house_cai_hong_xiao_wu st_build_house_cai_hong_xiao_wu

unfoldable pub handle_build_house_cai_hong_gu : Handler
unfolding forward
handle_build_house_cai_hong_gu env = forward ct_build_house_cai_hong_gu st_build_house_cai_hong_gu

unfoldable pub handle_build_house_xiao_guai_wu : Handler
unfolding forward
handle_build_house_xiao_guai_wu env =
    forward ct_build_house_xiao_guai_wu st_build_house_xiao_guai_wu

unfoldable pub handle_build_house_mu_bu : Handler
unfolding forward
handle_build_house_mu_bu env = forward ct_build_house_mu_bu st_build_house_mu_bu

unfoldable pub handle_build_house_operator_demo : Handler
unfolding forward
handle_build_house_operator_demo env =
    forward ct_build_house_operator_demo st_build_house_operator_demo

unfoldable pub handle_build_house_single_mode : Handler
unfolding forward
handle_build_house_single_mode env = forward ct_build_house_single_mode st_build_house_single_mode

unfoldable pub handle_build_house_group_mode : Handler
unfolding forward
handle_build_house_group_mode env = forward ct_build_house_group_mode st_build_house_group_mode

unfoldable pub handle_build_house_game_end : Handler
unfolding forward
handle_build_house_game_end env = forward ct_build_house_game_end st_build_house_game_end

unfoldable pub handle_build_house_email_tibet : Handler
unfolding forward
handle_build_house_email_tibet env = forward ct_build_house_email_tibet st_build_house_email_tibet

unfoldable pub handle_build_house_email_america : Handler
unfolding forward
handle_build_house_email_america env =
    forward ct_build_house_email_america st_build_house_email_america

unfoldable pub handle_build_house_activation : Handler
unfolding forward
handle_build_house_activation env = forward ct_build_house_activation st_build_house_activation

unfoldable pub handle_build_house_role : Handler
unfolding forward
handle_build_house_role env = forward ct_build_house_role st_build_house_role

unfoldable pub handle_build_house_stamp : Handler
unfolding forward
handle_build_house_stamp env = forward ct_build_house_stamp st_build_house_stamp

-- handler/HandleCartoon.cpp
unfoldable pub handle_cartoon_game_start : Handler
unfolding forward
handle_cartoon_game_start env = forward ct_cartoon_game_start st_cartoon_game_start

unfoldable pub handle_cartoon_play : Handler
unfolding forward
handle_cartoon_play env = forward ct_cartoon_play st_cartoon_play

unfoldable pub handle_cartoon_pause : Handler
unfolding forward
handle_cartoon_pause env = forward ct_cartoon_pause st_cartoon_pause

unfoldable pub handle_cartoon_stop : Handler
unfolding forward
handle_cartoon_stop env = forward ct_cartoon_stop st_cartoon_stop

unfoldable pub handle_cartoon_game_end : Handler
unfolding forward
handle_cartoon_game_end env = forward ct_cartoon_game_end st_cartoon_game_end

-- handler/HandleExercise.cpp
unfoldable pub handle_exercise_game_start : Handler
unfolding forward
handle_exercise_game_start env = forward ct_exercise_game_start st_exercise_game_start

unfoldable pub handle_exercise_play : Handler
unfolding forward
handle_exercise_play env = forward ct_exercise_play st_exercise_play

unfoldable pub handle_exercise_pause : Handler
unfolding forward
handle_exercise_pause env = forward ct_exercise_pause st_exercise_pause

unfoldable pub handle_exercise_stop : Handler
unfolding forward
handle_exercise_stop env = forward ct_exercise_stop st_exercise_stop

unfoldable pub handle_exercise_game_end : Handler
unfolding forward
handle_exercise_game_end env = forward ct_exercise_game_end st_exercise_game_end

-- handler/HandleSprite.cpp
unfoldable pub handle_show_sprite_animation : Handler
unfolding forward
handle_show_sprite_animation env = forward ct_show_sprite_animation st_show_sprite_animation

unfoldable pub handle_show_sprite_control : Handler
unfolding forward
handle_show_sprite_control env = forward ct_show_sprite_control st_show_sprite_control

unfoldable pub handle_control_level : Handler
unfolding forward
handle_control_level env = forward ct_control_level st_control_level

-- handler/HandlePuzzle.cpp
unfoldable pub handle_puzzle_icon_status : Handler
unfolding forward
handle_puzzle_icon_status env = forward ct_puzzle_icon_status st_puzzle_icon_status

unfoldable pub handle_puzzle_play : Handler
unfolding forward
handle_puzzle_play env = forward ct_puzzle_play st_puzzle_play

unfoldable pub handle_puzzle_pause : Handler
unfolding forward
handle_puzzle_pause env = forward ct_puzzle_pause st_puzzle_pause

-- handler/HandleClassRoom.cpp
unfoldable pub handle_common_playor_pause : Handler
unfolding forward
handle_common_playor_pause env = forward ct_common_playor_pause ct_common_playor_pause

unfoldable pub handle_common_resume : Handler
unfolding forward
handle_common_resume env = forward ct_common_resume st_common_resume

unfoldable pub handle_common_stop : Handler
unfolding forward
handle_common_stop env = forward ct_common_stop st_common_stop
